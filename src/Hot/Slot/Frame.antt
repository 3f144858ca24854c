-- ===== src/Hot/Slot/Frame.antt =====
-- What the scripts leave alone: the keys of every other driver, and their deadlines.
use nexus_dispatch.Prelude.{ℕ, zero, suc, ◌≡◌, ◌≢◌, refl, sym, ◌∙◌, String, arith}
use nexus_dispatch.Redis.{Datum, text, Redis, IsRedis}
use nexus_dispatch.Hot.Keys.{
  IsPlain, driver_key, driver_lease_key, driver_key-inj, driver_lease_key-inj,
  driver_lease_key-ne-driver_key,
}
use nexus_dispatch.Hot.Scripts.{reserve_script, release_script}

-- Two databases agree about a driver's reservation.
pub record Same (R : Redis) (id : String) (db db' : R.Db) : Type 0 where
  pub lease_read : R.read db' (driver_lease_key id) ≡ R.read db (driver_lease_key id)
  pub driver_read : R.read db' (driver_key id) ≡ R.read db (driver_key id)
  pub lease_until : R.deadline db' (driver_lease_key id) ≡ R.deadline db (driver_lease_key id)
  pub driver_until : R.deadline db' (driver_key id) ≡ R.deadline db (driver_key id)
  pub same_now : R.now db' ≡ R.now db

module _ (R : Redis) (L : IsRedis R) (id other : String) (ne : id ≢ other) (p : IsPlain id)
    (q : IsPlain other) where
  pub Same-refl : (db : R.Db) → Same R id db db
  Same-refl db = record {
    lease_read = refl;
    driver_read = refl;
    lease_until = refl;
    driver_until = refl;
    same_now = refl;
  }

  lease_ne : driver_lease_key id ≢ driver_lease_key other
  lease_ne e = ne (driver_lease_key-inj id other e)

  driver_ne : driver_key id ≢ driver_key other
  driver_ne e = ne (driver_key-inj id other e)

  lease_ne_driver : driver_lease_key id ≢ driver_key other
  lease_ne_driver = driver_lease_key-ne-driver_key id other q

  driver_ne_lease : driver_key id ≢ driver_lease_key other
  driver_ne_lease e = driver_lease_key-ne-driver_key other id p (sym e)

  Same-set_ex :
      (v : Datum) (t : ℕ) (db db' : R.Db)
      → Same R id db db'
      → Same R id db (R.set_ex (driver_lease_key other) v (suc t) db')
  Same-set_ex v t db db' h = record {
    lease_read =
        ground
          (arith, lease_ne, L.read-set_ex (driver_lease_key other) (driver_lease_key id) v t db');
    driver_read =
        ground
          (arith, driver_ne_lease, L.read-set_ex (driver_lease_key other) (driver_key id) v t db');
    lease_until =
        ground (
          arith,
          lease_ne,
          L.deadline-set_ex (driver_lease_key other) (driver_lease_key id) v t db',
        );
    driver_until = ground (
      arith,
      driver_ne_lease,
      L.deadline-set_ex (driver_lease_key other) (driver_key id) v t db',
    );
    same_now = L.now-set_ex _ _ _ _ ∙ h.same_now;
  }

  pub Same-hset :
      (f : String) (v : Datum) (db db' : R.Db)
      → Same R id db db'
      → Same R id db (R.hset (driver_key other) f v db')
  Same-hset f v db db' h = record {
    lease_read =
        ground
          (arith, lease_ne_driver, L.read-hset (driver_key other) (driver_lease_key id) f v db');
    driver_read = ground (arith, driver_ne, L.read-hset (driver_key other) (driver_key id) f v db');
    lease_until = L.deadline-hset _ _ _ _ _ ∙ h.lease_until;
    driver_until = L.deadline-hset _ _ _ _ _ ∙ h.driver_until;
    same_now = L.now-hset _ _ _ _ ∙ h.same_now;
  }

  Same-del : (db db' : R.Db) → Same R id db db' → Same R id db (R.del (driver_lease_key other) db')
  Same-del db db' h = record {
    lease_read =
        ground (arith, lease_ne, L.read-del (driver_lease_key other) (driver_lease_key id) db');
    driver_read =
        ground (arith, driver_ne_lease, L.read-del (driver_lease_key other) (driver_key id) db');
    lease_until =
        ground (arith, lease_ne, L.deadline-del (driver_lease_key other) (driver_lease_key id) db');
    driver_until =
        ground
          (arith, driver_ne_lease, L.deadline-del (driver_lease_key other) (driver_key id) db');
    same_now = L.now-del _ _ ∙ h.same_now;
  }

  -- A reservation of one driver leaves every other driver's reservation as it was, if neither id has
  -- a colon.
  pub reserve_script-Same :
      (ride lease : String) (t : ℕ) (db : R.Db)
      → Same R id db
          (reserve_script R (driver_lease_key other) (driver_key other) ride lease t db).0
  unfolding reserve_script
  reserve_script-Same ride lease zero db = ground (arith, Same-refl db)
  reserve_script-Same ride lease (suc t) db =
      let set = Same-set_ex (text lease) t db db (Same-refl db) in
      let state = Same-hset "state" (text "RESERVED") db _ set in
      ground (arith, Same-refl db, set, Same-hset "reserved_ride" (text ride) db _ state)

  pub release_script-Same :
      (lease target : String) (db : R.Db)
      → Same R id db
          (release_script R (driver_lease_key other) (driver_key other) lease target db).0
  unfolding release_script
  release_script-Same lease target db =
      ground
        (arith, Same-refl db, Same-hset "state" (text target) db _ (Same-del db db (Same-refl db)))
