-- ===== src/Hot/Slot/Refines.antt =====
-- The scripts do to the keys of a driver what the slot's operations say, and answer the same.
use nexus_dispatch.Prelude.{
  ℕ, suc, ◌≡◌, refl, true, string_dec, ==-refl, ==-ne, ◌==◌, ◌≢◌, if◌then◌else◌, Option, none, some,
  String, arith,
}
use nexus_dispatch.Redis.{Datum, text, Value, put_field, field, Redis, IsRedis}
use nexus_dispatch.Hot.Keys.{driver_key, driver_lease_key, driver_lease_key-ne-driver_key_self}
use nexus_dispatch.Hot.Scripts.{reserve_script, release_script}
use nexus_dispatch.Hot.Slot.{Slot, reserve, release, is_hash, state_datum, Represents}

module _ (v : Value) (h : is_hash v ≡ true) where
  pub is_hash-put_field : (f : String) (d : Datum) → is_hash (put_field f d v) ≡ true
  is_hash-put_field f d = ground arith

  pub field-put_field :
      (f g : String) (d : Datum)
      → field (put_field f d v) g ≡ (if g == f then some d else field v g)
  field-put_field f g d = ground arith

ride_ne_state : ◌≢◌ {A = String} "state" "reserved_ride"
ride_ne_state e = cc

reserved_ne_available : ◌≢◌ {A = String} "RESERVED" "AVAILABLE"
reserved_ne_available e = cc

module _ (R : Redis) (L : IsRedis R) (id : String) where
  taken : (ride lease : String) (t : ℕ) (db : R.Db) → R.Db
  taken ride lease t db = R.hset (driver_key id) "reserved_ride" (text ride) (
      R.hset (driver_key id) "state" (text "RESERVED")
        (R.set_ex (driver_lease_key id) (text lease) (suc t) db))

  -- One write to the driver's hash.
  pub hset-Represents :
      (f : String) (d : Datum) (db : R.Db) (s s' : Slot)
      → Represents R db id s
      → s'.lease ≡ s.lease
      → state_datum s'.state ≡ (if "state" == f then some d else state_datum s.state)
      → Represents R (R.hset (driver_key id) f d db) id s'
  hset-Represents f d db s s' h e k = record {
    lease_key = ground (
      arith,
      L.read-hset (driver_key id) (driver_lease_key id) f d db,
      driver_lease_key-ne-driver_key_self id,
    );
    driver_hash = ground (
      arith,
      L.read-hset (driver_key id) (driver_key id) f d db,
      is_hash-put_field _ h.driver_hash f d,
    );
    state_field = ground (
      arith,
      L.read-hset (driver_key id) (driver_key id) f d db,
      field-put_field _ h.driver_hash f "state" d,
    );
  }

  pub set_ex-Represents :
      (lease : String) (t : ℕ) (db : R.Db) (s : Slot)
      → Represents R db id s
      → Represents R
          (R.set_ex (driver_lease_key id) (text lease) (suc t) db)
          id
          (record s { lease = some lease })
  set_ex-Represents lease t db s h = record {
    lease_key =
        ground (arith, L.read-set_ex (driver_lease_key id) (driver_lease_key id) (text lease) t db);
    driver_hash = ground (
      arith,
      L.read-set_ex (driver_lease_key id) (driver_key id) (text lease) t db,
      driver_lease_key-ne-driver_key_self id,
    );
    state_field = ground (
      arith,
      L.read-set_ex (driver_lease_key id) (driver_key id) (text lease) t db,
      driver_lease_key-ne-driver_key_self id,
    );
  }

  del-Represents :
      (db : R.Db) (s : Slot)
      → Represents R db id s
      → Represents R (R.del (driver_lease_key id) db) id (record s { lease = none })
  del-Represents db s h = record {
    lease_key = ground (arith, L.read-del (driver_lease_key id) (driver_lease_key id) db);
    driver_hash = ground (
      arith,
      L.read-del (driver_lease_key id) (driver_key id) db,
      driver_lease_key-ne-driver_key_self id,
    );
    state_field = ground (
      arith,
      L.read-del (driver_lease_key id) (driver_key id) db,
      driver_lease_key-ne-driver_key_self id,
    );
  }

  abbrev slot : Option String → Option String → Slot
  slot l s = record { lease = l; state = s }

  taken-Represents :
      (ride lease : String) (t : ℕ) (db : R.Db) (s : Slot)
      → Represents R db id s
      → Represents R (taken ride lease t db) id (slot (some lease) (some "RESERVED"))
  unfolding taken
  taken-Represents ride lease t db s h =
      hset-Represents "reserved_ride" (text ride) _ (slot (some lease) (some "RESERVED")) _
        (hset-Represents "state" (text "RESERVED") _ (record s { lease = some lease }) _
          (set_ex-Represents lease t db s h) refl (ground arith))
        refl (ground (arith, ride_ne_state))

  reserve_held :
      (ride lease owner : String) (t : ℕ) (db : R.Db) (st : Option String)
      → Represents R db id (slot (some owner) st)
      → let r = reserve_script R (driver_lease_key id) (driver_key id) ride lease (suc t) db in
        let q = reserve lease (slot (some owner) st) in Represents R r.0 id q.0 × (r.1 ≡ some q.1)
  unfolding reserve_script reserve
  reserve_held ride lease owner t db st h = rw h.lease_key (elim (string_dec owner lease) [
    | yes p ↦ rw (p, ==-refl lease) (set_ex-Represents lease t db _ h, refl)
    | no p ↦ rw (==-ne owner lease p) (h, refl)
  ])

  reserve_empty :
      (ride lease : String) (t : ℕ) (db : R.Db) (st : Option String)
      → Represents R db id (slot none st)
      → let r = reserve_script R (driver_lease_key id) (driver_key id) ride lease (suc t) db in
        let q = reserve lease (slot none st) in Represents R r.0 id q.0 × (r.1 ≡ some q.1)
  unfolding reserve_script reserve
  reserve_empty ride lease t db none h = rw (h.lease_key, h.state_field) (h, refl)
  reserve_empty ride lease t db (some a) h =
      let after = taken-Represents ride lease t db _ h in
      rw (h.lease_key, h.state_field)
        (elim (string_dec a "RESERVED") [
          | yes p ↦
              rw
                (
                  p,
                  ==-refl "RESERVED",
                  ==-refl "AVAILABLE",
                  ==-ne "RESERVED" "AVAILABLE" reserved_ne_available,
                )
                (unfold taken in after, refl)
          | no p ↦ rw (==-ne a "RESERVED" p) (elim (string_dec a "AVAILABLE") [
            | yes q ↦ rw (q, ==-refl "AVAILABLE") (unfold taken in after, refl)
            | no q ↦ rw (==-ne a "AVAILABLE" q) (h, refl)
          ])
        ])

  -- The reservation script does to the driver's keys what the slot's operation says, and answers the
  -- same number, at any positive term.
  pub reserve_script-Represents :
      (ride lease : String) (t : ℕ) (db : R.Db) (s : Slot)
      → Represents R db id s
      → let r = reserve_script R (driver_lease_key id) (driver_key id) ride lease (suc t) db in
        Represents R r.0 id (reserve lease s).0 × (r.1 ≡ some (reserve lease s).1)
  reserve_script-Represents ride lease t db s h = by_lease s.lease h
    where
      by_lease :
          (l : Option String)
          → Represents R db id (slot l s.state)
          → let r = reserve_script R (driver_lease_key id) (driver_key id) ride lease (suc t) db in
            let q = reserve lease (slot l s.state) in Represents R r.0 id q.0 × (r.1 ≡ some q.1)
      by_lease none k = reserve_empty ride lease t db s.state k
      by_lease (some o) k = reserve_held ride lease o t db s.state k

  release_script-slot :
      (lease target : String) (db : R.Db) (l st : Option String)
      → Represents R db id (slot l st)
      → let r = release_script R (driver_lease_key id) (driver_key id) lease target db in
        let q = release lease target (slot l st) in Represents R r.0 id q.0 × (r.1 ≡ some q.1)
  unfolding release_script release
  release_script-slot lease target db none st h = rw h.lease_key (h, refl)
  release_script-slot lease target db (some o) st h = rw h.lease_key (elim (string_dec o lease) [
    | yes p ↦
        rw (p, ==-refl lease)
          (
            hset-Represents "state" (text target) _ (slot none st) _ (del-Represents db _ h) refl
                (ground arith),
            refl,
          )
    | no p ↦ rw (==-ne o lease p) (h, refl)
  ])

  -- The release script does to the driver's keys what the slot's operation says, and answers the
  -- same number.
  pub release_script-Represents :
      (lease target : String) (db : R.Db) (s : Slot)
      → Represents R db id s
      → let r = release_script R (driver_lease_key id) (driver_key id) lease target db in
        Represents R r.0 id (release lease target s).0 × (r.1 ≡ some (release lease target s).1)
  release_script-Represents lease target db s h =
      release_script-slot lease target db s.lease s.state h
