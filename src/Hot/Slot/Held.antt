-- ===== src/Hot/Slot/Held.antt =====
-- How long a lease holds: until its term is over, whatever else is sent to the store meanwhile.
use nexus_dispatch.Prelude.{
  ℕ, ◌+◌, ◌<◌, ◌≡◌, ◌≢◌, refl, sym, ◌∙◌, Option, none, some, List, [], ◌∷◌, All, String, string_dec,
  ==-ne, arith,
}
use nexus_dispatch.Prelude.Int.{pos}
use nexus_dispatch.Redis.{text, Redis, IsRedis}
use nexus_dispatch.Outcome.{Link, up, ok, call, call-cases}
use nexus_dispatch.Hot.Keys.{IsPlain, driver_key, driver_lease_key}
use nexus_dispatch.Hot.Scripts.{reserve_script, release_script}
use nexus_dispatch.Hot.LeaseValue.{LeaseValue, lease_string}
use nexus_dispatch.Hot.Store
use nexus_dispatch.Hot.Store.{conflict}
use nexus_dispatch.Hot.Slot.{Represents}
use nexus_dispatch.Hot.Slot.Exclusive.{slot}
use nexus_dispatch.Hot.Slot.Frame.{
  Same, Same-refl, Same-hset, reserve_script-Same, release_script-Same,
}
use nexus_dispatch.Hot.Slot.Refines.{hset-Represents}

-- What clients of the store do to drivers, and the passing of time.
pub data Op : Type 0 where
  reserves : Link → String → String → LeaseValue → ℕ → Op
  releases : Link → String → LeaseValue → String → Op
  sets_state : Link → String → String → Op
  waits : ℕ → Op

-- An operation that neither renews nor releases this lease of this driver, on plain ids.
abbrev pub IsForeign : String → String → Op → Type 0
IsForeign id l (reserves k driver ride lv t) = IsPlain driver × (lease_string lv ≢ l)
IsForeign id l (releases k driver lv target) = IsPlain driver × (lease_string lv ≢ l)
IsForeign id l (sets_state k driver state) = IsPlain driver
IsForeign id l (waits t) = Unit

abbrev pub time_of : Op → ℕ
time_of (waits t) = t
time_of _ = 0

abbrev pub total_time : List Op → ℕ
total_time [] = 0
total_time (o ∷ os) = time_of o + total_time os

module _ (R : Redis) where
  unfoldable pub apply : Op → R.Db → R.Db
  apply (reserves k driver ride lv t) db = (Store.reserve R k driver ride lv t db).0
  apply (releases k driver lv target) db = (Store.release R k driver lv target db).0
  apply (sets_state k driver state) db = (Store.set_state R k driver state db).0
  apply (waits t) db = R.wait t db

  unfoldable pub run : List Op → R.Db → R.Db
  unfolding apply
  run [] db = db
  run (o ∷ os) db = run os (apply o db)

-- The driver is leased under this text until d, and its own key has no deadline.
pub record Held (R : Redis) (id l : String) (d : ℕ) (db : R.Db) : Type 0 where
  pub state : Option String
  pub here : Represents R db id (slot (some l) state)
  pub until : R.deadline db (driver_lease_key id) ≡ some d
  pub forever : R.deadline db (driver_key id) ≡ none

module _ (R : Redis) (L : IsRedis R) (id l : String) (d : ℕ) (p : IsPlain id) where
  Same-Held : {db db' : R.Db} → Same R id db db' → Held R id l d db → Held R id l d db'
  Same-Held s h = record {
    state = h.state;
    here = record {
      lease_key = s.lease_read ∙ h.here.lease_key;
      driver_hash = rw s.driver_read h.here.driver_hash;
      state_field = rw s.driver_read h.here.state_field;
    };
    until = s.lease_until ∙ h.until;
    forever = s.driver_until ∙ h.forever;
  }

  hset-Held :
      (state : String) (db : R.Db)
      → Held R id l d db
      → Held R id l d (R.hset (driver_key id) "state" (text state) db)
  hset-Held state db h = record {
    state = some state;
    here =
        hset-Represents R L id "state" (text state) db _ (slot (some l) (some state)) h.here refl
          (ground arith);
    until = L.deadline-hset _ _ _ _ _ ∙ h.until;
    forever = L.deadline-hset _ _ _ _ _ ∙ h.forever;
  }

  wait-Held :
      (t : ℕ) (db : R.Db) → R.now db + t < d → Held R id l d db → Held R id l d (R.wait t db)
  wait-Held t db lt h = record {
    state = h.state;
    here = record {
      lease_key = lease_kept ∙ h.here.lease_key;
      driver_hash = rw driver_kept h.here.driver_hash;
      state_field = rw driver_kept h.here.state_field;
    };
    until = ground (arith, L.deadline-wait t (driver_lease_key id) db);
    forever = ground (arith, L.deadline-wait t (driver_key id) db);
  }
    where
      lease_kept : R.read (R.wait t db) (driver_lease_key id) ≡ R.read db (driver_lease_key id)
      lease_kept = ground (arith, h.until, L.read-wait t (driver_lease_key id) db)

      driver_kept : R.read (R.wait t db) (driver_key id) ≡ R.read db (driver_key id)
      driver_kept = ground (arith, h.forever, L.read-wait t (driver_key id) db)

  foreign_reserve :
      (ride lease : String) (t : ℕ) (db : R.Db)
      → Held R id l d db
      → lease ≢ l
      → reserve_script R (driver_lease_key id) (driver_key id) ride lease t db ≡ (db, some (pos 0))
  unfolding reserve_script
  foreign_reserve ride lease t db h ne = rw (h.here.lease_key, ==-ne l lease (λ e. ne (sym e)))

  foreign_release :
      (lease target : String) (db : R.Db)
      → Held R id l d db
      → lease ≢ l
      → release_script R (driver_lease_key id) (driver_key id) lease target db ≡ (db, some (pos 0))
  unfolding release_script
  foreign_release lease target db h ne = rw (h.here.lease_key, ==-ne l lease (λ e. ne (sym e)))

  -- Held still, with the clock advanced by t.
  abbrev Kept : ℕ → R.Db → R.Db → Type 0
  Kept t db db' = Held R id l d db' × (R.now db' ≡ R.now db + t)

  Kept-refl : (db : R.Db) → Held R id l d db → Kept 0 db db
  Kept-refl db h = (h, omega arith)

  Kept-Same : (db db' : R.Db) → Held R id l d db → Same R id db db' → Kept 0 db db'
  Kept-Same db db' h s = (Same-Held s h, omega (arith, s.same_now))

  apply-Kept :
      (o : Op) (db : R.Db)
      → IsForeign id l o
      → R.now db + time_of o < d
      → Held R id l d db
      → Kept (time_of o) db (apply R o db)
  unfolding apply Store.reserve Store.release Store.set_state
  apply-Kept (reserves k driver ride lv t) db (q, ne) lt h =
      call-cases (Kept 0 db) k _ db (Kept-refl db h) (elim (string_dec id driver) [
        | yes e ↦ rw (← e, foreign_reserve ride (lease_string lv) t db h ne) (Kept-refl db h)
        | no e ↦
            Kept-Same db _ h (reserve_script-Same R L id driver e p q ride (lease_string lv) t db)
      ])
  apply-Kept (releases k driver lv target) db (q, ne) lt h =
      call-cases (Kept 0 db) k _ db (Kept-refl db h) (elim (string_dec id driver) [
        | yes e ↦ rw (← e, foreign_release (lease_string lv) target db h ne) (Kept-refl db h)
        | no e ↦
            Kept-Same db _ h (release_script-Same R L id driver e p q (lease_string lv) target db)
      ])
  apply-Kept (sets_state k driver state) db q lt h =
      call-cases (Kept 0 db) k _ db (Kept-refl db h) (elim (string_dec id driver) [
        | yes e ↦ rw (← e) (
          hset-Held state db h,
          omega (arith, L.now-hset (driver_key id) "state" (text state) db),
        )
        | no e ↦ Kept-Same db _ h (
            Same-hset R L id driver e p q "state" (text state) db db
              (Same-refl R L id driver e p q db))
      ])
  apply-Kept (waits t) db f lt h = (wait-Held t db lt h, L.now-wait t db)

  pub run-Held :
      (os : List Op) (db : R.Db)
      → All (IsForeign id l) os
      → R.now db + total_time os < d
      → Held R id l d db
      → Held R id l d (run R os db)
  unfolding run
  run-Held [] db f lt h = h
  run-Held (o ∷ os) db (f, fs) lt h =
      let (kept, later) = apply-Kept o db f (omega arith) h in
      run-Held os (apply R o db) fs (omega arith) kept

  -- While the term of a lease runs, and whatever reservations and releases under other leases, state
  -- changes, operations on other drivers and waits come between, the driver stays leased to its
  -- holder, and a reservation under another lease is answered with a conflict and changes nothing.
  -- The ids of the drivers have no colon, and the driver's own key has no deadline.
  pub run-conflict :
      (os : List Op) (db : R.Db) (ride : String) (lv : LeaseValue) (t : ℕ)
      → All (IsForeign id l) os
      → R.now db + total_time os < d
      → Held R id l d db
      → lease_string lv ≢ l
      → Held R id l d (run R os db)
        × (Store.reserve R up id ride lv t (run R os db) ≡ (run R os db, ok conflict))
  unfolding Store.reserve call Store.reserve_result
  run-conflict os db ride lv t f lt h ne =
      let held = run-Held os db f lt h in
      (held, rw (foreign_reserve ride (lease_string lv) t (run R os db) held ne))
