-- ===== src/Dispatch/Choice.antt =====
-- Which candidate the loop of internal/dispatch/engine.go reserves, said of the drivers' slots alone.
use mathlib.Core.Path.{ap₂}
use nexus_dispatch.Prelude.{
  ℕ, suc, ◌+◌, ◌*◌, ◌≡◌, ◌≢◌, refl, sym, ap, false, Option, none, some, List, [], ◌∷◌, All, String,
  inl, inr, Bool-cases, arith, if◌then◌else◌,
}
use nexus_dispatch.Prelude.Int.{negsuc}
use nexus_dispatch.Redis.{Redis, IsRedis}
use nexus_dispatch.Outcome.{Error, Outcome, ok, err, panic, up, call, conflict, not_available}
use nexus_dispatch.Hot.Keys.{driver_key, driver_lease_key}
use nexus_dispatch.Hot.LeaseValue.{LeaseValue, lease_string}
use nexus_dispatch.Hot.Scripts.{reserve_script}
use nexus_dispatch.Hot.Store
use nexus_dispatch.Hot.Slot.{Slot, Represents, is_reservable}
use nexus_dispatch.Hot.Slot.Exclusive.{slot, reserve-leased}
use nexus_dispatch.Hot.Slot.Held.{Held}
use nexus_dispatch.Reservation.{Manager, Reservation, next_version, reserve}
use nexus_dispatch.Reservation.Renewal.{reserve-Held}
use nexus_dispatch.Dispatch.{Candidate, Surroundings, Attempts, won, lost, crashed, try_candidates}

-- The candidate that the slots call for: leased drivers are passed over, and the first driver without
-- a lease is taken, or ends the search if its state does not allow it.
unfoldable pub choose : (String → Slot) → List Candidate → Option Candidate
choose slots [] = none
choose slots (c ∷ cs) =
    let rest = choose slots cs in
    elim (slots c.driver_id).lease [
      | some l ↦ rest
      | none ↦ if is_reservable (slots c.driver_id).state then some c else none
    ]

module _ (R : Redis) (world : Surroundings) (slots : String → Slot) (ride : String) where
  -- A candidate whose slot is this one, which Redis answers for, and whose lease, if it has one, is
  -- not one that an attempt for this ride would bring.
  pub record Ready (db : R.Db) (c : Candidate) : Type 0 where
    pub link : world.net c.driver_id ≡ up
    pub token : String
    pub drawn : world.token c.driver_id ≡ some token
    pub here : Represents R db c.driver_id (slots c.driver_id)
    pub forever : R.deadline db (driver_key c.driver_id) ≡ none
    pub foreign :
        (version : ℕ)
        → (slots c.driver_id).lease
          ≢ some (lease_string (record { ride_id = ride; token = token; version = version }))

-- The loop did what was to be chosen: it reserved that candidate for the ride, for a whole term, or
-- it reserved none and wrote nothing.
abbrev pub Chose :
    (R : Redis) → String → ℕ → R.Db → Option Candidate → (Manager × R.Db) × Attempts → Type 0
Chose R ride ttl db (some c) ((m, db'), won c' r) =
    (c' ≡ c)
    × (r.driver_id ≡ c.driver_id)
    × (r.ride_id ≡ ride)
    × Held R r.driver_id (lease_string r.lease) (R.now db' + ttl * 1000) db'
Chose R ride ttl db none ((m, db'), lost e) = db' ≡ db
Chose R ride ttl db _ _ = ⊥

module _ (R : Redis) (L : IsRedis R) (world : Surroundings) (ride : String) where
  unavailable_script :
      (id l : String) (t : ℕ) (st : Option String) (db : R.Db)
      → Represents R db id (slot none st)
      → is_reservable st ≡ false
      → reserve_script R (driver_lease_key id) (driver_key id) ride l t db ≡ (db, some (negsuc 0))
  unfolding reserve_script
  unavailable_script id l t none db h e = rw (h.lease_key, h.state_field) refl
  unavailable_script id l t (some s) db h e = rw (h.lease_key, h.state_field) (ground (arith, e))

  next : Manager → Manager
  next m = record m { version = next_version m.version }

  reserve_unavailable :
      (id token : String) (st : Option String) (m : Manager) (db : R.Db)
      → Represents R db id (slot none st)
      → is_reservable st ≡ false
      → reserve R up (some token) id ride m db ≡ ((next m, db), err not_available)
  unfolding reserve next Store.reserve call Store.reserve_result
  reserve_unavailable id token st m db h e =
      rw
        (unavailable_script id
          (lease_string
            (record { ride_id = ride; token = token; version = next_version m.version }))
          m.ttl st db h e)
        refl

  reserve_conflict :
      (id token l : String) (st : Option String) (m : Manager) (db : R.Db)
      → Represents R db id (slot (some l) st)
      → ((version : ℕ)
          → some l
            ≢ some (lease_string (record { ride_id = ride; token = token; version = version })))
      → reserve R up (some token) id ride m db ≡ ((next m, db), err conflict)
  unfolding reserve next
  reserve_conflict id token l st m db h ne =
      let lv : LeaseValue = record {
        ride_id = ride;
        token = token;
        version = next_version m.version;
      } in
      rw
        (reserve-leased R id ride l st lv m.ttl db h
          (λ e. ne (next_version m.version) (ap some (sym e))))
        refl

  -- What the loop makes of the answer for a candidate.
  abbrev go_on :
      Candidate
      → List Candidate
      → (Manager × R.Db) × Outcome Reservation
      → (Manager × R.Db) × Attempts
  go_on c cs (after, res) =
      let rest = try_candidates R world ride cs (some conflict) after.0 after.1 in
      elim res [
        | ok r ↦ (after, won c r)
        | err conflict ↦ rest
        | err e ↦ (after, lost (some e))
        | panic ↦ (after, crashed)
      ]

  tried :
      (c : Candidate) (cs : List Candidate) (last : Option Error) (m : Manager) (db : R.Db)
      (token : String)
      → world.net c.driver_id ≡ up
      → world.token c.driver_id ≡ some token
      → try_candidates R world ride (c ∷ cs) last m db
        ≡ go_on c cs (reserve R up (some token) c.driver_id ride m db)
  unfolding try_candidates
  tried c cs last m db token e f = ap₂ (λ l t. go_on c cs (reserve R l t c.driver_id ride m db)) e f

  step :
      (c : Candidate) (cs : List Candidate) (best : Option Candidate) (token : String)
      (l st : Option String) (m : Manager) (t : ℕ) (db : R.Db)
      → m.ttl ≡ suc t
      → R.deadline db (driver_key c.driver_id) ≡ none
      → Represents R db c.driver_id (slot l st)
      → ((version : ℕ)
          → l ≢ some (lease_string (record { ride_id = ride; token = token; version = version })))
      → Chose R ride m.ttl db best (try_candidates R world ride cs (some conflict) (next m) db)
      → Chose R ride m.ttl db
          (elim l [ some x ↦ best | none ↦ if is_reservable st then some c else none ])
          (go_on c cs (reserve R up (some token) c.driver_id ride m db))
  step c cs best token (some l) st m t db e f k ne rest =
      rw (reserve_conflict c.driver_id token l st m db k ne) rest
  step c cs best token none st m t db e f k ne rest = elim (Bool-cases (is_reservable st)) [
    | inr g ↦ rw (g, reserve_unavailable c.driver_id token st m db k g) refl
    | inl g ↦
        let (res, v, held) = reserve-Held R L token c.driver_id ride m t st db e k g f in
        rw g (rw res (refl, refl, refl, held))
  ]

  -- If every candidate is a driver that Redis answers for (a slot, with no deadline on the driver's
  -- own key, and no lease that an attempt for this ride would bring), then the loop over them
  -- reserves for the ride, for a whole term from now, the one candidate that the slots call for;
  -- where they call for none it fails and writes nothing.
  pub try_candidates-choose :
      (slots : String → Slot) (cs : List Candidate) (last : Option Error) (m : Manager) (t : ℕ)
      (db : R.Db)
      → m.ttl ≡ suc t
      → All (Ready R world slots ride db) cs
      → Chose R ride m.ttl db (choose slots cs) (try_candidates R world ride cs last m db)
  unfolding choose try_candidates next
  try_candidates-choose slots [] last m t db e h = refl
  try_candidates-choose slots (c ∷ cs) last m t db e (h, hs) =
      rw (tried c cs last m db h.token h.link h.drawn) (
        step c cs (choose slots cs) h.token (slots c.driver_id).lease (slots c.driver_id).state m t
          db e h.forever h.here h.foreign
          (try_candidates-choose slots cs (some conflict) (next m) t db e hs))
