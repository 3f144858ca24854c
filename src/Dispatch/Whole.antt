-- ===== src/Dispatch/Whole.antt =====
-- What a whole dispatch (`DispatchForRide` of internal/dispatch/engine.go) does.
use nexus_dispatch.Prelude.{
  ℕ, suc, ◌+◌, ◌*◌, ◌≡◌, refl, ap, true, false, Option, none, some, List, [], ◌∷◌, All, All-take,
  String,
}
use nexus_dispatch.Prelude.Int.{ℤ, pos_part}
use nexus_dispatch.Redis.{Redis, IsRedis}
use nexus_dispatch.Outcome.{Error, Outcome, ok, err, panic, conflict}
use nexus_dispatch.Geospatial.{Geodesy}
use nexus_dispatch.Hot.LeaseValue.{lease_string}
use nexus_dispatch.Hot.Slot.{Slot}
use nexus_dispatch.Hot.Slot.Held.{Held}
use nexus_dispatch.Hot.Store.Search.{DriverPos, search_nearby}
use nexus_dispatch.Hot.Store.Search.Nearby.{InReach, GoodFind, search_nearby-GoodFind}
use nexus_dispatch.Reservation.{Manager, Reservation, reserve}
use nexus_dispatch.Dispatch.{
  Config, Candidate, RideRequested, Result, Surroundings, Attempts, won, lost, crashed, score_one,
  score, ranked, try_candidates, conclude, assign, dispatch_for_ride, search_radius, request_age,
  Stamp, new_id,
}
use nexus_dispatch.Dispatch.Choice.{Ready, choose, Chose, try_candidates-choose}

-- A sort loses nothing and adds nothing, as far as a property of all elements can tell.
abbrev pub IsSort : (List Candidate → List Candidate) → Type 1
IsSort sort = (P : Candidate → Type 0) (xs : List Candidate) → All P xs → All P (sort xs)

-- The candidate that was reserved, if one was, has this property.
abbrev WonIn : (Candidate → Type 0) → Attempts → Type 0
WonIn P (won c r) = P c
WonIn P _ = Unit

-- A result that says success names a driver with this property.
abbrev pub Serves : (String → Type 0) → Outcome Result → Type 0
Serves P (ok r) = r.success ≡ true → P r.driver_id
Serves P _ = Unit

module _ (R : Redis) (world : Surroundings) (ride : String) (P : Candidate → Type 0) where
  -- The loop's answer for a candidate, by what the reservation answers.
  abbrev settle :
      Candidate
      → Manager × R.Db
      → (Manager × R.Db) × Attempts
      → Outcome Reservation
      → (Manager × R.Db) × Attempts
  settle c after rest o = elim o [
    | ok r ↦ (after, won c r)
    | err conflict ↦ rest
    | err e ↦ (after, lost (some e))
    | panic ↦ (after, crashed)
  ]

  settle-WonIn :
      (c : Candidate) (after : Manager × R.Db) (rest : (Manager × R.Db) × Attempts)
      (o : Outcome Reservation)
      → P c
      → WonIn P rest.1
      → WonIn P (settle c after rest o).1
  settle-WonIn c after rest (ok r) p h = p
  settle-WonIn c after rest (err conflict) p h = h
  settle-WonIn c after rest (err e) p h = tt
  settle-WonIn c after rest panic p h = tt

  try_candidates-All :
      (cs : List Candidate) (last : Option Error) (m : Manager) (db : R.Db)
      → All P cs
      → WonIn P (try_candidates R world ride cs last m db).1
  unfolding try_candidates
  try_candidates-All [] last m db h = tt
  try_candidates-All (c ∷ cs) last m db (p, h) =
      let (after, res) =
        reserve R (world.net c.driver_id) (world.token c.driver_id) c.driver_id ride m db in
      settle-WonIn c after (try_candidates R world ride cs (some conflict) after.0 after.1) res p
        (try_candidates-All cs (some conflict) after.0 after.1 h)

module _ (cfg : Config) (sort : List Candidate → List Candidate) (S : IsSort sort)
    (P : String → Type 0) where
  score-All :
      (age : ℤ) (ds : List DriverPos)
      → All (λ d. P d.id) ds
      → All (λ c. P c.driver_id) (score cfg ds age)
  unfolding score score_one
  score-All age [] h = tt
  score-All age (d ∷ ds) (p, h) = (p, score-All age ds h)

  ranked-All :
      (age : ℤ) (ds : List DriverPos)
      → All (λ d. P d.id) ds
      → All (λ c. P c.driver_id) (ranked cfg sort ds age)
  unfolding ranked
  ranked-All age ds h =
      All-take (λ c. P c.driver_id) (pos_part cfg.max_candidates) (sort (score cfg ds age))
        (S (λ c. P c.driver_id) (score cfg ds age) (score-All age ds h))

module _ (R : Redis) (world : Surroundings) (G : Geodesy) (cfg : Config) where
  conclude-Serves :
      (P : String → Type 0) (ev : RideRequested) (id : String) (cells total : ℕ) (a : Attempts)
      → WonIn (λ c. P c.driver_id) a
      → Serves P (conclude R world ev id cells total a)
  unfolding conclude
  conclude-Serves P ev id cells total (won c r) h = λ e. h
  conclude-Serves P ev id cells total (lost (some x)) h = λ e. cc
  conclude-Serves P ev id cells total (lost none) h = λ e. cc
  conclude-Serves P ev id cells total crashed h = tt

  assign-Serves :
      (P : String → Type 0) (now : ℕ) (ev : RideRequested) (id : String)
      (found : Outcome (List DriverPos × ℕ)) (m : Manager) (db : R.Db)
      → IsSort world.sort
      → GoodFind (λ d. P d.id) found
      → Serves P (assign R world G cfg now ev id found m db).1
  unfolding assign
  assign-Serves P now ev id (err e) m db S h = λ e. cc
  assign-Serves P now ev id panic m db S h = tt
  assign-Serves P now ev id (ok ([], cells)) m db S h = λ e. cc
  assign-Serves P now ev id (ok (d ∷ ds, cells)) m db S h = conclude-Serves P ev id cells _ _ (
      try_candidates-All R world ev.ride_id (λ c. P c.driver_id) _ none m db
        (ranked-All cfg world.sort S P (request_age R world G cfg now ev) (d ∷ ds) h))

  -- A dispatch that says success names a driver whose state in Redis was AVAILABLE and whose
  -- position in Redis was not farther from the pickup than the radius (the configured one where the
  -- ride gives none), whatever becomes of the single commands, if the sort adds no candidates.
  pub dispatch_for_ride-ServesInReach :
      (now : ℕ) (ev : RideRequested) (id : Stamp) (m : Manager) (db : R.Db)
      → IsSort world.sort
      → Serves
          (InReach R G ev.pickup_lat ev.pickup_lng (search_radius R world G cfg ev) db)
          (dispatch_for_ride R world G cfg now ev id m db).1
  unfolding dispatch_for_ride
  dispatch_for_ride-ServesInReach now ev id m db S =
      assign-Serves (InReach R G ev.pickup_lat ev.pickup_lng (search_radius R world G cfg ev) db)
        now ev (new_id "disp" id) _ m db S
        (search_nearby-GoodFind R G world.search ev.pickup_lat ev.pickup_lng
          (search_radius R world G cfg ev) db)

  -- What the dispatch did: it reserved this driver for the ride and says so, or it says that it failed
  -- and wrote nothing.
  abbrev pub Dispatched :
      String → ℕ → R.Db → Option Candidate → (Manager × R.Db) × Outcome Result → Type 0
  Dispatched ride ttl db (some c) ((m, db'), ok r) =
      (r.success ≡ true)
      × (r.driver_id ≡ c.driver_id)
      × ((lease : String) × Held R c.driver_id lease (R.now db' + ttl * 1000) db')
  Dispatched ride ttl db none ((m, db'), ok r) = (r.success ≡ false) × (db' ≡ db)
  Dispatched ride ttl db _ _ = ⊥

  conclude-Dispatched :
      (ev : RideRequested) (id : String) (cells total ttl : ℕ) (db : R.Db) (best : Option Candidate)
      (done : (Manager × R.Db) × Attempts)
      → Chose R ev.ride_id ttl db best done
      → Dispatched ev.ride_id ttl db best (done.0, conclude R world ev id cells total done.1)
  unfolding conclude
  conclude-Dispatched ev id cells total ttl db (some c) ((m, db'), won c' r) (e, f, g, h) =
      (refl, ap (λ x. x.driver_id) e, (lease_string r.lease, rw f at h))
  conclude-Dispatched ev id cells total ttl db none ((m, db'), won c' r) e = elim e [ ]
  conclude-Dispatched ev id cells total ttl db none ((m, db'), crashed) e = elim e [ ]
  conclude-Dispatched ev id cells total ttl db (some c) ((m, db'), lost x) e = elim e [ ]
  conclude-Dispatched ev id cells total ttl db (some c) ((m, db'), crashed) e = elim e [ ]
  conclude-Dispatched ev id cells total ttl db none ((m, db'), lost none) e = (refl, e)
  conclude-Dispatched ev id cells total ttl db none ((m, db'), lost (some x)) e = (refl, e)

  -- If the search finds drivers and each of the candidates that its ranking leaves is one that Redis
  -- answers for, then the dispatch reserves the one that their slots call for, for a whole term from
  -- now, and says so; where they call for none it fails and writes nothing.
  pub dispatch_for_ride-choose :
      (L : IsRedis R) (slots : String → Slot) (now : ℕ) (ev : RideRequested) (id : Stamp)
      (d : DriverPos) (ds : List DriverPos) (cells t : ℕ) (m : Manager) (db : R.Db)
      → let order = ranked cfg world.sort (d ∷ ds) (request_age R world G cfg now ev) in
        m.ttl ≡ suc t
        → search_nearby R G world.search ev.pickup_lat ev.pickup_lng
            (search_radius R world G cfg ev)
            db
          ≡ ok (d ∷ ds, cells)
        → All (Ready R world slots ev.ride_id db) order
        → Dispatched ev.ride_id m.ttl db
            (choose slots order)
            (dispatch_for_ride R world G cfg now ev id m db)
  unfolding dispatch_for_ride assign
  dispatch_for_ride-choose L slots now ev id d ds cells t m db e f h =
      let order = ranked cfg world.sort (d ∷ ds) (request_age R world G cfg now ev) in
      rw f (
        conclude-Dispatched ev (new_id "disp" id) cells _ m.ttl db (choose slots order)
          (try_candidates R world ev.ride_id order none m db)
          (try_candidates-choose R L world ev.ride_id slots order none m t db e h))
