-- ===== src/Dispatch/Match.antt =====
-- That a ride is matched where a driver is there (internal/dispatch/engine.go over internal/redis/store.go).
use nexus_dispatch.Prelude.{
  ℕ, suc, ◌≡◌, refl, ap, subst, ◌∙◌, true, Option, none, some, List, [], ◌∷◌, All, String,
  string_dec, take, length, arith,
}
use nexus_dispatch.Prelude.Int.{ℤ, pos_part}
use nexus_dispatch.Redis.{Redis, IsRedis, listed}
use nexus_dispatch.Outcome.{Outcome, ok, err, panic}
use nexus_dispatch.Geospatial.{Geodesy, plan_search, default_resolution, SearchPlan}
use nexus_dispatch.Hot.Slot.{Slot}
use nexus_dispatch.Hot.Index.{is_in, Indexed}
use nexus_dispatch.Hot.Store.Search.{DriverPos, search_nearby}
use nexus_dispatch.Hot.Store.Search.Complete.{Answered, IsWhole, IsNear, has, search_nearby-finds}
use nexus_dispatch.Reservation.{Manager}
use nexus_dispatch.Dispatch.{
  Config, Candidate, RideRequested, Result, Surroundings, score, ranked, search_radius, request_age,
  dispatch_for_ride, Stamp,
}
use nexus_dispatch.Dispatch.Choice.{choose, Ready}
use nexus_dispatch.Dispatch.Whole.{Dispatched, dispatch_for_ride-choose}

-- No lease on the driver, who is AVAILABLE.
pub record IsFree (slots : String → Slot) (c : Candidate) : Type 0 where
  pub unleased : (slots c.driver_id).lease ≡ none
  pub state : (slots c.driver_id).state ≡ some "AVAILABLE"

abbrev Matched : Outcome Result → Type 0
Matched o = (r : Result) × (o ≡ ok r) × (r.success ≡ true)

has-cons :
    (ds : List DriverPos) (id : String)
    → has ds id ≡ true
    → (d : DriverPos) × (ds' : List DriverPos) × (ds ≡ d ∷ ds')
has-cons [] id h = absurd (cc h)
has-cons (d ∷ ds) id h = (d, ds, refl)

length-cons :
    {A : Type 0} (xs : List A) (n : ℕ) → length xs ≡ suc n → (x : A) × (ys : List A) × (xs ≡ x ∷ ys)
length-cons [] n h = absurd (omega arith)
length-cons (x ∷ xs) n h = (x, xs, refl)

module _ (R : Redis) (world : Surroundings) (G : Geodesy) (cfg : Config) where
  Dispatched-Matched :
      (ride : String) (ttl : ℕ) (db : R.Db) (c : Candidate)
      (out : (Manager × R.Db) × Outcome Result)
      → Dispatched R world G cfg ride ttl db (some c) out
      → Matched out.1
  Dispatched-Matched ride ttl db c ((m, db'), ok r) h = (r, refl, h.0)
  Dispatched-Matched ride ttl db c ((m, db'), err e) h = absurd h
  Dispatched-Matched ride ttl db c ((m, db'), panic) h = absurd h

  choose-free :
      (slots : String → Slot) (c : Candidate) (cs : List Candidate)
      → IsFree slots c
      → choose slots (c ∷ cs) ≡ some c
  unfolding choose string_dec
  choose-free slots c cs free = rw (choose, free.unleased, free.state) refl

  ranked-cons :
      (d : DriverPos) (ds : List DriverPos) (age : ℤ) (k : ℕ)
      → pos_part cfg.max_candidates ≡ suc k
      → ((cs : List Candidate) → length (world.sort cs) ≡ length cs)
      → (c : Candidate) × (cs : List Candidate) × (ranked cfg world.sort (d ∷ ds) age ≡ c ∷ cs)
  unfolding ranked score
  ranked-cons d ds age k e sort_len =
      let (c, cs, f) = length-cons (world.sort (score cfg (d ∷ ds) age)) _ (sort_len _) in
      (c, take k cs, rw (e, f) refl)

  -- Where drivers were found and each that the ranking leaves is ready and free, one is dispatched.
  found-Matched :
      (L : IsRedis R) (slots : String → Slot) (now : ℕ) (ev : RideRequested) (id : Stamp)
      (d : DriverPos) (ds : List DriverPos) (cells t k : ℕ) (m : Manager) (db : R.Db)
      → let order = ranked cfg world.sort (d ∷ ds) (request_age R world G cfg now ev) in
        m.ttl ≡ suc t
        → pos_part cfg.max_candidates ≡ suc k
        → ((cs : List Candidate) → length (world.sort cs) ≡ length cs)
        → search_nearby R G world.search ev.pickup_lat ev.pickup_lng
            (search_radius R world G cfg ev)
            db
          ≡ ok (d ∷ ds, cells)
        → All (Ready R world slots ev.ride_id db) order
        → All (IsFree slots) order
        → Matched (dispatch_for_ride R world G cfg now ev id m db).1
  found-Matched L slots now ev id d ds cells t k m db e some_left sort_len f ready free =
      let age = request_age R world G cfg now ev in
      let (c, cs, g) = ranked-cons d ds age k some_left sort_len in
      let first : IsFree slots c = (subst (All (IsFree slots)) g free).0 in
      let chosen : choose slots (ranked cfg world.sort (d ∷ ds) age) ≡ some c =
        ap (choose slots) g ∙ choose-free slots c cs first in
      Dispatched-Matched ev.ride_id m.ttl db c (dispatch_for_ride R world G cfg now ev id m db) (
        subst
          (λ (o : Option Candidate).
            Dispatched R world G cfg ev.ride_id m.ttl db o
              (dispatch_for_ride R world G cfg now ev id m db))
          chosen
          (dispatch_for_ride-choose R world G cfg L slots now ev id d ds cells t m db e f ready))

  -- If Redis answers the search and indexes drivers by their cells, each driver in the cells of the
  -- plan is not AVAILABLE or has a whole position, some driver is AVAILABLE in one of these cells
  -- within the radius, and the candidates that the ranking leaves are ready for the attempt,
  -- AVAILABLE and without a lease, then the dispatch of the ride succeeds, where the sort keeps the
  -- number of candidates and the engine tries one or more.
  pub dispatch_for_ride-matches :
      (L : IsRedis R) (slots : String → Slot) (now : ℕ) (ev : RideRequested) (id : Stamp)
      (near c : String) (plan : SearchPlan) (t k : ℕ) (m : Manager) (db : R.Db)
      → let radius = search_radius R world G cfg ev in
        let search = search_nearby R G world.search ev.pickup_lat ev.pickup_lng radius db in
        let order =
          λ (ds : List DriverPos). ranked cfg world.sort ds (request_age R world G cfg now ev) in
        m.ttl ≡ suc t
        → pos_part cfg.max_candidates ≡ suc k
        → ((cs : List Candidate) → length (world.sort cs) ≡ length cs)
        → Answered R db world.search
        → plan_search G ev.pickup_lat ev.pickup_lng radius default_resolution ≡ ok plan
        → Indexed R db
        → IsNear R db G ev.pickup_lat ev.pickup_lng radius near c
        → listed plan.cells c ≡ true
        → ((b x : String) → listed plan.cells b ≡ true → is_in R db x b ≡ true → IsWhole R db x)
        → ((ds : List DriverPos) (cells : ℕ)
            → search ≡ ok (ds, cells)
            → All (Ready R world slots ev.ride_id db) (order ds) × All (IsFree slots) (order ds))
        → Matched (dispatch_for_ride R world G cfg now ev id m db).1
  dispatch_for_ride-matches L slots now ev id near c plan t k m db e left sort_len up planned index
        close here whole candidates =
      let (ds, answer, found) =
        search_nearby-finds R G world.search ev.pickup_lat ev.pickup_lng
          (search_radius R world G cfg ev) db near c up close L plan planned index here whole in
      let (d, ds', cons) = has-cons ds near found in
      let answer' =
        subst
          (λ (l : List DriverPos).
            search_nearby R G world.search ev.pickup_lat ev.pickup_lng
              (search_radius R world G cfg ev) db
            ≡ ok (l, length plan.cells))
          cons answer in
      let (ready, free) = candidates (d ∷ ds') (length plan.cells) answer' in
      found-Matched L slots now ev id d ds' (length plan.cells) t k m db e left sort_len answer'
        ready free
