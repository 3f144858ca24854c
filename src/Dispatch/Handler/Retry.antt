-- ===== src/Dispatch/Handler/Retry.antt =====
-- Which ride requests are tried again (internal/dispatchsvc/service.go).
use nexus_dispatch.Prelude.{
  ℕ, ◌≡◌, ◌≢◌, ◌⊎◌, inl, inr, refl, false, Option, none, some, List, [], ◌∷◌, String,
}
use nexus_dispatch.Redis.{Redis}
use nexus_dispatch.Outcome.{Error, Outcome, ok, err, panic}
use nexus_dispatch.Geospatial.{Geodesy}
use nexus_dispatch.Hot.Store.Search.{DriverPos, search_nearby}
use nexus_dispatch.Reservation.{Manager}
use nexus_dispatch.Dispatch.{
  Config, RideRequested, Result, all_conflicts, Surroundings, Attempts, won, lost, crashed,
  conclude, assign, dispatch_for_ride, search_radius, Stamp, new_id,
}
use nexus_dispatch.Dispatch.Handler.{handle_ride_requested}

-- The code of a result, and whether the call fails.
abbrev pub Agrees : Outcome Result → Type 0
Agrees (ok r) =
    ((r.result_code ≡ all_conflicts) × (r.success ≡ false) × (r.failure ≢ none))
    ⊎ ((r.result_code ≢ all_conflicts) × (r.failure ≡ none))
Agrees (err e) = ⊥
Agrees panic = Unit

-- What the handler answers: no error for a result whose code is not all_conflicts (so an unreachable
-- Redis and a search without candidates are not tried again), an error for one whose code is.
abbrev pub Retries : Outcome Result → Outcome (Option Error) → Type 0
Retries (ok r) (ok none) = r.result_code ≢ all_conflicts
Retries (ok r) (ok (some e)) = (r.result_code ≡ all_conflicts) × (r.success ≡ false)
Retries panic panic = Unit
Retries _ _ = ⊥

module _ (R : Redis) (world : Surroundings) (G : Geodesy) (cfg : Config) where
  conclude-Agrees :
      (ev : RideRequested) (id : String) (cells total : ℕ) (a : Attempts)
      → Agrees (conclude R world ev id cells total a)
  unfolding conclude
  conclude-Agrees ev id cells total (won c r) = inr ((λ e. cc), refl)
  conclude-Agrees ev id cells total (lost (some x)) = inl (refl, refl, λ e. cc)
  conclude-Agrees ev id cells total (lost none) = inl (refl, refl, λ e. cc)
  conclude-Agrees ev id cells total crashed = tt

  assign-Agrees :
      (now : ℕ) (ev : RideRequested) (id : String) (found : Outcome (List DriverPos × ℕ))
      (m : Manager) (db : R.Db)
      → Agrees (assign R world G cfg now ev id found m db).1
  unfolding assign
  assign-Agrees now ev id (err e) m db = inr ((λ e. cc), refl)
  assign-Agrees now ev id panic m db = tt
  assign-Agrees now ev id (ok ([], cells)) m db = inr ((λ e. cc), refl)
  assign-Agrees now ev id (ok (d ∷ ds, cells)) m db = conclude-Agrees ev id cells _ _

  some-ne-none : {e : Error} → some e ≡ none → ⊥
  some-ne-none p = cc

  answer : Outcome Result → Outcome (Option Error)
  answer o = elim o [ ok r ↦ ok r.failure | err e ↦ ok (some e) | panic ↦ panic ]

  answer-Retries : (o : Outcome Result) → Agrees o → Retries o (answer o)
  unfolding answer
  answer-Retries (ok r) h = by_failure r.failure h
    where
      by_failure :
          (f : Option Error)
          → ((r.result_code ≡ all_conflicts) × (r.success ≡ false) × (f ≢ none))
            ⊎ ((r.result_code ≢ all_conflicts) × (f ≡ none))
          → Retries (ok r) (ok f)
      by_failure none (inl (a, b, c)) = elim (c refl) [ ]
      by_failure none (inr (a, b)) = a
      by_failure (some e) (inl (a, b, c)) = (a, b)
      by_failure (some e) (inr (a, b)) = elim (some-ne-none b) [ ]
  answer-Retries (err e) h = elim h [ ]
  answer-Retries panic h = tt

  -- A ride request that can be decoded is tried again exactly where its dispatch ends with
  -- all_conflicts.
  pub handle_ride_requested-Retries :
      (decode : String → Option RideRequested) (now : ℕ) (id : Stamp) (value : String)
      (ev : RideRequested) (m : Manager) (db : R.Db)
      → decode value ≡ some ev
      → Retries
          (dispatch_for_ride R world G cfg now ev id m db).1
          (handle_ride_requested R world G cfg decode now id value m db).1
  unfolding handle_ride_requested dispatch_for_ride answer
  handle_ride_requested-Retries decode now id value ev m db h =
      rw (handle_ride_requested, h)
        (answer-Retries (dispatch_for_ride R world G cfg now ev id m db).1
          (assign-Agrees now ev (new_id "disp" id) _ m db))

  -- Where the search for a ride request fails, nothing changes, and the request is done with: the
  -- handler reports no error.
  pub handle_ride_requested-unreachable :
      (decode : String → Option RideRequested) (now : ℕ) (id : Stamp) (value : String)
      (ev : RideRequested) (m : Manager) (db : R.Db) (e : Error)
      → decode value ≡ some ev
      → search_nearby R G world.search ev.pickup_lat ev.pickup_lng
          (search_radius R world G cfg ev)
          db
        ≡ err e
      → handle_ride_requested R world G cfg decode now id value m db ≡ ((m, db), ok none)
  unfolding handle_ride_requested dispatch_for_ride assign
  handle_ride_requested-unreachable decode now id value ev m db e h f =
      rw (handle_ride_requested, h, f) refl
