-- ===== src/Dispatch/Handler.antt =====
-- internal/dispatchsvc/service.go: the engine behind gRPC, and as the handler of ride requests. The
-- JSON decoder is a parameter. Metrics are left out.
pub mod Retry
use nexus_dispatch.Prelude.{
  ℕ, Bool, true, false, Option, none, some, List, String, length, if◌then◌else◌,
}
use nexus_dispatch.Prelude.Int.{ℤ, pos, ◌*ℤ◌, ltb_ℤ}
use nexus_dispatch.Redis.{Float, Redis}
use nexus_dispatch.Outcome.{Error, Outcome, ok, err, panic, Link}
use nexus_dispatch.Geospatial.{Geodesy}
use nexus_dispatch.Grpc.{Reply, reply, status, crash, internal}
use nexus_dispatch.Reservation.{Manager}
use nexus_dispatch.Dispatch.{
  Config, Candidate, RideRequested, Stamp, Result, ResultCode, Surroundings, find_candidates,
  dispatch_for_ride, dispatch_by_ride_id,
}

-- nexusv1.FindCandidatesResponse
pub record Found : Type 0 where
  pub candidates : List Candidate
  pub cells_searched : ℕ
  pub candidates_considered : ℕ

-- nexusv1.DispatchForRideResponse
pub record Answer : Type 0 where
  pub driver_id : String
  pub dispatch_id : String
  pub success : Bool
  pub result_code : ResultCode

-- The whole metres of a request, in millionths, and its limit: 1000 m and 20 where it gives none.
abbrev pub radius_of : ℤ → ℤ
radius_of r = if ltb_ℤ (pos 0) r then r *ℤ pos 1000000 else pos 1000000000

abbrev pub limit_of : ℤ → ℤ
limit_of n = if ltb_ℤ (pos 0) n then n else pos 20

module _ (R : Redis) (world : Surroundings) (G : Geodesy) (cfg : Config) where
  -- `FindCandidates`
  unfoldable pub find_for : Float → Float → ℤ → ℤ → R.Db → Reply Found
  find_for lat lng radius max db =
      elim (find_candidates R world G cfg lat lng (radius_of radius) (limit_of max) db) [
        | ok found ↦ reply (record {
          candidates = found.0;
          cells_searched = found.1;
          candidates_considered = length found.0;
        })
        | err e ↦ status internal
        | panic ↦ crash
      ]

  abbrev answer_of : Result → Reply Answer
  answer_of r = elim r.failure [
    | none ↦ reply (record {
      driver_id = r.driver_id;
      dispatch_id = r.dispatch_id;
      success = r.success;
      result_code = r.result_code;
    })
    | some e ↦ status internal
  ]

  -- `DispatchForRide` and `runDispatch`
  unfoldable pub run_dispatch :
      Link → ℕ → String → Stamp → Manager → R.Db → (Manager × R.Db) × Reply Answer
  run_dispatch l now ride id m db =
      let (after, res) = dispatch_by_ride_id R world G cfg l now ride id m db in
      (
        after,
        elim res [
          | ok (some r) ↦ answer_of r
          | ok none ↦ status internal
          | err e ↦ status internal
          | panic ↦ crash
        ],
      )

  -- `HandleRideRequested`: the error that makes the consumer try again, if there is one. A message that
  -- cannot be decoded is dropped.
  unfoldable pub handle_ride_requested :
      (String → Option RideRequested)
      → ℕ
      → Stamp
      → String
      → Manager
      → R.Db
      → (Manager × R.Db) × Outcome (Option Error)
  handle_ride_requested decode now id value m db = elim (decode value) [
    | none ↦ ((m, db), ok none)
    | some ev ↦
        let (after, res) = dispatch_for_ride R world G cfg now ev id m db in
        (after, elim res [ ok r ↦ ok r.failure | err e ↦ ok (some e) | panic ↦ panic ])
  ]
