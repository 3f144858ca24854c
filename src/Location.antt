-- ===== src/Location.antt =====
-- internal/location/service.go: positions come in, are written to Redis behind the sequence guard, and
-- go out as events. A method returns the service as it leaves it. Two links go with an update: of the
-- read of the old cell and of the script. Fewer than 2 ^ 31 updates make a batch.
pub mod Counts
use nexus_dispatch.Prelude.{
  ℕ, suc, ◌+◌, ◌%◌, ◌^◌, Bool, true, false, not, Option, none, some, List, [], ◌∷◌, String, ◌==◌,
  if◌then◌else◌,
}
use nexus_dispatch.Prelude.Int.{ℤ, pos, pos_part, ltb_ℤ}
use nexus_dispatch.Redis.{Float, Redis}
use nexus_dispatch.Outcome.{Outcome, ok, err, panic, Link}
use nexus_dispatch.Geospatial.{Geodesy, validate_lat_lng, cell_key, default_resolution}
use nexus_dispatch.Grpc.{Reply, reply, status, crash, invalid_argument, internal}
use nexus_dispatch.Hot.Store

-- nexusv1.UpdateLocationRequest and its response
pub record LocationRequest : Type 0 where
  pub driver_id : String
  pub lat : Float
  pub lng : Float
  pub sequence : ℤ

pub record LocationResponse : Type 0 where
  pub accepted : Bool
  pub reject_reason : String
  pub server_sequence : ℕ
  pub h3_cell : String

-- `events.LocationUpdate`, without its envelope.
pub record LocationUpdate : Type 0 where
  pub driver_id : String
  pub latitude : Float
  pub longitude : Float
  pub sequence : ℕ
  pub h3_cell : String

pub record Service (R : Redis) : Type 0 where
  pub hot : R.Db
  pub seqs : ℕ  -- uint64
  pub has_producer : Bool
  pub sent : List LocationUpdate  -- the latest first

abbrev pub rejected : String → ℕ → LocationResponse
rejected reason seq = record {
  accepted = false;
  reject_reason = reason;
  server_sequence = seq;
  h3_cell = "";
}

-- `seqs.Add(1)`
abbrev pub next_seq : ℕ → ℕ
next_seq n = (n + 1) % 2 ^ 64

module _ (R : Redis) (G : Geodesy) where
  -- The number of an update, and the counter behind it: the server's number where the client has none.
  unfoldable pub stamp : ℤ → ℕ → ℕ × ℕ
  stamp seq seqs =
      if ltb_ℤ (pos 0) seq then (pos_part seq, seqs) else (next_seq seqs, next_seq seqs)

  -- The part of `apply` behind the write.
  unfoldable pub publish : LocationRequest → ℕ → Service R → Service R × Reply LocationResponse
  publish req seq s =
      let cell = Store.or_zero "" (cell_key G req.lat req.lng default_resolution) in
      let update : LocationUpdate = record {
        driver_id = req.driver_id;
        latitude = req.lat;
        longitude = req.lng;
        sequence = seq;
        h3_cell = cell;
      } in
      (
        if s.has_producer then record s { sent = update ∷ s.sent } else s,
        reply
            (record { accepted = true; reject_reason = ""; server_sequence = seq; h3_cell = cell }),
      )

  -- `apply`
  unfoldable pub apply :
      Link → Link → ℕ → LocationRequest → Bool → Service R → Service R × Reply LocationResponse
  apply l₁ l₂ now req single s =
      if req.driver_id == ""
      then (s, status invalid_argument)
      else if not (validate_lat_lng req.lat req.lng)
      then (s, reply (rejected "invalid_coords" 0))
      else let (seq, seqs') = stamp req.sequence s.seqs in
        let (hot', res) =
          Store.apply_location R G l₁ l₂ req.driver_id req.lat req.lng seq now s.hot in
        let s' : Service R = record s { hot = hot'; seqs = seqs' } in
        elim res [
          | ok applied ↦
              if applied then publish req seq s' else (s', reply (rejected "stale_sequence" seq))
          | err e ↦ (s', if single then status internal else reply (rejected "redis_error" 0))
          | panic ↦ (s', crash)
        ]

  -- `UpdateLocation`: the error is dropped, and then there is no response either.
  unfoldable pub update_location :
      Link → Link → ℕ → LocationRequest → Service R → Service R × Reply (Option LocationResponse)
  update_location l₁ l₂ now req s =
      let (s', res) = apply l₁ l₂ now req true s in
      (s', elim res [ reply r ↦ reply (some r) | status c ↦ reply none | crash ↦ crash ])

  -- The loop of `BatchUpdateLocation`: the updates that were accepted, and those that were not.
  unfoldable pub count_batch :
      ℕ → List (Link × Link × LocationRequest) → ℕ × ℕ → Service R → Service R × Reply (ℕ × ℕ)
  count_batch now [] c s = (s, reply c)
  count_batch now ((l₁, l₂, req) ∷ us) (yes_so_far, no_so_far) s =
      let (s', res) = apply l₁ l₂ now req false s in
      let more = count_batch now us (suc yes_so_far, no_so_far) s' in
      let fewer = count_batch now us (yes_so_far, suc no_so_far) s' in
      elim res [
        | reply r ↦ if r.accepted then more else fewer
        | status c ↦ fewer
        | crash ↦ (s', crash)
      ]

  -- `BatchUpdateLocation`
  unfoldable pub batch_update_location :
      ℕ → List (Link × Link × LocationRequest) → Service R → Service R × Reply (ℕ × ℕ)
  unfolding count_batch
  batch_update_location now us s = count_batch now us (0, 0) s
