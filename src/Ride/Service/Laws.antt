-- ===== src/Ride/Service/Laws.antt =====
-- What the methods of internal/ride/service.go do to a ride's hash, and that both ways into the
-- dispatch engine see the same request.
use nexus_dispatch.Prelude.{
  ℕ, eqb, ◌*◌, ◌<◌, ◌≡◌, ◌⊎◌, inl, inr, refl, ap, ◌∙◌, Bool, true, false, Option, some, List, [],
  ◌∷◌, String, string_dec, arith, if◌then◌else◌, Bool-cases,
}
use nexus_dispatch.Prelude.Int.{ℤ, pos, negsuc, ltb_ℤ}
use nexus_dispatch.Redis.{
  Datum, text, Fields, Value, absent, hash, put_field, field, Redis, IsRedis,
}
use nexus_dispatch.Outcome.{Outcome, ok, err, panic, Link, up, call, ask}
use nexus_dispatch.Geospatial.{Geodesy}
use nexus_dispatch.Grpc.{reply, status, failed_precondition}
use nexus_dispatch.Hot.Keys.{ride_key}
use nexus_dispatch.Hot.Store.{as_text, hset_all, set_ride, hgetall}
use nexus_dispatch.Hot.Store
use nexus_dispatch.Reservation.{Manager}
use nexus_dispatch.Dispatch.{
  Config, Result, Stamp, Surroundings, dispatch_for_ride, dispatch_by_ride_id, whole_metres,
}
use nexus_dispatch.Ride.State.{can_transition, state_to_proto}
use nexus_dispatch.Ride.Service.{
  CreateRideRequest, Service, Clocks, is_invalid, ride_fields, ride_from_hot, radius_or_default,
  new_ride, requested_event, create_ride, get_ride, cancel_ride, write_cancel, RideRow, no_float,
  cancelled_ride,
}

put_all : List (String × Datum) → Value → Value
put_all [] v = v
put_all ((f, d) ∷ fs) v = put_all fs (put_field f d v)

-- The states that a ride can be cancelled in.
abbrev pub Cancellable : String → Type 0
Cancellable s =
    (s ≡ "CANCELLED")
    ⊎ (s ≡ "REQUESTED")
    ⊎ (s ≡ "MATCHED")
    ⊎ (s ≡ "DRIVER_EN_ROUTE")
    ⊎ (s ≡ "ARRIVED")

can_cancel : (from : String) → can_transition from "CANCELLED" ≡ true → Cancellable from
unfolding can_transition string_dec
can_cancel from h = ground arith

accepted : (from : String) → Cancellable from → can_transition from "CANCELLED" ≡ true
unfolding can_transition string_dec
accepted from (inl e) = rw e refl
accepted from (inr (inl e)) = rw e refl
accepted from (inr (inr (inl e))) = rw e refl
accepted from (inr (inr (inr (inl e)))) = rw e refl
accepted from (inr (inr (inr (inr e)))) = rw e refl

cannot : (from : String) → Cancellable from → can_transition from "CANCELLED" ≡ false → ⊥
cannot from h e = clash (accepted from h) e
  where
    clash : {b : Bool} → b ≡ true → b ≡ false → ⊥
    clash p q = cc

module _ (R : Redis) (L : IsRedis R) where
  read-hset_all :
      (k : String) (fs : List (String × Datum)) (db : R.Db)
      → R.read (hset_all R k fs db) k ≡ put_all fs (R.read db k)
  unfolding hset_all put_all
  read-hset_all k [] db = refl
  read-hset_all k ((f, d) ∷ fs) db =
      read-hset_all k fs (R.hset k f d db)
      ∙ ap (put_all fs) (ground (arith, L.read-hset k k f d db))

  -- The state that the hash of a ride has.
  abbrev pub ride_state : String → R.Db → String
  ride_state id db = as_text (field (R.read db (ride_key id)) "state")

  cancel_fields : String → List (String × Datum)
  cancel_fields reason = ("state", text "CANCELLED") ∷ ("cancel_reason", text reason) ∷ []

  write_cancel-hot :
      (id reason : String) (s : Service R)
      → (write_cancel R up id reason s).hot ≡ hset_all R (ride_key id) (cancel_fields reason) s.hot
  unfolding write_cancel call hset_all cancel_fields
  write_cancel-hot id reason s = elim (Bool-cases s.has_db) [
    | inl e ↦ rw e refl
    | inr e ↦ rw e refl
  ]

  write_cancel-state :
      (id reason : String) (s : Service R) (m : Fields)
      → R.read s.hot (ride_key id) ≡ hash m
      → ride_state id (write_cancel R up id reason s).hot ≡ "CANCELLED"
  unfolding put_all cancel_fields string_dec
  write_cancel-state id reason s m h =
      rw (write_cancel-hot id reason s, read-hset_all (ride_key id) (cancel_fields reason) s.hot, h)
        refl

  -- The rows of a cancellation that is answered.
  cancel-found :
      (l : Link) (id reason : String) (s : Service R) (m : Fields)
      → R.read s.hot (ride_key id) ≡ hash m
      → cancel_ride R up l id reason s ≡ (
          if can_transition (as_text (m "state")) "CANCELLED"
          then (write_cancel R l id reason s, reply (cancelled_ride R id))
          else (s, status failed_precondition))
  unfolding cancel_ride Store.get_ride ask hgetall
  cancel-found l id reason s m h = rw (cancel_ride, h) refl

  -- A cancellation of a ride in the hot state, where Redis answers: if the ride was REQUESTED,
  -- MATCHED, DRIVER_EN_ROUTE, ARRIVED or CANCELLED already it is CANCELLED and the answer is a ride,
  -- and if it was in none of these states nothing changes and the answer is FailedPrecondition.
  pub cancel_ride-cases :
      (id reason : String) (s : Service R) (m : Fields)
      → R.read s.hot (ride_key id) ≡ hash m
      → let from = ride_state id s.hot in
        let r = cancel_ride R up up id reason s in
        ((Cancellable from
            × (ride_state id r.0.hot ≡ "CANCELLED")
            × (r.1 ≡ reply (cancelled_ride R id)))
          ⊎ (¬ Cancellable from × (r ≡ (s, status failed_precondition))))
  cancel_ride-cases id reason s m h =
      rw (cancel-found up id reason s m h)
        (elim (Bool-cases (can_transition (as_text (m "state")) "CANCELLED")) [
          | inl e ↦
              rw (h, e)
                (inl (can_cancel (as_text (m "state")) e, write_cancel-state id reason s m h, refl))
          | inr e ↦ rw (h, e) (inr ((λ c. cannot (as_text (m "state")) c e), refl))
        ])

radius-positive : (r : ℤ) → 0 < radius_or_default r
radius-positive (pos n) = ground arith
radius-positive (negsuc n) = ground arith

-- A positive number of whole metres comes back from its millionths.
whole_metres-back :
    (R : Redis) (world : Surroundings) (G : Geodesy) (cfg : Config) (n : ℕ)
    → 0 < n
    → let given = pos (n * 1000000) in
      whole_metres R world G cfg (if ltb_ℤ (pos 0) given then given else cfg.default_radius) ≡ pos n
whole_metres-back R world G cfg n p = ground arith

module _ (R : Redis) (L : IsRedis R) where
  set_ride-hash :
      (id : String) (fs : List (String × Datum)) (ttl : ℕ) (db : R.Db)
      → eqb ttl 0 ≡ false
      → R.read (set_ride R up id fs ttl db).0 (ride_key id) ≡ put_all fs (R.read db (ride_key id))
  unfolding set_ride call
  set_ride-hash id fs ttl db lives =
      rw (L.read-expire (ride_key id) (ride_key id) ttl (hset_all R (ride_key id) fs db), lives)
        refl
      ∙ read-hset_all R L (ride_key id) fs db

  create_ride-hot :
      (t : Clocks) (id : String) (req : CreateRideRequest) (s : Service R)
      → is_invalid req ≡ false
      → (create_ride R up t id req s).0.hot
        ≡ (set_ride R up id (ride_fields id req t.created) (30 * 60 * 1000) s.hot).0
  unfolding create_ride
  create_ride-hot t id req s e = elim (Bool-cases s.has_db) [
    | inl f ↦ elim (Bool-cases s.has_producer) [
      | inl g ↦ rw (e, f, g) refl
      | inr g ↦ rw (e, f, g) refl
    ]
    | inr f ↦ elim (Bool-cases s.has_producer) [
      | inl g ↦ rw (e, f, g) refl
      | inr g ↦ rw (e, f, g) refl
    ]
  ]

  -- The answer of `DispatchByRideID` for a ride that was found.
  abbrev pub by_id : (Manager × R.Db) × Outcome Result → (Manager × R.Db) × Outcome (Option Result)
  by_id (after, res) = (after, elim res [ ok r ↦ ok (some r) | err e ↦ err e | panic ↦ panic ])

  create_ride-hash :
      (t : Clocks) (id : String) (req : CreateRideRequest) (s : Service R)
      → is_invalid req ≡ false
      → R.read s.hot (ride_key id) ≡ absent
      → R.read (create_ride R up t id req s).0.hot (ride_key id)
        ≡ put_all (ride_fields id req t.created) absent
  create_ride-hash t id req s e h =
      rw
        (
          create_ride-hot t id req s e,
          set_ride-hash id (ride_fields id req t.created) (30 * 60 * 1000) s.hot refl,
          h,
        )
        refl

  new_hash : String → CreateRideRequest → ℕ → Fields
  unfolding put_all
  new_hash id req now = field (put_all (ride_fields id req now) absent)

  find-new :
      (t : Clocks) (id : String) (req : CreateRideRequest) (s : Service R)
      → is_invalid req ≡ false
      → R.read s.hot (ride_key id) ≡ absent
      → Store.get_ride R up id (create_ride R up t id req s).0.hot
        ≡ ok (some (new_hash id req t.created))
  unfolding Store.get_ride ask hgetall put_all new_hash
  find-new t id req s e h = rw (create_ride-hash t id req s e h) refl

  read_back :
      (id : String) (req : CreateRideRequest) (now : ℕ)
      → ride_from_hot (new_hash id req now)
        ≡ record (new_ride R id req now) { dropoff_lat = no_float; dropoff_lng = no_float }
  unfolding ride_from_hot new_hash put_all string_dec state_to_proto
  read_back id req now = refl

  got_hot :
      (row : String → Outcome (Option RideRow)) (id : String) (s : Service R) (m : Fields)
      → Store.get_ride R up id s.hot ≡ ok (some m)
      → get_ride R up row id s ≡ reply (ride_from_hot m)
  unfolding get_ride
  got_hot row id s m e = rw (get_ride, e) refl

  -- Where Redis answers, a request that is accepted under a new id is answered with the new ride,
  -- and `GetRide` reads it back without its drop-off.
  pub create_ride-get_ride :
      (t : Clocks) (id : String) (req : CreateRideRequest) (s : Service R)
      (row : String → Outcome (Option RideRow))
      → is_invalid req ≡ false
      → R.read s.hot (ride_key id) ≡ absent
      → let (s', answer) = create_ride R up t id req s in
        (answer ≡ reply (new_ride R id req t.answered))
        × (get_ride R up row id s'
            ≡ reply (record (new_ride R id req t.created) {
              dropoff_lat = no_float;
              dropoff_lng = no_float;
            }))
  unfolding create_ride
  create_ride-get_ride t id req s row e h = (
    rw e refl,
    got (create_ride R up t id req s).0 (find-new t id req s e h)
        ∙ ap reply (read_back id req t.created),
  )
    where
      got :
          (s' : Service R)
          → Store.get_ride R up id s'.hot ≡ ok (some (new_hash id req t.created))
          → get_ride R up row id s' ≡ reply (ride_from_hot (new_hash id req t.created))
      got s' f = got_hot row id s' (new_hash id req t.created) f

  -- Both ways into the engine see the same request but for its time: where Redis answers, a dispatch
  -- by the id of a ride that was just created (an accepted request under a new id) is the dispatch
  -- for the event that its creation publishes, with the time of the event replaced by the one that
  -- was read for the hash.
  pub create_ride-dispatch_by_ride_id :
      (world : Surroundings) (G : Geodesy) (cfg : Config) (t : Clocks) (now : ℕ) (id : String)
      (dispatch : Stamp) (req : CreateRideRequest) (s : Service R) (m : Manager)
      → is_invalid req ≡ false
      → R.read s.hot (ride_key id) ≡ absent
      → let hot' = (create_ride R up t id req s).0.hot in
        dispatch_by_ride_id R world G cfg up now id dispatch m hot'
        ≡ by_id (
            dispatch_for_ride R world G cfg now
              (record (requested_event R id req t.published) { timestamp = t.created })
              dispatch
              m
              hot')
  unfolding dispatch_by_ride_id new_hash put_all string_dec
  create_ride-dispatch_by_ride_id world G cfg t now id dispatch req s m e h =
      rw (dispatch_by_ride_id, find-new t id req s e h)
        (ap
          (λ x. by_id (
            dispatch_for_ride R world G cfg now
              (record (requested_event R id req t.created) { radius = x }) dispatch m
              (create_ride R up t id req s).0.hot))
          (whole_metres-back R world G cfg (radius_or_default req.radius)
            (radius-positive req.radius)))
