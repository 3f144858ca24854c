-- ===== src/Location/Counts.antt =====
-- What is answered and what is sent for the updates (internal/location/service.go).
use nexus_dispatch.Prelude.{
  ℕ, suc, ◌+◌, ◌≡◌, ◌≢◌, ◌⊎◌, inl, inr, refl, Bool, true, false, Option, none, some, List, [], ◌∷◌,
  String, length, arith, ◌==◌, Bool-cases, if◌then◌else◌,
}
use nexus_dispatch.Redis.{Float, Redis}
use nexus_dispatch.Outcome.{Outcome, ok, err, panic, Link, call}
use nexus_dispatch.Geospatial.{Geodesy, validate_lat_lng, cell_key}
use nexus_dispatch.Grpc.{Reply, reply, status, crash, internal}
use nexus_dispatch.Hot.Store
use nexus_dispatch.Location.{
  LocationRequest, LocationResponse, LocationUpdate, Service, apply, publish, stamp, rejected,
  update_location, count_batch, batch_update_location,
}

-- There is an answer, and its counts add up to n.
abbrev pub AddsUp : ℕ → Reply (ℕ × ℕ) → Type 0
AddsUp n (reply (a, b)) = a + b ≡ n
AddsUp n _ = ⊥

module _ (R : Redis) (G : Geodesy) where
  apply_location-ne-panic :
      (l₁ l₂ : Link) (id : String) (lat lng : Float) (seq ts : ℕ) (db : R.Db)
      → (Store.apply_location R G l₁ l₂ id lat lng seq ts db).1 ≢ panic
  unfolding Store.apply_location call cell_key
  apply_location-ne-panic l₁ l₂ id lat lng seq ts db e = ground arith

  apply-ne-crash :
      (l₁ l₂ : Link) (now : ℕ) (req : LocationRequest) (single : Bool) (s : Service R)
      → (apply R G l₁ l₂ now req single s).1 ≢ crash
  unfolding apply publish
  apply-ne-crash l₁ l₂ now req single s e = ground (
    arith,
    apply_location-ne-panic l₁ l₂ req.driver_id req.lat req.lng (stamp R G req.sequence s.seqs).0
        now s.hot,
  )

  -- What the loop makes of the answer for one update.
  abbrev tally :
      Reply LocationResponse
      → Service R
      → (more fewer : Service R × Reply (ℕ × ℕ)) → Service R × Reply (ℕ × ℕ)
  tally o s' more fewer = elim o [
    | reply r ↦ if r.accepted then more else fewer
    | status c ↦ fewer
    | crash ↦ (s', crash)
  ]

  tally-AddsUp :
      (n : ℕ) (o : Reply LocationResponse) (s' : Service R) (more fewer : Service R × Reply (ℕ × ℕ))
      → o ≢ crash
      → AddsUp n more.1
      → AddsUp n fewer.1
      → AddsUp n (tally o s' more fewer).1
  tally-AddsUp n (reply r) s' more fewer ne h k = elim (Bool-cases r.accepted) [
    | inl e ↦ rw e h
    | inr e ↦ rw e k
  ]
  tally-AddsUp n (status c) s' more fewer ne h k = k
  tally-AddsUp n crash s' more fewer ne h k = elim (ne refl) [ ]

  count_batch-AddsUp :
      (now : ℕ) (us : List (Link × Link × LocationRequest)) (a b n : ℕ) (s : Service R)
      → a + b + length us ≡ n
      → AddsUp n (count_batch R G now us (a, b) s).1
  unfolding count_batch
  count_batch-AddsUp now [] a b n s e = omega (arith, e)
  count_batch-AddsUp now ((l₁, l₂, req) ∷ us) a b n s e =
      let (s', o) = apply R G l₁ l₂ now req false s in
      tally-AddsUp n o s' _ _ (apply-ne-crash l₁ l₂ now req false s)
        (count_batch-AddsUp now us (suc a) b n s' (omega (arith, e)))
        (count_batch-AddsUp now us a (suc b) n s' (omega (arith, e)))

  -- A batch is always answered, whatever becomes of the commands, and each of its updates is counted
  -- once, as accepted or as rejected.
  pub batch_update_location-AddsUp :
      (now : ℕ) (us : List (Link × Link × LocationRequest)) (s : Service R)
      → AddsUp (length us) (batch_update_location R G now us s).1
  unfolding batch_update_location
  batch_update_location-AddsUp now us s = count_batch-AddsUp now us 0 0 (length us) s (omega arith)

  -- The event for an update that was answered so.
  abbrev pub event_of : LocationRequest → LocationResponse → LocationUpdate
  event_of req r = record {
    driver_id = req.driver_id;
    latitude = req.lat;
    longitude = req.lng;
    sequence = r.server_sequence;
    h3_cell = r.h3_cell;
  }

  -- An accepted answer: the event goes out where there is a producer, and the store has applied the
  -- update. Any other answer: no event goes out.
  abbrev pub Tells :
      LocationRequest → Outcome Bool → Service R → Service R → Reply LocationResponse → Type 0
  Tells req stored s s' (reply r) =
      ((r.accepted ≡ true)
        × (stored ≡ ok true)
        × (s'.sent ≡ (if s.has_producer then event_of req r ∷ s.sent else s.sent)))
      ⊎ ((r.accepted ≡ false) × (s'.sent ≡ s.sent))
  Tells req stored s s' (status c) = s'.sent ≡ s.sent
  Tells req stored s s' crash = ⊥

  publish-Tells :
      (req : LocationRequest) (seq : ℕ) (stored : Outcome Bool) (s : Service R)
      → stored ≡ ok true
      → Tells req stored s (publish R G req seq s).0 (publish R G req seq s).1
  unfolding publish
  publish-Tells req seq stored s e =
      inl (refl, e, elim (Bool-cases s.has_producer) [ inl f ↦ rw f refl | inr f ↦ rw f refl ])

  -- What `apply` makes of the store's answer.
  abbrev settle :
      LocationRequest → ℕ → Bool → Outcome Bool → Service R → Service R × Reply LocationResponse
  settle req seq single o after = elim o [
    | ok applied ↦
        if applied
        then publish R G req seq after
        else (after, reply (rejected "stale_sequence" seq))
    | err e ↦ (after, if single then status internal else reply (rejected "redis_error" 0))
    | panic ↦ (after, crash)
  ]

  settle-Tells :
      (req : LocationRequest) (seq : ℕ) (single : Bool) (o : Outcome Bool) (s : Service R)
      (hot : R.Db) (seqs : ℕ)
      → o ≢ panic
      → let r = settle req seq single o (record s { hot = hot; seqs = seqs }) in
        Tells req o s r.0 r.1
  settle-Tells req seq single (ok true) s hot seqs ne =
      publish-Tells req seq (ok true) (record s { hot = hot; seqs = seqs }) refl
  settle-Tells req seq single (ok false) s hot seqs ne = inr (refl, refl)
  settle-Tells req seq true (err e) s hot seqs ne = refl
  settle-Tells req seq false (err e) s hot seqs ne = inr (refl, refl)
  settle-Tells req seq single panic s hot seqs ne = elim (ne refl) [ ]

  -- What the store answers for an update.
  abbrev pub stored_for : Link → Link → ℕ → LocationRequest → Service R → R.Db × Outcome Bool
  stored_for l₁ l₂ now req s =
      Store.apply_location R G l₁ l₂ req.driver_id req.lat req.lng (stamp R G req.sequence s.seqs).0
        now s.hot

  -- An update is answered as accepted only if the store has applied it, and then it is published
  -- with the number and the cell of the answer, if there is a producer. No other update is
  -- published.
  pub apply-Tells :
      (l₁ l₂ : Link) (now : ℕ) (req : LocationRequest) (single : Bool) (s : Service R)
      → let (s', res) = apply R G l₁ l₂ now req single s in
        Tells req (stored_for l₁ l₂ now req s).1 s s' res
  unfolding apply
  apply-Tells l₁ l₂ now req single s = elim (Bool-cases (req.driver_id == "")) [
    | inl e ↦ rw e refl
    | inr e ↦ rw e (elim (Bool-cases (validate_lat_lng req.lat req.lng)) [
      | inr f ↦ rw f (inr (refl, refl))
      | inl f ↦ rw f (
          settle-Tells req (stamp R G req.sequence s.seqs).0 single (stored_for l₁ l₂ now req s).1 s
            (stored_for l₁ l₂ now req s).0 (stamp R G req.sequence s.seqs).1
            (apply_location-ne-panic l₁ l₂ req.driver_id req.lat req.lng
              (stamp R G req.sequence s.seqs).0 now s.hot))
    ])
  ]

  dropped :
      (o : Reply LocationResponse)
      → o ≢ crash
      → (r : Option LocationResponse) × (elim o as (λ _. Reply (Option LocationResponse)) [
        | reply r ↦ reply (some r)
        | status c ↦ reply none
        | crash ↦ crash
      ]
          ≡ reply r)
  dropped (reply r) ne = (some r, refl)
  dropped (status c) ne = (none, refl)
  dropped crash ne = elim (ne refl) [ ]

  -- `UpdateLocation` always answers with a reply and never with an error status, also where the
  -- driver id is missing or Redis cannot be reached; the reply may then hold no response.
  pub update_location-replies :
      (l₁ l₂ : Link) (now : ℕ) (req : LocationRequest) (s : Service R)
      → (r : Option LocationResponse) × ((update_location R G l₁ l₂ now req s).1 ≡ reply r)
  unfolding update_location
  update_location-replies l₁ l₂ now req s =
      dropped (apply R G l₁ l₂ now req true s).1 (apply-ne-crash l₁ l₂ now req true s)
