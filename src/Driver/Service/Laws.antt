-- ===== src/Driver/Service/Laws.antt =====
-- What the methods of the driver service guarantee (internal/driver/service.go).
use nexus_dispatch.Prelude.{ℕ, ◌≡◌, ◌≢◌, ◌⊎◌, refl, true, some, String, string_dec, ==-refl, arith}
use nexus_dispatch.Redis.{text, field, Redis, IsRedis}
use nexus_dispatch.Outcome.{ok, Link, up, down, cut, call, ask}
use nexus_dispatch.Grpc.{Code, reply, status, invalid_argument}
use nexus_dispatch.Hot.Keys.{driver_key}
use nexus_dispatch.Hot.Store.{get_state, set_state, as_text, or_zero}
use nexus_dispatch.Hot.Store
use nexus_dispatch.Hot.LeaseValue.{LeaseValue, lease_string}
use nexus_dispatch.Hot.Slot.{Represents}
use nexus_dispatch.Hot.Slot.Refines.{hset-Represents}
use nexus_dispatch.Hot.Slot.Exclusive.{slot, reserve-leased}
use nexus_dispatch.Driver.State.{assert_transition, validate_state, state_reserved}
use nexus_dispatch.Driver.State.Edges.{Edge, can_transition_iff}
use nexus_dispatch.Driver.Service.{
  DriverState, Service, state_to_proto, proto_to_state, update_driver_status, change_state,
  release_driver,
}

-- Every state of the protocol is one that the machine knows.
validate_state-proto_to_state : (w : DriverState) → validate_state (proto_to_state w) ≡ true
unfolding validate_state proto_to_state string_dec
validate_state-proto_to_state DriverState.offline = refl
validate_state-proto_to_state _ = refl

module _ (R : Redis) where
  pub hot_state : String → R.Db → String
  hot_state id db = as_text (field (R.read db (driver_key id)) "state")

  change_state-reply :
      (l : Link) (now : ℕ) (id : String) (w : DriverState) (from to : String) (s s' : Service R)
      (r : DriverState × DriverState)
      → change_state R l now id w from to s ≡ (s', reply r)
      → (s'.hot ≡ R.hset (driver_key id) "state" (text to) s.hot)
        × (r ≡ (state_to_proto from, state_to_proto to))
  unfolding change_state set_state call
  change_state-reply up now id w from to s s' r h = ground arith
  change_state-reply down now id w from to s s' r h = ground arith
  change_state-reply cut now id w from to s s' r h = ground arith

  change_state-status :
      (l : Link) (now : ℕ) (id : String) (w : DriverState) (from to : String) (s s' : Service R)
      (c : Code)
      → l ≢ cut
      → change_state R l now id w from to s ≡ (s', status c)
      → (s' ≡ s) × (c ≢ invalid_argument)
  unfolding change_state set_state call
  change_state-status up now id w from to s s' c n h = ground arith
  change_state-status down now id w from to s s' c n h = ground arith
  change_state-status cut now id w from to s s' c n h = absurd (n refl)

  assert_transition-Edge :
      (from to : String) → assert_transition from to ≡ true → (from ≡ to) ⊎ Edge from to
  unfolding assert_transition
  assert_transition-Edge from to h = (can_transition_iff from to).0 (ground arith)

  -- A reply means that the stored state had an edge to the one wanted, or was it, and that this
  -- state and nothing else was written; the reply names the two.
  pub update_driver_status-reply :
      (l₁ l₂ : Link) (now : ℕ) (id : String) (w : DriverState) (s s' : Service R)
      (r : DriverState × DriverState)
      → update_driver_status R l₁ l₂ now id w s ≡ (s', reply r)
      → ((hot_state id s.hot ≡ proto_to_state w) ⊎ Edge (hot_state id s.hot) (proto_to_state w))
        × (s'.hot ≡ R.hset (driver_key id) "state" (text (proto_to_state w)) s.hot)
        × (r ≡ (state_to_proto (hot_state id s.hot), state_to_proto (proto_to_state w)))
  unfolding update_driver_status get_state ask hot_state
  update_driver_status-reply up l₂ now id w s s' r h =
      let from = hot_state id s.hot in
      let to = proto_to_state w in
      ground (arith, assert_transition-Edge from to, change_state-reply l₂ now id w from to s s' r)
  update_driver_status-reply down l₂ now id w s s' r h = ground arith
  update_driver_status-reply cut l₂ now id w s s' r h = ground arith

  -- A refusal leaves the service as it was, and is never the one for an unknown state. A failure of
  -- the write itself does too, unless its answer was lost on the way.
  pub update_driver_status-status :
      (l₁ l₂ : Link) (now : ℕ) (id : String) (w : DriverState) (s s' : Service R) (c : Code)
      → l₂ ≢ cut
      → update_driver_status R l₁ l₂ now id w s ≡ (s', status c)
      → (s' ≡ s) × (c ≢ invalid_argument)
  unfolding update_driver_status get_state ask hot_state
  update_driver_status-status up l₂ now id w s s' c n h = ground (
    arith,
    validate_state-proto_to_state w,
    change_state-status l₂ now id w (hot_state id s.hot) (proto_to_state w) s s' c n,
  )
  update_driver_status-status down l₂ now id w s s' c n h =
      ground (arith, validate_state-proto_to_state w)
  update_driver_status-status cut l₂ now id w s s' c n h =
      ground (arith, validate_state-proto_to_state w)

module _ (R : Redis) (L : IsRedis R) where
  release_driver-hot :
      (id reason : String) (s : Service R)
      → field (R.read s.hot (driver_key id)) "state" ≡ some (text "RESERVED")
      → (release_driver R up up id reason s).0.hot
        ≡ R.hset (driver_key id) "state" (text "AVAILABLE") s.hot
  unfolding release_driver get_state set_state call ask
  release_driver-hot id reason s e = rw (e, ==-refl state_reserved) (ground arith)

  released :
      (id l : String) (s : Service R)
      → Represents R s.hot id (slot (some l) (some "RESERVED"))
      → Represents R
          (R.hset (driver_key id) "state" (text "AVAILABLE") s.hot)
          id
          (slot (some l) (some "AVAILABLE"))
  released id l s h =
      hset-Represents R L id "state" (text "AVAILABLE") s.hot _ (slot (some l) (some "AVAILABLE")) h
        refl (ground arith)

  -- Where Redis answers, `ReleaseDriver` makes a RESERVED driver AVAILABLE and leaves the lease
  -- where it is: every reservation under another lease is still told of a conflict.
  pub release_driver-conflict :
      (id l reason ride : String) (s : Service R) (lv : LeaseValue) (t : ℕ)
      → Represents R s.hot id (slot (some l) (some "RESERVED"))
      → lease_string lv ≢ l
      → let s' = (release_driver R up up id reason s).0 in
        Represents R s'.hot id (slot (some l) (some "AVAILABLE"))
        × (Store.reserve R up id ride lv t s'.hot ≡ (s'.hot, ok Store.conflict))
  release_driver-conflict id l reason ride s lv t h ne =
      let after = released id l s h in
      rw (release_driver-hot id reason s h.state_field)
        (after, reserve-leased R id ride l (some "AVAILABLE") lv t _ after ne)
