-- ===== src/Ride/State/Walks.antt =====
-- Walks of a ride through its states.
use nexus_dispatch.Prelude.{
  ℕ, suc, ◌+◌, ◌≤◌, ◌≡◌, ◌≢◌, ◌⊎◌, inl, inr, true, String, string_dec, ◌==◌, arith, if◌then◌else◌,
}
use nexus_dispatch.Ride.State.{can_transition}

-- Steps that the state machine accepts and that change the state.
pub data Walk (from : String) : String → Type 0 where
  stay : Walk from from
  then_to :
      {mid to : String} → Walk from mid → mid ≢ to → can_transition mid to ≡ true → Walk from to

-- How far a ride has come.
abbrev pub rank : String → ℕ
rank s =
    if s == "REQUESTED"
    then 0
    else if s == "MATCHED"
    then 1
    else if s == "DRIVER_EN_ROUTE"
    then 2
    else if s == "ARRIVED"
    then 3
    else if s == "IN_PROGRESS"
    then 4
    else 5

abbrev pub steps : {from to : String} → Walk from to → ℕ
steps stay = 0
steps (then_to w ne e) = suc (steps w)

-- The edges of the state machine.
pub data Edge (from to : String) : Type 0 where
  leave_request :
      from ≡ "REQUESTED" → (to ≡ "MATCHED") ⊎ (to ≡ "CANCELLED") ⊎ (to ≡ "EXPIRED") → Edge from to
  leave_match :
      from ≡ "MATCHED"
      → (to ≡ "DRIVER_EN_ROUTE") ⊎ (to ≡ "CANCELLED") ⊎ (to ≡ "EXPIRED")
      → Edge from to
  leave_en_route : from ≡ "DRIVER_EN_ROUTE" → (to ≡ "ARRIVED") ⊎ (to ≡ "CANCELLED") → Edge from to
  leave_arrival : from ≡ "ARRIVED" → (to ≡ "IN_PROGRESS") ⊎ (to ≡ "CANCELLED") → Edge from to
  leave_trip : from ≡ "IN_PROGRESS" → to ≡ "COMPLETED" → Edge from to

can_transition-Edge :
    (from to : String) → can_transition from to ≡ true → (from ≡ to) ⊎ Edge from to
unfolding can_transition
can_transition-Edge from to h =
    grind (arith, leave_request, leave_match, leave_en_route, leave_arrival, leave_trip)

rank-Edge : (from to : String) → Edge from to → suc (rank from) ≤ rank to
unfolding string_dec
rank-Edge from to (leave_request e (inl f)) = rw (e, f) (omega arith)
rank-Edge from to (leave_request e (inr (inl f))) = rw (e, f) (omega arith)
rank-Edge from to (leave_request e (inr (inr f))) = rw (e, f) (omega arith)
rank-Edge from to (leave_match e (inl f)) = rw (e, f) (omega arith)
rank-Edge from to (leave_match e (inr (inl f))) = rw (e, f) (omega arith)
rank-Edge from to (leave_match e (inr (inr f))) = rw (e, f) (omega arith)
rank-Edge from to (leave_en_route e (inl f)) = rw (e, f) (omega arith)
rank-Edge from to (leave_en_route e (inr f)) = rw (e, f) (omega arith)
rank-Edge from to (leave_arrival e (inl f)) = rw (e, f) (omega arith)
rank-Edge from to (leave_arrival e (inr f)) = rw (e, f) (omega arith)
rank-Edge from to (leave_trip e f) = rw (e, f) (omega arith)

rank-step :
    (from to : String) → from ≢ to → can_transition from to ≡ true → suc (rank from) ≤ rank to
rank-step from to ne h = elim (can_transition-Edge from to h) [
  | inl e ↦ elim (ne e) [ ]
  | inr e ↦ rank-Edge from to e
]

-- Every step brings a ride further: a walk of n steps ends at least n ranks on, where REQUESTED has
-- rank 0 and COMPLETED, CANCELLED and EXPIRED have the last rank, 5.
pub steps_le : {from to : String} (w : Walk from to) → rank from + steps w ≤ rank to
steps_le stay = omega arith
steps_le (then_to w ne e) = omega (arith, steps_le w, rank-step _ _ ne e)
