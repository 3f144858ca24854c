-- ===== src/Driver/State/Edges.antt =====
-- The transitions of a driver, as a relation.
use nexus_dispatch.Prelude.{◌≡◌, ◌⊎◌, inl, inr, ◌↔◌, refl, true, String, string_dec, ==-refl, arith}
use nexus_dispatch.Driver.State.{can_transition}

-- The edges of the diagram in the comment on `validTransitions`.
pub data Edge (from to : String) : Type 0 where
  leave_offline : from ≡ "OFFLINE" → (to ≡ "AVAILABLE") ⊎ (to ≡ "PAUSED") → Edge from to
  leave_available :
      from ≡ "AVAILABLE" → (to ≡ "RESERVED") ⊎ (to ≡ "OFFLINE") ⊎ (to ≡ "PAUSED") → Edge from to
  leave_reserved :
      from ≡ "RESERVED"
      → (to ≡ "ON_TRIP") ⊎ (to ≡ "AVAILABLE") ⊎ (to ≡ "OFFLINE") ⊎ (to ≡ "PAUSED")
      → Edge from to
  leave_on_trip : from ≡ "ON_TRIP" → (to ≡ "AVAILABLE") ⊎ (to ≡ "OFFLINE") → Edge from to
  leave_paused : from ≡ "PAUSED" → (to ≡ "AVAILABLE") ⊎ (to ≡ "OFFLINE") → Edge from to

can_transition-Edge :
    (from to : String) → can_transition from to ≡ true → (from ≡ to) ⊎ Edge from to
unfolding can_transition
can_transition-Edge from to h =
    grind (arith, leave_offline, leave_available, leave_reserved, leave_on_trip, leave_paused)

allowed : (from to : String) → Edge from to → can_transition from to ≡ true
unfolding can_transition string_dec
allowed from to (leave_offline e (inl f)) = rw (e, f) refl
allowed from to (leave_offline e (inr f)) = rw (e, f) refl
allowed from to (leave_available e (inl f)) = rw (e, f) refl
allowed from to (leave_available e (inr (inl f))) = rw (e, f) refl
allowed from to (leave_available e (inr (inr f))) = rw (e, f) refl
allowed from to (leave_reserved e (inl f)) = rw (e, f) refl
allowed from to (leave_reserved e (inr (inl f))) = rw (e, f) refl
allowed from to (leave_reserved e (inr (inr (inl f)))) = rw (e, f) refl
allowed from to (leave_reserved e (inr (inr (inr f)))) = rw (e, f) refl
allowed from to (leave_on_trip e (inl f)) = rw (e, f) refl
allowed from to (leave_on_trip e (inr f)) = rw (e, f) refl
allowed from to (leave_paused e (inl f)) = rw (e, f) refl
allowed from to (leave_paused e (inr f)) = rw (e, f) refl

stays : (s : String) → can_transition s s ≡ true
unfolding can_transition
stays s = rw (==-refl s)

-- A transition is accepted exactly where the state stays or the diagram has the edge.
pub can_transition_iff :
    (from to : String) → (can_transition from to ≡ true) ↔ ((from ≡ to) ⊎ Edge from to)
can_transition_iff from to = (
  can_transition-Edge from to,
  λ h. elim h [ inl e ↦ rw e (stays to) | inr e ↦ allowed from to e ],
)

-- RESERVED is entered from AVAILABLE alone, and ON_TRIP from RESERVED alone.
pub entered_from :
    (from : String)
    → (can_transition from "RESERVED" ≡ true → (from ≡ "RESERVED") ⊎ (from ≡ "AVAILABLE"))
      × (can_transition from "ON_TRIP" ≡ true → (from ≡ "ON_TRIP") ⊎ (from ≡ "RESERVED"))
unfolding can_transition string_dec
entered_from from = (λ h. ground arith, λ h. ground arith)
