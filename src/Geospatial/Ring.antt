-- ===== src/Geospatial/Ring.antt =====
-- The ring that a search expands, and the coordinates that are let through.
use nexus_dispatch.Prelude.{ℕ, ◌*◌, ◌≤◌, ◌≡◌, ◌↔◌, true, arith}
use nexus_dispatch.Prelude.Int.{ℤ, pos, negsuc, ◌≤ℤ◌}
use nexus_dispatch.Redis.{micro}
use nexus_dispatch.Geospatial.{cell_circumradius, validate_lat_lng, ring_for_radius}

-- The ring of a positive radius is the least k, and at least 1, with k circumradii covering it.
pub ring_for_radius-least :
    (r k res : ℕ) → 1 ≤ k → (ring_for_radius (pos r) res ≤ k) ↔ (r ≤ k * cell_circumradius)
unfolding ring_for_radius
ring_for_radius-least r k res h = (λ p. ground arith, λ p. ground arith)

-- A pair of numbers passes exactly when it lies in [-90, 90] × [-180, 180].
pub validate_lat_lng_iff :
    (a b : ℤ)
    → (validate_lat_lng (micro a) (micro b) ≡ true) ↔ (
        (negsuc 89999999 ≤ℤ a)
        × (a ≤ℤ pos 90000000)
        × (negsuc 179999999 ≤ℤ b)
        × (b ≤ℤ pos 180000000))
unfolding validate_lat_lng
validate_lat_lng_iff a b = (λ p. ground arith, λ p. ground arith)
