-- ===== src/Ride.antt =====
-- internal/ride.
pub mod State
pub mod Service
