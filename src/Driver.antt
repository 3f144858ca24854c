-- ===== src/Driver.antt =====
-- internal/driver: the state machine of a driver's availability, and the service.
pub mod State
pub mod Service
