-- ===== src/Hot.antt =====
-- internal/redis: the hot state.
pub mod Keys
pub mod Scripts
pub mod LeaseValue
pub mod Store
pub mod Slot
pub mod Guard
pub mod Bucket
pub mod Calls
pub mod Schema
pub mod Index
