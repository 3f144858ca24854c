-- ===== src/Tests.antt =====
-- The theorems at concrete inputs.
mod Slots
mod Dispatches
mod Bookings
mod Indexes
mod Services
mod Locations
mod Handlers
mod Tokens
mod Hubs
mod Gateways
mod Rows
mod Commands
