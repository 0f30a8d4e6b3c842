-- ===== src/Offers.antt =====
-- client/internal/domain/offers.
pub mod Calls
pub mod Service
pub mod Zone
pub mod Create
pub mod Samples
mod Tests
