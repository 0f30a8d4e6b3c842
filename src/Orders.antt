-- ===== src/Orders.antt =====
-- client/internal/domain/orders.
pub mod Steps
pub mod Calls
pub mod Values
pub mod Service
pub mod Events
pub mod Create
pub mod Finish
pub mod Fare
pub mod Race
pub mod Read
pub mod Samples
mod Tests
