-- ===== src/Postgres.antt =====
-- client/internal/storage/postgres and client/migrations.
pub mod Tables
pub mod Lengths
pub mod Calls
pub mod OrderRepository
pub mod Server
pub mod Samples
mod Tests
