-- ===== src/Redis.antt =====
-- client/internal/storage/redis.
pub mod Calls
pub mod OfferRepository
pub mod OrderCache
pub mod Server
mod Tests
mod CacheTests
