-- ===== src/Lib.antt =====
-- The scooter rental: the client service, which makes offers and orders, and the service that stands
-- in for scooters, zones, users, configurations and payments.
--
-- A method of the code is a program: the tree of the calls it makes of the components that it does
-- not own, each one atomic, with what it does on each reply (Program). One definition is run against
-- an environment that answers the calls (`run`), watched by a list of events, and interleaved call by
-- call with other programs (Program/Threads). A statement about every environment is proved by
-- induction on the program (Program/Every), so a reply may be any value, errors included, and other
-- requests may change shared state between two calls. All methods end: loops are recursion on lists,
-- and no fuel is used.
--
-- Which file models which part:
--   * Result: `(T, error)` results, and the sentinel errors of client/internal/domain.
--   * Api, Json: the structs of client/api/api.gen.go, and their JSON.
--   * Generated, Gateway: the generated server of client/api/api.gen.go; Gateway/Server: the `Server`
--     and the router of client/cmd/server/main.go. Gateway/Router says what is relied on of a router.
--   * External, External/Client: client/internal/external, the payments and data client, on the
--     parsers of its generated client.
--   * Pricing: `Calculate` of client/internal/domain/pricing/calculator.go.
--   * Offers/Service: client/internal/domain/offers/service.go, on the calls of Offers/Calls.
--   * Orders/Service, Orders/Values: client/internal/domain/orders/service.go, its methods on the
--     calls of Orders/Calls, and the values that they compute.
--   * Postgres/OrderRepository: client/internal/storage/postgres/order_repo.go, on the statements of
--     Postgres/Calls. Postgres/Tables and Postgres/Server are the tables of client/migrations, with
--     transactions and faults.
--   * Redis/OfferRepository, Redis/OrderCache: client/internal/storage/redis/offer_repo.go and
--     cache.go, on the commands of Redis/Calls. Redis/Server says what is relied on of the server.
--   * Cleanup: client/internal/jobs/order_cleanup.go, on the order repository.
--   * Handler/Orders, Handler/Offers: client/internal/handler, on the services.
--   * Handler/Pool: the order requests as the router of client/cmd/server/main.go hands them on.
--   * System: the wiring of client/cmd/server/main.go for orders: the service on its repositories and
--     stores and on the external client, in one world. System/Closed, System/Marks and
--     System/Coherent follow an order, an offer and the cache through it, System/Rental a whole
--     rental, and System/Fleet the way from an offer to its order, with the offers service on the
--     same Redis server.
--   * Startup: `main`, up to the server, with client/internal/config, and the connections of
--     client/internal/storage/postgres/postgres.go and redis/redis.go.
--   * Logger: client/internal/helpers/request_logger.go.
--   * Mock: external/storage.go and the handlers of external/main.go. StandIn: its `main` and its
--     logger.
--   * Wire/Client: the requests of client/internal/external/api_client.gen.go. Wire/Server: the
--     wrappers and routes of external/api/api.gen.go. Wire/Network puts them together.
-- The orders and the offers service each have their calls as their interface: the repositories and
-- the client of the payments stand behind it in the code, and any environment does here. The cleanup
-- and the handlers are composed with the programs that they call. The modules named Samples, Tests,
-- Hundredths and Memory hold sample values, and the theorems at concrete inputs.
--
-- Numbers: an `int` is an integer, and the arithmetic of a fare wraps around at 64 bits (Prelude/Int).
-- A time is a number of nanoseconds. `float64` is a parameter with the operations used; what is
-- relied on of it are the fields of `FloatLaws` in Pricing/Laws. Of Redis the laws of `IsRedis` are
-- relied on: an entry may expire between any two commands. `Seconds()` of a duration and the stop of
-- `Sub` at 292 years are written out, with the rounding of the sum (Orders/Values).
-- Of addresses and routes, the laws `IsSite` and `IsMux` of Wire/Network are relied on. In System the
-- single flight always runs its function: reads that are merged are in Orders/Read only.
--
-- Not modelled: the log lines that the packages write themselves, and the embedded text of the
-- description; that PostgreSQL cuts a text that is too long for its column but ends in spaces; the
-- text of JSON values; a response body that cannot be written; how long the single flight waits.
pub mod Api
pub mod Cleanup
pub mod External
pub mod Gateway
pub mod Generated
pub mod Handler
pub mod Json
pub mod Logger
pub mod Mock
pub mod Offers
pub mod Orders
pub mod Postgres
pub mod Prelude
pub mod Pricing
pub mod Program
pub mod Redis
pub mod Result
pub mod StandIn
pub mod Startup
pub mod System
pub mod Wire
