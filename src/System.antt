-- ===== src/System.antt =====
-- client/cmd/server/main.go, `main`: the orders service on its real collaborators. One world holds
-- the database, the Redis server of both stores and the service behind the external client; a call
-- of the service is a run of the repository's, the store's or the client's method.
pub mod Closed
pub mod Marks
pub mod Coherent
pub mod Rental
pub mod Fleet
pub mod Lasting
mod Tests
use system_design_homework.Prelude.{String, Bool, true, none, some}
use system_design_homework.Prelude.Int.{ℤ}
use system_design_homework.Program.{Prog, run, ask}
use system_design_homework.Api.{Time}
use system_design_homework.Orders.Calls.{Call, Reply}
use system_design_homework.Orders.Service.{Service}
use system_design_homework.Postgres.Calls.{Sql, Reply as SqlReply}
use system_design_homework.Postgres.OrderRepository
use system_design_homework.Postgres.Server.{Db, serve}
use system_design_homework.Redis.Calls.{Command, Reply as RedisReply}
use system_design_homework.Redis.OfferRepository
use system_design_homework.Redis.OrderCache
use system_design_homework.External.Client.{
  Request, Reply as HttpReply, hold_money_for_order, charge_money_for_order, unhold_money_for_order,
  get_configs,
}

pub record World (R P : Type 0) : Type 0 where
  pub db : Db
  pub redis : R
  pub external : P

-- `NewServiceWithCache` is given the cache, and the external client once more for the configuration.
unfoldable pub main_service : Service
main_service = record { cache = true; configs_provider = true }

-- The decimals of `GetConfigs` and its conversion, what a TIMESTAMP column keeps and how the clock
-- moves on, the Redis server, and the external service.
module _ {F : Type 0} (to_int : F → ℤ) (surge discount : F) (at_rest tick : Time → Time)
    {R P : Type 0} (h : (c : Command) → R → RedisReply c × R)
    (e : (c : Request) → P → HttpReply F c × P) where
  abbrev pub on_db : {A : Type 0} → Prog SqlReply A → World R P → A × World R P
  on_db p w = let (a, db) = run (serve at_rest tick) p w.db in (a, record w { db = db })

  abbrev pub on_redis : {A : Type 0} → Prog RedisReply A → World R P → A × World R P
  on_redis p w = let (a, redis) = run h p w.redis in (a, record w { redis = redis })

  abbrev pub on_external : {A : Type 0} → Prog (HttpReply F) A → World R P → A × World R P
  on_external p w = let (a, external) = run e p w.external in (a, record w { external = external })

  -- No other request is under way: the single flight always runs its function.
  unfoldable pub answer : (c : Call) → World R P → Reply F c × World R P
  answer Call.now w = on_db (ask Sql.now) w
  answer (Call.get_order_by_id id) w = on_db (OrderRepository.get_order_by_id id) w
  answer (Call.create_order order tx) w = on_db (OrderRepository.create_order order tx) w
  answer (Call.finish_order a) w = on_db (OrderRepository.finish_order a) w
  answer (Call.get_offer id) w = on_redis (OfferRepository.get_offer true id) w
  answer (Call.mark_offer_as_used id) w = on_redis (OfferRepository.mark_offer_as_used true id) w
  answer (Call.hold_money req) w = on_external (hold_money_for_order req) w
  answer (Call.unhold_money id) w = on_external (unhold_money_for_order id) w
  answer (Call.charge_money id amount) w = on_external (charge_money_for_order id amount) w
  answer (Call.cache_get id) w = on_redis (OrderCache.get_order true id) w
  answer (Call.cache_set order ttl) w = on_redis (OrderCache.set_order true (some order) ttl) w
  answer (Call.cache_invalidate id) w = on_redis (OrderCache.invalidate true id) w
  answer Call.get_configs w = on_external (get_configs to_int surge discount) w
  answer (Call.single_flight id) w = (none, w)
