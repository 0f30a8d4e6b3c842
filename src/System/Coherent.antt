-- ===== src/System/Coherent.antt =====
-- The order cache of the whole service against its database: what it means that they agree.
pub mod Cache
pub mod Entries
pub mod Mode
pub mod Calls
pub mod Methods
pub mod Handled
pub mod Cached
use Prim.Native.String.{◌++◌}
use mathlib.Core.Option
use system_design_homework.Prelude.{
  String, ◌≡◌, refl, ◌≢◌, ◌⊎◌, inl, inr, true, Option, none, some, arith,
}
use system_design_homework.Prelude.Int.{ℤ}
use system_design_homework.Result.{is_ok}
use system_design_homework.Api.{Time, Order}
use system_design_homework.Json.{marshal_order}
use system_design_homework.Redis.Calls.{Command, Reply as RedisReply, Payload, json}
use system_design_homework.Redis.OrderCache.{order_cache_key}
use system_design_homework.Redis.Server.{IsRedis}
use system_design_homework.Postgres.Tables.{OrderRow, Tables, find_order}
use system_design_homework.Postgres.OrderRepository.{order_of_row}
use system_design_homework.Postgres.Server.Calm.{IsCalm}
use system_design_homework.System.{World}

-- A server on which no write of the cache fails; an entry may still expire.
pub record TakesWrites {W : Type 0} (h : (c : Command) → W → RedisReply c × W) : Type 0 where
  pub set_ok : (k : String) (p : Payload) (d : ℤ) (w : W) → is_ok (h (Command.set k p d) w).0 ≡ true
  pub del_ok : (k : String) (w : W) → is_ok (h (Command.del k) w).0 ≡ true

module _ (at_rest : Time → Time) where
  -- An order with its times as a TIMESTAMP column keeps them.
  abbrev pub rounded : Order → Order
  rounded o = record o {
    start_time = at_rest o.start_time;
    finish_time = Option.map at_rest o.finish_time;
  }

  -- The order is the one that is stored, but for the rounding of its times.
  abbrev pub Agrees : Order → Tables → Type 0
  Agrees o t =
      (row : OrderRow) × (find_order o.id t.orders ≡ some row)
      × (rounded o ≡ rounded (order_of_row row))

  -- What the cache holds of an order is nothing, or the stored order.
  abbrev pub Fresh : String → Option Payload → Tables → Type 0
  Fresh id none t = Unit {0}
  Fresh id (some p) t = (o : Order) × (p ≡ json (marshal_order o)) × (o.id ≡ id) × Agrees o t

  module _ {R P : Type 0} (h : (c : Command) → R → RedisReply c × R) (r : IsRedis h) where
    abbrev pub cached : String → World R P → Option Payload
    cached id w = r.live w.redis (order_cache_key id)

    abbrev pub Coherent : World R P → Type 0
    Coherent w = (id : String) → Fresh id (cached id w) w.db.tables

    -- Between two requests: no transaction is open, no fault is to come, and the cache is coherent.
    abbrev pub Settled : World R P → Type 0
    Settled w = IsCalm w.db × Coherent w
