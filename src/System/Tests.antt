-- ===== src/System/Tests.antt =====
-- The theorems on the whole service at concrete inputs: a Redis server in memory, a database with one
-- active order, and the service of external/ with nothing loaded.
use system_design_homework.Prelude.{
  ℕ, ◌≡◌, refl, ◌≤◌, true, false, none, is_some, List, [], ◌∷◌, map,
}
use system_design_homework.Prelude.Int.{pos, add64, mul64, wrap64, ◌*ℤ◌, ◌+ℤ◌}
use system_design_homework.Result.{ok}
use system_design_homework.Program.{run, watch}
use system_design_homework.Program.Threads.{Account, book, interleave}
use system_design_homework.Orders.Calls.{Call, Reply}
use system_design_homework.Orders.Race.{grants, spends, threads}
use system_design_homework.Orders.Samples.{request_1}
use system_design_homework.Orders.Service.{
  Service, get_order, finish_order, finish_active, ride_threshold, settle, record_ride,
}
use system_design_homework.Postgres.Samples.{as_is, one_on, db_1}
use system_design_homework.Postgres.OrderRepository.{
  get_order_by_id, order_of_row, clear_row, refund_row, finish_order as store_finish,
}
use system_design_homework.Postgres.Server
use system_design_homework.Postgres.Tables.{
  find_order, update_orders, has_order, has_payment, insert_payment, is_varchar, fits_payment,
}
use system_design_homework.External.Client.{
  get_configs, configs_of, charge_money_for_order, unhold_money_for_order,
}
use system_design_homework.Redis.OrderCache.{invalidate, set_order, order_cache_key}
use system_design_homework.Json.{marshal_order}
use system_design_homework.Orders.Values.{
  CreateOrderRequest, ride_total, ceil_minutes, int_seconds, ride_seconds,
}
use system_design_homework.Redis.Server.Memory.{Memory, memory, memory-IsRedis}
use system_design_homework.Mock.{Storage, new_storage, serve, serve_configs, serve_payment}
use system_design_homework.Handler.Pool.{Request, handle}
use system_design_homework.System.{World, answer, main_service}
use system_design_homework.System.Closed.{finish_order-once}
use system_design_homework.System.Coherent.{TakesWrites, Settled}
use system_design_homework.System.Coherent.Handled.{handled, handled-Settled}
use system_design_homework.System.Coherent.Cached.{get_order-cached, as_stored}
use system_design_homework.System.Marks.{holds_once}
use system_design_homework.System.Lasting.{memory-Lasts}

abbrev world_1 : World Memory (Storage ℕ)
world_1 = record { db = db_1; redis = λ k. none; external = new_storage }

abbrev shop : (c : Call) → World Memory (Storage ℕ) → Reply ℕ c × World Memory (Storage ℕ)
shop = answer (λ n. pos n) 12 7 as_is one_on memory serve

-- An order is created and the finished one asked for again, their calls in turns.
abbrev others : List Request
others = Request.create (ok request_1) ∷ Request.finish "order-2" ∷ []

abbrev schedule : List ℕ
schedule = 0 ∷ 1 ∷ 0 ∷ 1 ∷ 0 ∷ 1 ∷ 0 ∷ 1 ∷ 0 ∷ 1 ∷ []

finished_once : (run shop (finish_order main_service "order-2") world_1).0.1 ≡ none
unfolding run finish_order answer get_order_by_id Server.serve find_order finish_active is_varchar
    fits_payment ride_threshold main_service get_configs configs_of serve serve_configs
    serve_payment settle charge_money_for_order unhold_money_for_order record_ride store_finish
    ride_total ceil_minutes int_seconds ride_seconds clear_row refund_row order_of_row update_orders
    has_order has_payment insert_payment add64 mul64 wrap64 new_storage invalidate set_order
    order_cache_key marshal_order ◌*ℤ◌ ◌+ℤ◌
finished_once = refl

finish_order-once_example :
    let first = run shop (finish_order main_service "order-2") world_1 in
    let between = (interleave shop schedule (map (handle main_service) others) first.1).1 in
    let again = run shop (finish_order main_service "order-2") between in
    (is_some again.0.1 ≡ true) × (again.1.external ≡ between.external)
finish_order-once_example =
    finish_order-once (λ n. pos n) 12 7 as_is one_on memory serve main_service "order-2" others
      schedule world_1 refl finished_once

abbrev rivals : List (Service × CreateOrderRequest)
rivals = (main_service, request_1) ∷ (main_service, request_1) ∷ []

holds_once_example :
    let start : Account = record { granted = 0; spent = 0 } in
    let books = watch (book (grants ℕ "offer-1") spends) shop in
    (interleave books schedule (threads ℕ "offer-1" rivals) (world_1, start)).1.1.spent ≤ 1
holds_once_example =
    holds_once (λ n. pos n) 12 7 as_is one_on memory memory-IsRedis memory-Lasts serve "offer-1"
      rivals schedule world_1 (refl, (refl, tt))

memory-TakesWrites : TakesWrites memory
memory-TakesWrites = record { set_ok = λ k p d w. refl; del_ok = λ k w. refl }

world_1-Settled : Settled as_is memory memory-IsRedis world_1
world_1-Settled = ((refl, refl), λ id. tt)

-- The active order is read, so that it is cached, and an order is created; then it is finished.
abbrev day : List Request
day =
    Request.read "order-2"
    ∷ Request.create (ok request_1)
    ∷ Request.finish "order-2"
    ∷ Request.read "order-2"
    ∷ []

abbrev evening : World Memory (Storage ℕ)
evening =
    handled (λ n. pos n) 12 7 as_is one_on (λ t. refl) memory memory-IsRedis memory-TakesWrites
      serve main_service day world_1

cache_given : main_service.cache ≡ true
unfolding main_service
cache_given = refl

evening-Settled : Settled as_is memory memory-IsRedis evening
evening-Settled =
    handled-Settled (λ n. pos n) 12 7 as_is one_on (λ t. refl) memory memory-IsRedis
      memory-TakesWrites serve main_service day world_1 cache_given world_1-Settled

handled-Settled_example : Settled as_is memory memory-IsRedis evening
handled-Settled_example =
    handled-Settled (λ n. pos n) 12 7 as_is one_on (λ t. refl) memory memory-IsRedis
      memory-TakesWrites serve main_service day world_1 cache_given world_1-Settled

get_order-cached_example :
    let cacheless : Service = record main_service { cache = false } in
    as_stored as_is (run shop (get_order main_service "order-2") evening).0
    ≡ as_stored as_is (run shop (get_order cacheless "order-2") evening).0
get_order-cached_example =
    get_order-cached (λ n. pos n) 12 7 as_is one_on memory memory-IsRedis serve main_service
      "order-2" evening evening-Settled
