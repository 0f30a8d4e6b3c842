-- ===== src/System/Rental/Tests.antt =====
-- The theorem on an undisturbed rental at a concrete input: a ride of 125 seconds on a Redis server in
-- memory that has the offer.
use system_design_homework.Prelude.{arith, ℕ, ◌≡◌, refl, some, none, [], ◌==◌, if◌then◌else◌}
use system_design_homework.Prelude.Int.{pos, add64, mul64, wrap64, ◌*ℤ◌, ◌+ℤ◌}
use system_design_homework.Result.{ok}
use system_design_homework.Program.{run}
use system_design_homework.Api.{Time}
use system_design_homework.Json.{marshal_offer}
use system_design_homework.Mock.{new_storage, serve}
use system_design_homework.Orders.Samples.{request_1, offer_1}
use system_design_homework.Orders.Values.{
  ride_total, ceil_minutes, int_seconds, ride_seconds, new_order,
}
use system_design_homework.External.Client.{configs_of}
use system_design_homework.Handler.{order}
use system_design_homework.Handler.Orders.{post_orders, post_orders_order_id_finish}
use system_design_homework.Redis.Calls.{json}
use system_design_homework.Redis.OfferRepository.{key_offer, key_offer_used}
use system_design_homework.Redis.Server.Memory.{Memory, memory, memory-IsRedis}
use system_design_homework.Postgres.Samples.{as_is, one_on}
use system_design_homework.Postgres.Tables.{Tables, find_order, has_payment, is_varchar}
use system_design_homework.System.{answer, main_service}
use system_design_homework.System.Lasting.{memory-Works}
use system_design_homework.System.Rental.{calm}
use system_design_homework.System.Rental.Created.{Offered, with_ride}
use system_design_homework.System.Rental.Completes.{started, closed, rental-Completes}

abbrev with_offer : Memory
with_offer k = if k == "offer:offer-1" then some (json (marshal_offer offer_1)) else none

abbrev no_rows : Tables
no_rows = record { orders = []; payments = [] }

abbrev end_of_ride : Time
end_of_ride = 125000002001

offered :
    Offered
      (λ n. pos n)
      12
      7
      as_is
      one_on
      memory
      memory-IsRedis
      memory-Works
      new_storage
      request_1
      offer_1
      no_rows
      2000
      with_offer
unfolding key_offer key_offer_used find_order has_payment is_varchar
offered = record {
  named = refl;
  there = refl;
  unused = refl;
  owned = refl;
  in_time = refl;
  fits = (refl, refl, refl, refl, refl);
  offer_short = refl;
  id_short = omega arith;
  new = refl;
  unpaid = refl;
}

rental-Completes_example :
    let shop = answer (λ n. pos n) 12 7 as_is one_on memory serve in
    let ride =
      with_ride
        (λ n. pos n)
        12
        7
        as_is
        one_on
        memory
        memory-IsRedis
        memory-Works
        new_storage
        request_1
        offer_1
        no_rows
        2000 in
    let start =
      run shop
        (post_orders main_service (ok request_1))
        (calm no_rows 2000 with_offer new_storage) in
    let stop =
      run shop
        (post_orders_order_id_finish main_service "order-1")
        (calm ride end_of_ride with_offer new_storage) in
    (start.0 ≡ record {
      status = 201;
      body = order (
          some (
            started
              (λ n. pos n)
              12
              7
              as_is
              one_on
              memory
              memory-IsRedis
              memory-Works
              new_storage
              request_1
              offer_1
              2000
              end_of_ride));
    })
    × (start.1.db ≡ (calm ride (one_on (one_on (one_on 2000))) with_offer (new_storage {F = ℕ})).db)
    × (stop.0 ≡ record {
      status = 200;
      body = order (
          some (
            closed
              (λ n. pos n)
              12
              7
              as_is
              one_on
              memory
              memory-IsRedis
              memory-Works
              new_storage
              request_1
              offer_1
              2000
              end_of_ride));
    })
unfolding ride_total ceil_minutes int_seconds ride_seconds configs_of new_order new_storage add64
    mul64 wrap64 ◌*ℤ◌ ◌+ℤ◌ has_payment
rental-Completes_example =
    rental-Completes (λ n. pos n) 12 7 as_is one_on memory memory-IsRedis memory-Works new_storage
      request_1 offer_1 2000 end_of_ride no_rows with_offer with_offer refl refl offered refl refl
      refl refl
