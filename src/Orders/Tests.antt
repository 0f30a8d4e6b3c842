-- ===== src/Orders/Tests.antt =====
-- The theorems on orders at concrete inputs.
use system_design_homework.Prelude.{
  ℕ, ◌+◌, ◌*◌, ◌≤◌, ◌<◌, ◌≡◌, refl, Bool, true, false, [], ◌∷◌, arith, ◌-◌, ◌/◌,
}
use system_design_homework.Prelude.Int.{pos, ◌≤ℤ◌}
use system_design_homework.Program.{run, watch}
use system_design_homework.Program.Threads.{interleave}
use system_design_homework.Api.{second}
use system_design_homework.Orders.Calls.{Call}
use system_design_homework.Orders.Service.{create_order, finish_order}
use system_design_homework.Orders.Values.{ride_total, ride_seconds}
use system_design_homework.Orders.Events.{note, is_granted}
use system_design_homework.Orders.Race.{MarksOnce, holds_at_most_once, books, threads}
use system_design_homework.Orders.Fare.{ride_total_fare, ride_total_mono}
use system_design_homework.Orders.Create
use system_design_homework.Orders.Finish
use system_design_homework.Orders.Samples.{order_2, request_1, service, shop}

shop_once :
    (w : Bool)
    → is_granted (shop (Call.mark_offer_as_used "offer-1") w).0 ≡ true
    → (w ≡ false) × ((shop (Call.mark_offer_as_used "offer-1") w).1 ≡ true)
shop_once w h = ground arith

shop_stays : (c : Call) (w : Bool) → w ≡ true → (shop c w).1 ≡ true
shop_stays Call.now w h = h
shop_stays (Call.get_order_by_id id) w h = h
shop_stays (Call.create_order order tx) w h = h
shop_stays (Call.finish_order a) w h = h
shop_stays (Call.get_offer id) w h = h
shop_stays (Call.mark_offer_as_used id) w h = refl
shop_stays (Call.hold_money req) w h = h
shop_stays (Call.unhold_money id) w h = h
shop_stays (Call.charge_money id amount) w h = h
shop_stays (Call.cache_get id) w h = h
shop_stays (Call.cache_set order ttl) w h = h
shop_stays (Call.cache_invalidate id) w h = h
shop_stays Call.get_configs w h = h
shop_stays (Call.single_flight id) w h = h

abbrev shop-MarksOnce : MarksOnce ℕ "offer-1" shop
shop-MarksOnce = record { used = λ w. w; once = shop_once; stays = shop_stays }

-- Two requests for one offer, their calls taken in turn.
holds_at_most_once_example :
    (interleave
      (books ℕ "offer-1" shop shop-MarksOnce)
      (0 ∷ 1 ∷ 0 ∷ 1 ∷ 0 ∷ 1 ∷ 0 ∷ 1 ∷ 0 ∷ 1 ∷ [])
      (threads ℕ "offer-1" ((service, request_1) ∷ (service, request_1) ∷ []))
      (false, record { granted = 0; spent = 0 })).1.1.spent
    ≤ 1
holds_at_most_once_example =
    holds_at_most_once ℕ "offer-1" shop shop-MarksOnce
      ((service, request_1) ∷ (service, request_1) ∷ [])
      (0 ∷ 1 ∷ 0 ∷ 1 ∷ 0 ∷ 1 ∷ 0 ∷ 1 ∷ 0 ∷ 1 ∷ []) false (refl, (refl, tt))

create_order-Fits_example :
    let out = run (watch (Create.note ℕ) shop) (create_order service request_1) (false, []) in
    Create.Fits request_1 out.0 out.1.1
create_order-Fits_example = Create.create_order-Fits ℕ shop service request_1 false

finish_order-Fits_example :
    let out = run (watch (note ℕ) shop) (finish_order service "order-2") (false, []) in
    Finish.Fits "order-2" out.0 out.1.1
finish_order-Fits_example = Finish.finish_order-Fits ℕ shop service "order-2" false

-- Two minutes and five seconds.
ride_total_fare_example :
    ((125000002000 - 2000) / second < 5
      → ride_total order_2 (pos 5) (ride_seconds 2000 125000002000) ≡ pos 0)
    × (5 ≤ (125000002000 - 2000) / second
        → ride_total order_2 (pos 5) (ride_seconds 2000 125000002000) ≡ pos (30 + 3 * 7))
ride_total_fare_example =
    ride_total_fare order_2 7 30 refl refl 2000 125000002000 5 3 (omega arith) (omega arith)
      (omega arith) (omega arith)

ride_total_mono_example :
    ride_total order_2 (pos 5) (pos 100) ≤ℤ ride_total order_2 (pos 5) (pos 200)
ride_total_mono_example =
    ride_total_mono order_2 7 30 refl refl 5 100 200 (omega arith) (omega arith)
