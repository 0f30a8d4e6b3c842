-- ===== src/Orders/Samples.antt =====
-- Sample values and a sample environment for the tests: a shop whose components never fail. Its
-- world says whether the offer has been marked as used.
use system_design_homework.Prelude.{ℕ, Bool, true, false, not, none, some, ◌==◌, if◌then◌else◌}
use system_design_homework.Prelude.Int.{pos}
use system_design_homework.Result.{ok}
use system_design_homework.Api.{Offer, Order, active}
use system_design_homework.Orders.Calls.{Call, Reply}
use system_design_homework.Orders.Service.{Service}
use system_design_homework.Orders.Values.{CreateOrderRequest}

abbrev pub offer_1 : Offer
offer_1 = record {
  created_at = some 1000;
  deposit = pos 200;
  expires_at = 900000;
  id = "offer-1";
  price_per_minute = pos 7;
  price_unlock = pos 30;
  scooter_id = "s1";
  user_id = "u1";
  zone_id = "z1";
}

-- An order under way since the time 2000.
abbrev pub order_2 : Order
order_2 = record {
  current_amount = some (pos 30);
  deposit = some (pos 200);
  duration_seconds = none;
  finish_time = none;
  id = "order-2";
  offer_id = "offer-2";
  price_per_minute = some (pos 7);
  price_unlock = some (pos 30);
  scooter_id = "s1";
  start_time = 2000;
  status = active;
  user_id = "u1";
}

abbrev pub request_1 : CreateOrderRequest
request_1 = record { order_id = "order-1"; offer_id = "offer-1"; user_id = "u1" }

abbrev pub service : Service
service = record { cache = true; configs_provider = false }

abbrev pub shop : (c : Call) → Bool → Reply ℕ c × Bool
shop Call.now w = (5000, w)
shop (Call.get_order_by_id id) w = (ok (if id == "order-2" then some order_2 else none), w)
shop (Call.create_order order tx) w = (ok tt, w)
shop (Call.finish_order a) w = (ok tt, w)
shop (Call.get_offer id) w = (ok (some offer_1), w)
shop (Call.mark_offer_as_used id) w = (ok (not w), true)
shop (Call.hold_money req) w = (ok (record { transaction_id = "tx-1"; success = true }), w)
shop (Call.unhold_money id) w = (ok tt, w)
shop (Call.charge_money id amount) w = (ok tt, w)
shop (Call.cache_get id) w = (ok none, w)
shop (Call.cache_set order ttl) w = (ok tt, w)
shop (Call.cache_invalidate id) w = (ok tt, w)
shop Call.get_configs w = (ok none, w)
shop (Call.single_flight id) w = (none, w)
