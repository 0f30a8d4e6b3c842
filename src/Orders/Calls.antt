-- ===== src/Orders/Calls.antt =====
-- What the orders service calls: its two repositories, the payments client, the order cache, the
-- configuration, the clock, and the group of client/internal/domain/orders/service.go that merges
-- concurrent reads of one order (golang.org/x/sync/singleflight).
use system_design_homework.Prelude.{String, Bool, Option}
use system_design_homework.Prelude.Int.{ℤ}
use system_design_homework.Result.{Result}
use system_design_homework.Api.{Time, Duration, OrderStatus, Offer, Order}
use system_design_homework.External.{PaymentHoldRequest, PaymentHoldResponse, DynamicConfigs}

-- The arguments of `Repository.FinishOrder`.
pub record FinishArgs : Type 0 where
  pub order_id : String
  pub finish_time : Time
  pub duration_seconds : ℤ
  pub total_amount : ℤ
  pub final_status : OrderStatus
  pub charge_success : Bool
  pub unhold_success : Bool
  pub charge_tx_id : String

pub data Call : Type 0 where
  now : Call
  get_order_by_id : String → Call
  create_order : Order → String → Call
  finish_order : FinishArgs → Call
  get_offer : String → Call
  mark_offer_as_used : String → Call
  hold_money : PaymentHoldRequest → Call
  unhold_money : String → Call
  charge_money : String → ℤ → Call
  cache_get : String → Call
  cache_set : Order → Duration → Call
  cache_invalidate : String → Call
  get_configs : Call
  single_flight : String → Call

-- `single_flight` replies `none` to the caller that is to run the function, and the result of a
-- run that is under way for the same key to a caller that has waited for it.
abbrev pub Reply : Type 0 → Call → Type 0
Reply F now = Time
Reply F (get_order_by_id id) = Result (Option Order)
Reply F (create_order order tx) = Result (Unit {0})
Reply F (finish_order a) = Result (Unit {0})
Reply F (get_offer id) = Result (Option Offer)
Reply F (mark_offer_as_used id) = Result Bool
Reply F (hold_money req) = Result PaymentHoldResponse
Reply F (unhold_money id) = Result (Unit {0})
Reply F (charge_money id amount) = Result (Unit {0})
Reply F (cache_get id) = Result (Option Order)
Reply F (cache_set order ttl) = Result (Unit {0})
Reply F (cache_invalidate id) = Result (Unit {0})
Reply F get_configs = Result (Option (DynamicConfigs F))
Reply F (single_flight id) = Option (Result (Option Order))
