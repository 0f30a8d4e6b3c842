-- ===== src/Orders/Events.antt =====
-- The calls of an orders method that change something outside of the service and its cache.
use system_design_homework.Prelude.{String, Bool, true, false, List, ◌∷◌}
use system_design_homework.Prelude.Int.{ℤ}
use system_design_homework.Result.{Result, ok, err, is_ok}
use system_design_homework.Api.{Order}
use system_design_homework.External.{PaymentHoldRequest, PaymentHoldResponse}
use system_design_homework.Program.{Proc, ◌>>◌}
use system_design_homework.Program.Every.{Every}
use system_design_homework.Orders.Calls.{Call, Reply, FinishArgs}
use system_design_homework.Orders.Service.{cached_set, cached_invalidate}

-- The last field says whether the call was granted.
pub data Event : Type 0 where
  marked : String → Bool → Event
  held : PaymentHoldRequest → Bool → Event
  stored : Order → Bool → Event
  released : String → Bool → Event
  charged : String → ℤ → Bool → Event
  closed : FinishArgs → Bool → Event
  -- An order that was read.
  existing : String → Order → Event

abbrev pub is_granted : Result Bool → Bool
is_granted (ok b) = b
is_granted (err e) = false

abbrev pub is_held : Result PaymentHoldResponse → Bool
is_held (ok r) = r.success
is_held (err e) = false

-- Newest first.
abbrev pub note : (F : Type 0) (c : Call) → Reply F c → List Event → List Event
note F (Call.mark_offer_as_used id) r es = marked id (is_granted r) ∷ es
note F (Call.hold_money req) r es = held req (is_held r) ∷ es
note F (Call.create_order order tx) r es = stored order (is_ok r) ∷ es
note F (Call.unhold_money id) r es = released id (is_ok r) ∷ es
note F (Call.charge_money id amount) r es = charged id amount (is_ok r) ∷ es
note F (Call.finish_order a) r es = closed a (is_ok r) ∷ es
note F _ r es = es

-- Writes to the cache make no events.
module _ {F A : Type 0} (P : Result A → List Event → Type 0) (k : Proc (Reply F) A) where
  pub Every-cached_set :
      (b : Bool) (order : Order) (es : List Event)
      → Every (note F) P es k
      → Every (note F) P es (cached_set b order >> k)
  Every-cached_set true order es e = λ r. e
  Every-cached_set false order es e = e

  pub Every-cached_invalidate :
      (b : Bool) (id : String) (es : List Event)
      → Every (note F) P es k
      → Every (note F) P es (cached_invalidate b id >> k)
  Every-cached_invalidate true id es e = λ r. e
  Every-cached_invalidate false id es e = e
