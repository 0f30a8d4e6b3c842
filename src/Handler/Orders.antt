-- ===== src/Handler/Orders.antt =====
-- client/internal/handler/orders.go: `OrdersHandler`.
use system_design_homework.Prelude.{String, Option, none, some, ◌==◌, if◌then◌else◌}
use system_design_homework.Result.{
  Error, Result, ok, err, err_offer_not_found, err_offer_expired, err_offer_already_used,
  err_invalid_user, err_order_not_active, err_no_such_order,
}
use system_design_homework.Program.{Prog, ret, then_do}
use system_design_homework.Api.{Order}
use system_design_homework.Orders.Calls.{Reply}
use system_design_homework.Orders.Service.{Service, Returned, create_order, get_order, finish_order}
use system_design_homework.Orders.Values.{CreateOrderRequest}
use system_design_homework.Handler.{Response, respond, order, error_object}

-- The `switch err` of `PostOrders`; errors are compared by identity, so a wrapped one is the
-- default.
abbrev pub create_error : Error → Response
create_error err_offer_not_found = respond 400 "Offer not found"
create_error err_offer_expired = respond 400 "Offer expired"
create_error err_offer_already_used = respond 400 "Offer already used"
create_error err_invalid_user = respond 400 "Invalid user"
create_error _ = respond 500 "Internal server error"

abbrev pub created : Result Order → Response
created (ok o) = record { status = 201; body = order (some o) }
created (err e) = create_error e

-- The `switch err` of `PostOrdersOrderIdFinish`.
abbrev pub finish_error : Error → Response
finish_error err_no_such_order = respond 400 "Order not found"
finish_error err_order_not_active = respond 409 "Order already finished"
finish_error _ = respond 500 "Finish error"

abbrev pub finished : Returned → Response
finished (o, none) = record { status = 200; body = order o }
finished (o, some e) = finish_error e

abbrev pub loaded : Result (Option Order) → Response
loaded (ok (some o)) = record { status = 200; body = order (some o) }
loaded (ok none) = record { status = 404; body = error_object "Order not found" }
loaded (err e) = record { status = 500; body = error_object "Internal server error" }

module _ {F : Type 0} where
  -- `PostOrders`; the request is what the JSON decoder makes of the body.
  unfoldable pub post_orders : Service → Result CreateOrderRequest → Prog (Reply F) Response
  post_orders s (err e) = ret (respond 400 "Invalid request body")
  post_orders s (ok req) =
      if req.order_id == ""
      then ret (respond 400 "order_id is required")
      else if req.offer_id == ""
      then ret (respond 400 "offer_id is required")
      else if req.user_id == ""
      then ret (respond 400 "user_id is required")
      else then_do (λ r. ret (created r)) (create_order s req)

  -- `GetOrdersOrderId`
  unfoldable pub get_orders_order_id : Service → String → Prog (Reply F) Response
  get_orders_order_id s id =
      if id == ""
      then ret (record { status = 400; body = error_object "order_id is required" })
      else then_do (λ r. ret (loaded r)) (get_order s id)

  -- `PostOrdersOrderIdFinish`
  unfoldable pub post_orders_order_id_finish : Service → String → Prog (Reply F) Response
  post_orders_order_id_finish s id =
      if id == ""
      then ret (respond 400 "order_id is required")
      else then_do (λ r. ret (finished r)) (finish_order s id)
