-- ===== src/Handler/Tests.antt =====
-- The theorems on the handlers at concrete inputs.
use system_design_homework.Prelude.{ℕ, true, false, []}
use system_design_homework.Result.{ok}
use system_design_homework.Program.{run, watch}
use system_design_homework.Orders.Calls.{Reply}
use system_design_homework.Orders.Steps.{Lawful}
use system_design_homework.Orders.Events.{note}
use system_design_homework.Orders.Create.{note as create_note}
use system_design_homework.Orders.Samples.{request_1, service, shop}
use system_design_homework.Handler.Orders.{
  post_orders, get_orders_order_id, post_orders_order_id_finish,
}
use system_design_homework.Offers.Create
use system_design_homework.Offers.Samples.{request_1 as town_request}
use system_design_homework.Handler.Offered
use system_design_homework.Handler.Created
use system_design_homework.Handler.Finished
use system_design_homework.Handler.Loaded
use system_design_homework.Orders.Read
use system_design_homework.Handler.Pool.{Request, handle, handle-Within}
use system_design_homework.Program.Steps.{Within}

post_orders-Answers_example :
    let out = run (watch (create_note ℕ) shop) (post_orders service (ok request_1)) (false, []) in
    Created.Answers request_1 out.0 out.1.1
post_orders-Answers_example = Created.post_orders-Answers ℕ shop service request_1 false

finish-Answers_example :
    let out =
      run (watch (note ℕ) shop) (post_orders_order_id_finish service "order-2") (false, []) in
    Finished.Answers "order-2" out.0 out.1.1
finish-Answers_example = Finished.finish-Answers ℕ shop service "order-2" false

get_orders-Answers_example :
    let out = run (watch (Read.note ℕ) shop) (get_orders_order_id service "order-2") (false, []) in
    Loaded.Answers true "order-2" out.0 out.1.1
get_orders-Answers_example = Loaded.get_orders-Answers ℕ shop service "order-2" false

handle-Within_example : Within {R = Reply ℕ} Lawful 9 (handle service (Request.finish "order-2"))
handle-Within_example = handle-Within ℕ service (Request.finish "order-2")
