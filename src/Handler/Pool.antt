-- ===== src/Handler/Pool.antt =====
-- Requests to the orders handlers that run at the same time.
use system_design_homework.Prelude.{String, Bool-cases, inl, inr, List, [], ◌∷◌, map, arith, ◌==◌}
use system_design_homework.Result.{Result, ok, err}
use system_design_homework.Program.{Prog}
use system_design_homework.Program.Steps.{Within, Within-mono, Within-then_do, AllWithin}
use system_design_homework.Orders.Calls.{Reply}
use system_design_homework.Orders.Values.{CreateOrderRequest}
use system_design_homework.Orders.Service.{Service, create_order, get_order, finish_order}
use system_design_homework.Orders.Steps.{
  Lawful, create_order-Within, get_order-Within, finish_order-Within,
}
use system_design_homework.Handler.{Response}
use system_design_homework.Handler.Orders.{
  post_orders, get_orders_order_id, post_orders_order_id_finish, created, loaded, finished,
}

-- A request to one of the three routes of orders.
pub data Request : Type 0 where
  create : Result CreateOrderRequest → Request
  read : String → Request
  finish : String → Request

abbrev pub handle : {F : Type 0} → Service → Request → Prog (Reply F) Response
handle s (create body) = post_orders s body
handle s (read id) = get_orders_order_id s id
handle s (finish id) = post_orders_order_id_finish s id

module _ (F : Type 0) where
  -- A request to create, read or finish an order is answered after at most nine calls of the other
  -- components, whatever they reply, and the repository is never asked to finish an order with the
  -- status of an active one.
  pub handle-Within : (s : Service) (req : Request) → Within {R = Reply F} Lawful 9 (handle s req)
  unfolding post_orders get_orders_order_id post_orders_order_id_finish
  handle-Within s (create (err e)) = tt
  handle-Within s (create (ok req)) = elim (Bool-cases (req.order_id == "")) [
    | inl e ↦ rw e tt
    | inr e ↦ rw e (elim (Bool-cases (req.offer_id == "")) [
      | inl e' ↦ rw e' tt
      | inr e' ↦ rw e' (elim (Bool-cases (req.user_id == "")) [
        | inl e'' ↦ rw e'' tt
        | inr e'' ↦ rw e'' (
            Within-then_do Lawful 9 (create_order s req) created (
              Within-mono Lawful 8 9 (create_order s req) (omega arith)
                (create_order-Within F s req)))
      ])
    ])
  ]
  handle-Within s (read id) = elim (Bool-cases (id == "")) [
    | inl e ↦ rw e tt
    | inr e ↦ rw e (
        Within-then_do Lawful 9 (get_order s id) loaded
          (Within-mono Lawful 4 9 (get_order s id) (omega arith) (get_order-Within F s id)))
  ]
  handle-Within s (finish id) = elim (Bool-cases (id == "")) [
    | inl e ↦ rw e tt
    | inr e ↦
        rw e (Within-then_do Lawful 9 (finish_order s id) finished (finish_order-Within F s id))
  ]

  pub pool-AllWithin :
      (s : Service) (reqs : List Request) → AllWithin {R = Reply F} Lawful 9 (map (handle s) reqs)
  pool-AllWithin s [] = tt
  pool-AllWithin s (r ∷ rs) = (handle-Within s r, pool-AllWithin s rs)
