-- ===== src/Handler/Finished.antt =====
-- `PostOrdersOrderIdFinish` against every environment.
use system_design_homework.Prelude.{
  ◌≡◌, refl, ◌⊎◌, inl, inr, Bool-cases, ◌==◌, String, true, Option, none, some, is_some, List, [],
}
use system_design_homework.Result.{
  Error, message, wrapped, unexpected_status, err_offer_not_found, err_offer_expired,
  err_offer_already_used, err_invalid_user, err_order_not_active, err_no_such_order,
  err_scooters_unavailable, err_zone_unavailable,
}
use system_design_homework.Program.{run, watch}
use system_design_homework.Program.Every.{Every, Every-run, Every-then_do, Every-mono}
use system_design_homework.Api.{Order}
use system_design_homework.Orders.Calls.{Call, Reply}
use system_design_homework.Orders.Service.{Service, Returned, finish_order}
use system_design_homework.Orders.Events.{Event, note}
use system_design_homework.Orders.Finish.{Fits, finish_order-Every}
use system_design_homework.Handler.{Response, order}
use system_design_homework.Handler.Orders.{finished, finish_error, post_orders_order_id_finish}

abbrev pub IsError : Response → Type 0
IsError resp = (resp.status ≡ 400) ⊎ (resp.status ≡ 409) ⊎ (resp.status ≡ 500)

-- The response to a request, with the events.
abbrev pub Answers : String → Response → List Event → Type 0
Answers id resp es =
    ((resp.status ≡ 200) × ((o : Option Order) × (resp.body ≡ order o) × Fits id (o, none) es))
    ⊎ (IsError resp × ((es ≡ []) ⊎ ((r : Returned) × (is_some r.1 ≡ true) × Fits id r es)))

finish_error-IsError : (e : Error) → IsError (finish_error e)
finish_error-IsError err_no_such_order = inl refl
finish_error-IsError err_order_not_active = inr (inl refl)
finish_error-IsError (message m) = inr (inr refl)
finish_error-IsError (wrapped m e) = inr (inr refl)
finish_error-IsError (unexpected_status m n) = inr (inr refl)
finish_error-IsError err_offer_not_found = inr (inr refl)
finish_error-IsError err_offer_expired = inr (inr refl)
finish_error-IsError err_offer_already_used = inr (inr refl)
finish_error-IsError err_invalid_user = inr (inr refl)
finish_error-IsError err_scooters_unavailable = inr (inr refl)
finish_error-IsError err_zone_unavailable = inr (inr refl)

answered :
    (id : String) (r : Returned) (es : List Event) → Fits id r es → Answers id (finished r) es
answered id (o, none) es h = inl (refl, (o, refl, h))
answered id (o, some e) es h = inr (finish_error-IsError e, inr ((o, some e), refl, h))

module _ (F : Type 0) where
  finish-Every :
      (s : Service) (id : String)
      → Every (note F) (Answers id) [] (post_orders_order_id_finish s id)
  unfolding post_orders_order_id_finish
  finish-Every s id = elim (Bool-cases (id == "")) [
    | inl e ↦ rw e (inr (inl refl, inl refl))
    | inr e ↦ rw e (
        Every-then_do (note F) (Answers id) _ (finish_order s id) [] (
          Every-mono (note F) (Fits id) _ (finish_order s id) [] (answered id)
            (finish_order-Every F s id)))
  ]

  -- Against every environment, the answer to the finish of a ride is 200 only if one charge of the
  -- order was tried, the release of the deposit was requested exactly if the charge went through,
  -- and the update that records this succeeded. Any other answer is 400, 409 or 500; behind it
  -- either nothing was charged and nothing updated, or the calls are those of a run of `FinishOrder`
  -- that returned an error.
  pub finish-Answers :
      {W : Type 0} (h : (c : Call) → W → Reply F c × W) (s : Service) (id : String) (w : W)
      → let out = run (watch (note F) h) (post_orders_order_id_finish s id) (w, []) in
        Answers id out.0 out.1.1
  finish-Answers h s id w =
      Every-run (note F) h (Answers id) (post_orders_order_id_finish s id) w [] (finish-Every s id)
