-- ===== src/Handler/Created.antt =====
-- `PostOrders` against every environment: what a status says of the payments.
use system_design_homework.Prelude.{
  ◌≡◌, refl, ◌⊎◌, inl, inr, Bool-cases, ◌==◌, String, true, false, some, List, [], ◌∷◌, arith,
}
use system_design_homework.Result.{
  Error, Result, ok, err, message, wrapped, unexpected_status, err_offer_not_found,
  err_offer_expired, err_offer_already_used, err_invalid_user, err_order_not_active,
  err_no_such_order, err_scooters_unavailable, err_zone_unavailable,
}
use system_design_homework.Program.{run, watch}
use system_design_homework.Program.Every.{Every, Every-run, Every-then_do, Every-mono}
use system_design_homework.Api.{Order}
use system_design_homework.Orders.Calls.{Call, Reply}
use system_design_homework.Orders.Service.{Service, create_order}
use system_design_homework.Orders.Values.{CreateOrderRequest}
use system_design_homework.Orders.Events.{Event, marked, held, stored, released}
use system_design_homework.Orders.Create.{Fits, note, is_refusal, create_order-Every}
use system_design_homework.Handler.{Response, order}
use system_design_homework.Handler.Orders.{created, post_orders}

-- The response to a request, with the events.
abbrev pub Answers : CreateOrderRequest → Response → List Event → Type 0
Answers req resp es =
    ((resp.status ≡ 201) × ((o : Order) × (resp.body ≡ order (some o)) × Fits req (ok o) es))
    ⊎ ((resp.status ≡ 500) × ((e : Error) × Fits req (err e) es))
    ⊎ ((resp.status ≡ 400) × ((es ≡ []) ⊎ ((id : String) × (es ≡ marked id false ∷ []))))

-- A refusal made no payment.
quiet :
    (req : CreateOrderRequest) (e : Error) (es : List Event)
    → is_refusal e ≡ true
    → Fits req (err e) es
    → (es ≡ []) ⊎ ((id : String) × (es ≡ marked id false ∷ []))
quiet req e [] r h = inl refl
quiet req e (marked id d ∷ []) r h = inr (id, rw h.0 refl)
quiet req e (held x c ∷ marked id d ∷ []) r h = absurd (ground (arith, h.0))
quiet req e (released id' a ∷ stored o b ∷ held x c ∷ marked id d ∷ []) r h =
    absurd (ground (arith, h.0))
quiet req e _ r h = absurd h

refused :
    (req : CreateOrderRequest) (e : Error) (es : List Event)
    → Fits req (err e) es
    → Answers req (created (err e)) es
refused req err_offer_not_found es h = inr (inr (refl, quiet req err_offer_not_found es refl h))
refused req err_offer_expired es h = inr (inr (refl, quiet req err_offer_expired es refl h))
refused req err_offer_already_used es h =
    inr (inr (refl, quiet req err_offer_already_used es refl h))
refused req err_invalid_user es h = inr (inr (refl, quiet req err_invalid_user es refl h))
refused req (message m) es h = inr (inl (refl, (message m, h)))
refused req (wrapped m e) es h = inr (inl (refl, (wrapped m e, h)))
refused req (unexpected_status m n) es h = inr (inl (refl, (unexpected_status m n, h)))
refused req err_order_not_active es h = inr (inl (refl, (err_order_not_active, h)))
refused req err_no_such_order es h = inr (inl (refl, (err_no_such_order, h)))
refused req err_scooters_unavailable es h = inr (inl (refl, (err_scooters_unavailable, h)))
refused req err_zone_unavailable es h = inr (inl (refl, (err_zone_unavailable, h)))

answered :
    (req : CreateOrderRequest) (r : Result Order) (es : List Event)
    → Fits req r es
    → Answers req (created r) es
answered req (ok o) es h = inl (refl, (o, refl, h))
answered req (err e) es h = refused req e es h

module _ (F : Type 0) where
  post_orders-Every :
      (s : Service) (req : CreateOrderRequest)
      → Every (note F) (Answers req) [] (post_orders s (ok req))
  unfolding post_orders
  post_orders-Every s req = elim (Bool-cases (req.order_id == "")) [
    | inl e ↦ rw e (inr (inr (refl, inl refl)))
    | inr e ↦ rw e (elim (Bool-cases (req.offer_id == "")) [
      | inl e' ↦ rw e' (inr (inr (refl, inl refl)))
      | inr e' ↦ rw e' (elim (Bool-cases (req.user_id == "")) [
        | inl e'' ↦ rw e'' (inr (inr (refl, inl refl)))
        | inr e'' ↦ rw e'' (
            Every-then_do (note F) (Answers req) _ (create_order s req) [] (
              Every-mono (note F) (Fits req) _ (create_order s req) [] (answered req)
                (create_order-Every F s req)))
      ])
    ])
  ]

  -- Against every environment, `PostOrders` answers a decoded request with 201 and an order that
  -- the repository had under the requested id or that was stored with its deposit on hold; with 400, and then no payment was asked
  -- for and it did not mark the offer as used; or with 500, and then the release of a hold that was
  -- granted has been requested.
  pub post_orders-Answers :
      {W : Type 0} (h : (c : Call) → W → Reply F c × W) (s : Service) (req : CreateOrderRequest)
      (w : W)
      → let out = run (watch (note F) h) (post_orders s (ok req)) (w, []) in
        Answers req out.0 out.1.1
  post_orders-Answers h s req w =
      Every-run (note F) h (Answers req) (post_orders s (ok req)) w [] (post_orders-Every s req)
