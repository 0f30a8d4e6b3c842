-- ===== src/Orders/Create.antt =====
-- `CreateOrder` against every environment: what it has asked of the offers, the payment service
-- and the repository when it returns.
use system_design_homework.Prelude.{
  ◌≡◌, refl, inl, inr, Bool-cases, ltb, ◌==◌, Bool, true, false, none, some, List, [], ◌∷◌, arith,
}
use system_design_homework.Result.{
  Error, Result, ok, err, err_offer_not_found, err_offer_expired, err_offer_already_used,
  err_invalid_user,
}
use system_design_homework.Program.{run, watch}
use system_design_homework.Program.Every.{Every, Every-run}
use system_design_homework.Api.{Offer, Order, active}
use system_design_homework.External.{PaymentHoldRequest}
use system_design_homework.Orders.Calls.{Call, Reply}
use system_design_homework.Orders.Service.{Service, order_from_offer, create_order}
use system_design_homework.Orders.Values.{CreateOrderRequest}
use system_design_homework.Orders.Events.{
  Event, marked, held, stored, released, existing, note as changes,
}

-- The order is the one that the request asks for, and is new.
abbrev pub IsNew : CreateOrderRequest → Order → Type 0
IsNew req o =
    (o.id ≡ req.order_id)
    × (o.offer_id ≡ req.offer_id)
    × (o.user_id ≡ req.user_id)
    × (o.status ≡ active)
    × (o.current_amount ≡ o.price_unlock)
    × (o.finish_time ≡ none)

-- The hold is for the requested order and user, over the deposit of the order.
abbrev pub IsDeposit : CreateOrderRequest → Order → PaymentHoldRequest → Type 0
IsDeposit req o r =
    (r.order_id ≡ req.order_id) × (r.user_id ≡ req.user_id) × (o.deposit ≡ some r.amount)

-- The errors that name a fault of the request; `PostOrders` answers them with 400.
abbrev pub is_refusal : Error → Bool
is_refusal err_offer_not_found = true
is_refusal err_offer_expired = true
is_refusal err_offer_already_used = true
is_refusal err_invalid_user = true
is_refusal _ = false

-- The events of a `CreateOrder`: besides the others, an order that the repository has.
abbrev pub note : (F : Type 0) (c : Call) → Reply F c → List Event → List Event
note F (Call.get_order_by_id id) (ok (some o)) es = existing id o ∷ es
note F c r es = changes F c r es

-- The events, newest first, that go with each result of `CreateOrder`.
abbrev pub Fits : CreateOrderRequest → Result Order → List Event → Type 0
Fits req (ok o) (existing id o' ∷ []) = (o ≡ o') × (id ≡ req.order_id)
Fits req (ok o) (stored o' b ∷ held r c ∷ marked id d ∷ []) =
    (b ≡ true)
    × (c ≡ true)
    × (d ≡ true)
    × (o ≡ o')
    × (id ≡ req.offer_id)
    × IsNew req o
    × IsDeposit req o r
Fits req (err e) [] = Unit {0}
Fits req (err e) (marked id d ∷ []) = (d ≡ false) × (id ≡ req.offer_id)
Fits req (err e) (held r c ∷ marked id d ∷ []) =
    (is_refusal e ≡ false)
    × (c ≡ false)
    × (d ≡ true)
    × (id ≡ req.offer_id)
    × (r.order_id ≡ req.order_id)
    × (r.user_id ≡ req.user_id)
Fits req (err e) (released id' a ∷ stored o b ∷ held r c ∷ marked id d ∷ []) =
    (is_refusal e ≡ false)
    × (b ≡ false)
    × (c ≡ true)
    × (d ≡ true)
    × (id' ≡ req.order_id)
    × (id ≡ req.offer_id)
    × IsNew req o
    × IsDeposit req o r
Fits _ _ _ = ⊥

module _ (F : Type 0) where
  order_from_offer-Fits :
      (s : Service) (req : CreateOrderRequest) (offer : Offer)
      → Every (note F) (Fits req) [] (order_from_offer s req offer)
  unfolding order_from_offer
  order_from_offer-Fits s req offer = λ t. elim (Bool-cases (ltb offer.expires_at t)) [
    | inl e ↦ rw e tt
    | inr e ↦ rw e (elim (Bool-cases (offer.user_id == req.user_id)) [
      | inl e' ↦ rw e' (elim [
        | err x ↦ (refl, refl)
        | ok false ↦ (refl, refl)
        | ok true ↦ elim [
          | err x ↦ (refl, refl, refl, refl, refl, refl)
          | ok resp ↦ elim (Bool-cases resp.success) [
            | inl granted ↦ rw granted (λ start. elim [
              | err x ↦ λ r. (ground arith)
              | ok u ↦ elim (Bool-cases s.cache) [
                | inl with_cache ↦ rw with_cache (λ r. ground arith)
                | inr without ↦ rw without (ground arith)
              ]
            ])
            | inr refused ↦ rw refused ((refl, refl, refl, refl, refl, refl))
          ]
        ]
      ])
      | inr e' ↦ rw e' tt
    ])
  ]

  pub create_order-Every :
      (s : Service) (req : CreateOrderRequest) → Every (note F) (Fits req) [] (create_order s req)
  unfolding create_order
  create_order-Every s req = elim (Bool-cases (req.order_id == "")) [
    | inl e ↦ rw e tt
    | inr e ↦ rw e (elim [
      | err x ↦ tt
      | ok (some o) ↦ (refl, refl)
      | ok none ↦ elim [
        | err x ↦ tt
        | ok none ↦ tt
        | ok (some offer) ↦ order_from_offer-Fits s req offer
      ]
    ])
  ]

  -- Against every environment, the events of `CreateOrder` fit its result. A returned order is one
  -- that the repository had under the requested id, and then nothing else was done, or a new one, for the request, stored after its offer was
  -- marked as used and its deposit was held. Behind an error, either no hold was granted, or the
  -- order could not be stored and the release of the hold was requested. A deposit is asked for only
  -- after the offer was marked for this request, and from then on no error is one of the four that
  -- name a fault of the request.
  pub create_order-Fits :
      {W : Type 0} (h : (c : Call) → W → Reply F c × W) (s : Service) (req : CreateOrderRequest)
      (w : W)
      → let out = run (watch (note F) h) (create_order s req) (w, []) in Fits req out.0 out.1.1
  create_order-Fits h s req w =
      Every-run (note F) h (Fits req) (create_order s req) w [] (create_order-Every s req)
