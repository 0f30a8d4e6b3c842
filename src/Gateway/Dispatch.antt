-- ===== src/Gateway/Dispatch.antt =====
-- Which handler a request gets from the router.
use system_design_homework.Prelude.{
  String, ◌≡◌, refl, subst, true, false, Option, none, some, List, [], ◌∷◌, ◌==◌, Bool-cases, inl,
  inr, eq_iff, if◌then◌else◌,
}
use system_design_homework.Result.{Result, ok, err}
use system_design_homework.Program.{ret}
use system_design_homework.Pricing.{Float64}
use system_design_homework.Generated.{Texts, Route, param_error_text, invalid_param_format}
use system_design_homework.Wire.{get}
use system_design_homework.Logger.{Request, write, write_header}
use system_design_homework.Orders.Service.{Service}
use system_design_homework.Handler.Orders.{
  post_orders, get_orders_order_id, post_orders_order_id_finish,
}
use system_design_homework.Handler.Offers.{post_offers}
use system_design_homework.Gateway.{handler_from_mux}
use system_design_homework.Gateway.Server.{
  Codec, Answer, writing, orders_task, offers_task, http_error, main_routes, health, server_of,
}
use system_design_homework.Gateway.Router.{
  pieces, route_path, is_known, is_clean, fits, IsRouter, one_route, no_route, Misses, none_either,
  other_piece,
}

-- What the description of the client service has under a path.
pub data Endpoint : Type 0 where
  health_check offers orders : Endpoint
  order finish : String → Endpoint

abbrev pub endpoint : List String → Option Endpoint
endpoint [] = none
endpoint (a ∷ []) =
    if "health" == a
    then some health_check
    else if "offers" == a
    then some offers
    else if "orders" == a
    then some orders
    else none
endpoint (a ∷ id ∷ []) = if "orders" == a then some (order id) else none
endpoint (a ∷ id ∷ c ∷ []) =
    if "orders" == a then if "finish" == c then some (finish id) else none else none
endpoint (a ∷ id ∷ c ∷ d ∷ more) = none

not_orders :
    (a : String) (xs : List String)
    → "orders" == a ≡ false
    → fits ("orders" ∷ "{order_id}" ∷ []) (a ∷ xs) ≡ none
not_orders a xs d = other_piece "orders" a ("{order_id}" ∷ []) xs refl d

not_orders_finish :
    (a : String) (xs : List String)
    → "orders" == a ≡ false
    → fits ("orders" ∷ "{order_id}" ∷ "finish" ∷ []) (a ∷ xs) ≡ none
not_orders_finish a xs d = other_piece "orders" a ("{order_id}" ∷ "finish" ∷ []) xs refl d

not_finish :
    (id c : String)
    → "finish" == c ≡ false
    → fits ("orders" ∷ "{order_id}" ∷ "finish" ∷ []) ("orders" ∷ id ∷ c ∷ []) ≡ none
not_finish id c n = rw n refl

module _ (f : Float64) (codec : Codec) (print : Texts) (bind_path : String → String → Result String)
    (s : Service) (missing refused : Answer f codec) where
  -- With the id that a path names.
  abbrev pub with_id : String → (String → Answer f codec) → Answer f codec
  with_id id handle = elim (bind_path "order_id" id) [
    | err e ↦ http_error f codec 400 (param_error_text print (invalid_param_format "order_id" e))
    | ok id' ↦ handle id'
  ]

  -- What a request is to get.
  abbrev pub due : Option Endpoint → Request → Answer f codec
  due none r = missing
  due (some health_check) r =
      if "GET" == r.method then ret (write_header 200 ∷ write "OK" ∷ []) else refused
  due (some offers) r =
      if "POST" == r.method
      then writing f codec (offers_task (post_offers f (codec.decode_offer r.body)))
      else refused
  due (some orders) r =
      if "POST" == r.method
      then writing f codec (orders_task (post_orders s (codec.decode_order r.body)))
      else refused
  due (some (order id)) r =
      if "GET" == r.method
      then with_id id (λ id'. writing f codec (orders_task (get_orders_order_id s id')))
      else refused
  due (some (finish id)) r =
      if "POST" == r.method
      then with_id id (λ id'. writing f codec (orders_task (post_orders_order_id_finish s id')))
      else refused

  abbrev pub owed : Request → Answer f codec
  owed r = due (endpoint (pieces (route_path r))) r

  module _ {mux : List (Route Request (Answer f codec)) → Request → Answer f codec}
      (is_router : IsRouter mux missing refused) (r : Request)
      (known : is_known r.method ≡ true) where
    abbrev answer : Answer f codec
    answer = mux (main_routes f codec print bind_path s) r

    abbrev Dispatched : List String → Type 0
    Dispatched xs = pieces (route_path r) ≡ xs → is_clean xs ≡ true → answer ≡ due (endpoint xs) r

    health-Dispatched : Dispatched ("health" ∷ [])
    unfolding main_routes handler_from_mux server_of health
    health-Dispatched at clean =
        one_route is_router _ r ("health" ∷ []) _ _ _ known refl at clean refl

    offers-Dispatched : Dispatched ("offers" ∷ [])
    unfolding main_routes handler_from_mux server_of health
    offers-Dispatched at clean =
        one_route is_router _ r ("offers" ∷ []) _ _ _ known refl at clean refl

    orders-Dispatched : Dispatched ("orders" ∷ [])
    unfolding main_routes handler_from_mux server_of health
    orders-Dispatched at clean =
        one_route is_router _ r ("orders" ∷ []) _ _ _ known refl at clean refl

    order-Dispatched : (id : String) → Dispatched ("orders" ∷ id ∷ [])
    unfolding main_routes handler_from_mux server_of health get
    order-Dispatched id at clean =
        one_route is_router _ r ("orders" ∷ id ∷ []) _ _ _ known refl at clean refl

    finish-Dispatched : (id : String) → Dispatched ("orders" ∷ id ∷ "finish" ∷ [])
    unfolding main_routes handler_from_mux server_of health get
    finish-Dispatched id at clean =
        one_route is_router _ r ("orders" ∷ id ∷ "finish" ∷ []) _ _ _ known refl at clean refl

    missed :
        (xs : List String)
        → endpoint xs ≡ none
        → Misses xs (main_routes f codec print bind_path s)
        → Dispatched xs
    unfolding main_routes handler_from_mux health
    missed xs unknown miss at clean =
        rw unknown (no_route is_router _ r xs known refl at clean miss)

    one-Dispatched : (a : String) → Dispatched (a ∷ [])
    unfolding main_routes handler_from_mux health
    one-Dispatched a = elim (Bool-cases ("health" == a)) [
      | inl e ↦ subst (λ x. Dispatched (x ∷ [])) ((eq_iff "health" a).0 e) health-Dispatched
      | inr h ↦ elim (Bool-cases ("offers" == a)) [
        | inl e ↦ subst (λ x. Dispatched (x ∷ [])) ((eq_iff "offers" a).0 e) offers-Dispatched
        | inr o ↦ elim (Bool-cases ("orders" == a)) [
          | inl e ↦ subst (λ x. Dispatched (x ∷ [])) ((eq_iff "orders" a).0 e) orders-Dispatched
          | inr d ↦ missed (a ∷ []) (rw (h, o, d) refl) (
            other_piece "health" a [] [] refl h,
            (
              other_piece "offers" a [] [] refl o,
              (
                other_piece "orders" a [] [] refl d,
                (not_orders a [] d, (not_orders_finish a [] d, tt)),
              ),
            ),
          )
        ]
      ]
    ]

    two-Dispatched : (a id : String) → Dispatched (a ∷ id ∷ [])
    unfolding main_routes handler_from_mux health
    two-Dispatched a id = elim (Bool-cases ("orders" == a)) [
      | inl e ↦
          subst (λ x. Dispatched (x ∷ id ∷ [])) ((eq_iff "orders" a).0 e) (order-Dispatched id)
      | inr d ↦ missed (a ∷ id ∷ []) (rw d refl) (
        none_either _,
        (
          none_either _,
          (none_either _, (not_orders a (id ∷ []) d, (not_orders_finish a (id ∷ []) d, tt))),
        ),
      )
    ]

    three-Dispatched : (a id c : String) → Dispatched (a ∷ id ∷ c ∷ [])
    unfolding main_routes handler_from_mux health
    three-Dispatched a id c = elim (Bool-cases ("orders" == a)) [
      | inl e ↦
          subst (λ x. Dispatched (x ∷ id ∷ c ∷ [])) ((eq_iff "orders" a).0 e)
            (elim (Bool-cases ("finish" == c)) [
              | inl e' ↦
                  subst (λ x. Dispatched ("orders" ∷ id ∷ x ∷ [])) ((eq_iff "finish" c).0 e')
                    (finish-Dispatched id)
              | inr n ↦
                  missed ("orders" ∷ id ∷ c ∷ []) (rw n refl)
                    (refl, (refl, (refl, (refl, (not_finish id c n, tt)))))
            ])
      | inr d ↦ missed (a ∷ id ∷ c ∷ []) (rw d refl) (
        none_either _,
        (
          none_either _,
          (
            none_either _,
            (not_orders a (id ∷ c ∷ []) d, (not_orders_finish a (id ∷ c ∷ []) d, tt)),
          ),
        ),
      )
    ]

    more-Dispatched : (a id c d : String) (more : List String) → Dispatched (a ∷ id ∷ c ∷ d ∷ more)
    unfolding main_routes handler_from_mux health
    more-Dispatched a id c d more =
        missed (a ∷ id ∷ c ∷ d ∷ more) refl
          (none_either _, (none_either _, (none_either _, (none_either _, (too_long, tt)))))
      where
        too_long : fits ("orders" ∷ "{order_id}" ∷ "finish" ∷ []) (a ∷ id ∷ c ∷ d ∷ more) ≡ none
        too_long = rw (none_either ("finish" == c)) (none_either ("orders" == a))

    pub main-Dispatched : (xs : List String) → Dispatched xs
    unfolding main_routes handler_from_mux health
    main-Dispatched [] = missed [] refl (refl, (refl, (refl, (refl, (refl, tt)))))
    main-Dispatched (a ∷ []) = one-Dispatched a
    main-Dispatched (a ∷ id ∷ []) = two-Dispatched a id
    main-Dispatched (a ∷ id ∷ c ∷ []) = three-Dispatched a id c
    main-Dispatched (a ∷ id ∷ c ∷ d ∷ more) = more-Dispatched a id c d more
