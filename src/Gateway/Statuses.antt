-- ===== src/Gateway/Statuses.antt =====
-- Every handler sets a status, and sets it once, whatever the services reply.
use system_design_homework.Prelude.{
  String, ◌≡◌, refl, Bool, Bool-cases, true, false, inl, inr, Option, none, some, List, eqb, ◌==◌,
  if◌then◌else◌,
}
use system_design_homework.Result.{
  Error, Result, ok, err, err_offer_not_found, err_no_such_order, err_scooters_unavailable,
}
use system_design_homework.Program.{Prog, ret, call, then_do}
use system_design_homework.Program.Always.{Always, Always-then_do, Always-all}
use system_design_homework.Api.{Order, Offer}
use system_design_homework.Pricing.{Float64}
use system_design_homework.Generated.{Texts, param_error_text, invalid_param_format}
use system_design_homework.Logger.{Request, Op}
use system_design_homework.Logger.Through.{sets_once}
use system_design_homework.Orders.Calls.{Reply as OrdersReply}
use system_design_homework.Orders.Service.{Service, Returned, create_order, get_order, finish_order}
use system_design_homework.Orders.Values.{CreateOrderRequest}
use system_design_homework.Offers.Calls.{Reply as OffersReply}
use system_design_homework.Offers.Service.{CreateOfferRequest, create_offer}
use system_design_homework.Handler.{Response, Body}
use system_design_homework.Handler.Orders.{
  post_orders, get_orders_order_id, post_orders_order_id_finish, created, create_error, loaded,
  finished, finish_error,
}
use system_design_homework.Handler.Offers.{post_offers, offered, offer_error}
use system_design_homework.Gateway.Server.{
  Reply, Codec, Answer, writes, writing, orders_task, offers_task, http_error,
}
use system_design_homework.Gateway.Dispatch.{
  Endpoint, health_check, offers, orders, order, finish, due, with_id,
}

-- A response with a status.
abbrev HasStatus : Response → Type 0
HasStatus a = eqb a.status 0 ≡ false

created-HasStatus : (r : Result Order) → HasStatus (created r)
created-HasStatus (ok o) = refl
created-HasStatus (err e) = error e
  where
    error : (e : Error) → HasStatus (create_error e)
    error err_offer_not_found = refl
    error _ = refl

loaded-HasStatus : (r : Result (Option Order)) → HasStatus (loaded r)
loaded-HasStatus (ok (some o)) = refl
loaded-HasStatus (ok none) = refl
loaded-HasStatus (err e) = refl

finished-HasStatus : (r : Returned) → HasStatus (finished r)
finished-HasStatus (o, none) = refl
finished-HasStatus (o, some e) = error e
  where
    error : (e : Error) → HasStatus (finish_error e)
    error err_no_such_order = refl
    error _ = refl

offered-HasStatus : (r : Result Offer) → HasStatus (offered r)
offered-HasStatus (ok o) = refl
offered-HasStatus (err e) = error e
  where
    error : (e : Error) → HasStatus (offer_error e)
    error err_scooters_unavailable = refl
    error _ = refl

-- What is made of any result has a status.
abbrev Answers : {C : Type 0} {R : C → Type 0} → Prog R Response → Type 0
Answers p = Always HasStatus p

made-Answers :
    {C A : Type 0} {R : C → Type 0} (f : A → Response) (p : Prog R A)
    → ((a : A) → HasStatus (f a))
    → Answers (then_do (λ a. ret (f a)) p)
made-Answers f p has =
    Always-then_do (λ a. Unit {0}) HasStatus (λ a. ret (f a)) p (λ a u. has a)
      (Always-all (λ a. Unit {0}) p (λ a. tt))

-- A check in front.
checked-Answers :
    {C : Type 0} {R : C → Type 0} (b : Bool) (a : Response) (p : Prog R Response)
    → HasStatus a
    → Answers p
    → Answers (if b then ret a else p)
checked-Answers true a p has rest = has
checked-Answers false a p has rest = rest

post_orders-Answers :
    (F : Type 0) (s : Service) (req : Result CreateOrderRequest)
    → Answers {R = OrdersReply F} (post_orders s req)
unfolding post_orders
post_orders-Answers F s (err e) = refl
post_orders-Answers F s (ok req) = checked-Answers (req.order_id == "") _ _ refl (
    checked-Answers (req.offer_id == "") _ _ refl (
      checked-Answers (req.user_id == "") _ _ refl
        (made-Answers created (create_order s req) created-HasStatus)))

get-Answers :
    (F : Type 0) (s : Service) (id : String)
    → Answers {R = OrdersReply F} (get_orders_order_id s id)
unfolding get_orders_order_id
get-Answers F s id =
    checked-Answers (id == "") _ _ refl (made-Answers loaded (get_order s id) loaded-HasStatus)

finish-Answers :
    (F : Type 0) (s : Service) (id : String)
    → Answers {R = OrdersReply F} (post_orders_order_id_finish s id)
unfolding post_orders_order_id_finish
finish-Answers F s id =
    checked-Answers (id == "") _ _ refl
      (made-Answers finished (finish_order s id) finished-HasStatus)

post_offers-Answers :
    (f : Float64) (req : Result CreateOfferRequest)
    → Answers {R = OffersReply f.F} (post_offers f req)
unfolding post_offers
post_offers-Answers f (err e) = refl
post_offers-Answers f (ok req) = checked-Answers (req.user_id == "") _ _ refl (
    checked-Answers (req.scooter_id == "") _ _ refl
      (made-Answers offered (create_offer f (some req)) offered-HasStatus))

-- A program of one of the services sets its status once.
abbrev pub SetsOnce : List Op → Type 0
SetsOnce ops = sets_once ops ≡ true

writes-SetsOnce : (print : Body → String) (a : Response) → HasStatus a → SetsOnce (writes print a)
unfolding writes
writes-SetsOnce print a has = elim (Bool-cases (eqb a.status 200)) [
  | inl e ↦ rw e refl
  | inr e ↦ rw e (rw has refl)
]

module _ (f : Float64) (codec : Codec) where
  writing-SetsOnce :
      (p : Prog (Reply f.F) Response) → Answers p → Always SetsOnce (writing f codec p)
  writing-SetsOnce p has =
      Always-then_do HasStatus SetsOnce (λ a. ret (writes codec.print a)) p
        (writes-SetsOnce codec.print) has

  orders-Answers :
      (p : Prog (OrdersReply f.F) Response) → Answers p → Answers (orders_task {F = f.F} p)
  orders-Answers (ret a) e = e
  orders-Answers (call c k) e = λ r. orders-Answers (k r) (e r)

  offers-Answers :
      (p : Prog (OffersReply f.F) Response) → Answers p → Answers (offers_task {F = f.F} p)
  offers-Answers (ret a) e = e
  offers-Answers (call c k) e = λ r. offers-Answers (k r) (e r)

  module _ (print : Texts) (bind_path : String → String → Result String) (s : Service)
      (missing refused : List Op) (missing_once : SetsOnce missing)
      (refused_once : SetsOnce refused) where
    unless_refused :
        (b : Bool) (p : Answer f codec)
        → Always SetsOnce p
        → Always SetsOnce (if b then p else ret refused)
    unless_refused true p e = e
    unless_refused false p e = refused_once

    id-SetsOnce :
        (id : String) (p : String → Answer f codec)
        → ((id' : String) → Always SetsOnce (p id'))
        → Always SetsOnce (with_id f codec print bind_path s (ret missing) (ret refused) id p)
    id-SetsOnce id p e = known (bind_path "order_id" id)
      where
        known :
            (b : Result String)
            → Always SetsOnce (elim b [
              | err x ↦
                  http_error f codec 400
                    (param_error_text print (invalid_param_format "order_id" x))
              | ok id' ↦ p id'
            ])
        known (err x) = refl
        known (ok id') = e id'

    pub due-SetsOnce :
        (e : Option Endpoint) (r : Request)
        → Always SetsOnce (due f codec print bind_path s (ret missing) (ret refused) e r)
    due-SetsOnce none r = missing_once
    due-SetsOnce (some health_check) r = unless_refused ("GET" == r.method) _ refl
    due-SetsOnce (some offers) r =
        unless_refused ("POST" == r.method) _ (
          writing-SetsOnce _ (offers-Answers _ (post_offers-Answers f (codec.decode_offer r.body))))
    due-SetsOnce (some orders) r = unless_refused ("POST" == r.method) _ (
        writing-SetsOnce _
          (orders-Answers _ (post_orders-Answers f.F s (codec.decode_order r.body))))
    due-SetsOnce (some (order id)) r =
        unless_refused ("GET" == r.method) _
          (id-SetsOnce id _ (λ id'. writing-SetsOnce _ (orders-Answers _ (get-Answers f.F s id'))))
    due-SetsOnce (some (finish id)) r =
        unless_refused ("POST" == r.method) _ (
          id-SetsOnce id _
            (λ id'. writing-SetsOnce _ (orders-Answers _ (finish-Answers f.F s id'))))
