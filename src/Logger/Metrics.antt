-- ===== src/Logger/Metrics.antt =====
-- What the logger takes from the JSON of the responses.
use system_design_homework.Prelude.{
  String, ◌≡◌, refl, ap, ◌∙◌, false, [], ◌∷◌, arith, ◌==◌, some, none,
}
use system_design_homework.Result.{ok}
use system_design_homework.Api.{
  Time, Offer, Order, OrderStatus, active, cancelled, finished, payment_failed,
}
use system_design_homework.Json.{text, Object, member, marshal_offer, marshal_order, status_text}
use system_design_homework.Logger.{as_string, extract_response_metrics, named, named_by_id}

-- The members that the logger asks for.
order-members :
    (o : Order)
    → (member "id" (marshal_order o) ≡ some (text o.id))
      × (member "order_id" (marshal_order o) ≡ none)
      × (member "expires_at" (marshal_order o) ≡ none)
      × (member "user_id" (marshal_order o) ≡ some (text o.user_id))
      × (member "status" (marshal_order o) ≡ some (text (status_text o.status)))
unfolding member marshal_order
order-members o = (ground arith, ground arith, ground arith, ground arith, ground arith)

status_text-given : (s : OrderStatus) → status_text s == "" ≡ false
unfolding status_text
status_text-given active = refl
status_text-given cancelled = refl
status_text-given finished = refl
status_text-given payment_failed = refl

module _ (time_text : Time → String) where
  named-text :
      (k : String) (obj : Object) (v : String)
      → member k obj ≡ some (text v)
      → v == "" ≡ false
      → named time_text k obj ≡ some v
  unfolding named
  named-text k obj v there given = ap (as_string time_text) there ∙ rw given refl

  named-none : (k : String) (obj : Object) → member k obj ≡ none → named time_text k obj ≡ none
  unfolding named
  named-none k obj missing = ap (as_string time_text) missing

  order-metrics :
      (order : Order)
      → order.id == "" ≡ false
      → order.user_id == "" ≡ false
      → extract_response_metrics time_text (ok (marshal_order order))
        ≡ ("order_id", order.id)
          ∷ ("user_id", order.user_id)
          ∷ ("order_status", status_text order.status)
          ∷ []
  unfolding extract_response_metrics named_by_id
  order-metrics order c d =
      let (by_id, by_order, expires, user, status) = order-members order in
      let obj = marshal_order order in
      ground (
        arith,
        named-text "id" obj order.id by_id c,
        named-none "order_id" obj by_order,
        expires,
        named-text "user_id" obj order.user_id user d,
        named-text "status" obj (status_text order.status) status (status_text-given order.status),
      )

  -- From the JSON of an offer and of an order, none of whose ids is empty, the logger takes the id of
  -- the offer as an offer's, the id of the order as an order's, the user, and the status of the order.
  pub metrics-marshal :
      (offer : Offer) (order : Order)
      → offer.id == "" ≡ false
      → offer.user_id == "" ≡ false
      → order.id == "" ≡ false
      → order.user_id == "" ≡ false
      → (extract_response_metrics time_text (ok (marshal_offer offer))
          ≡ ("offer_id", offer.id) ∷ ("user_id", offer.user_id) ∷ [])
        × (extract_response_metrics time_text (ok (marshal_order order))
            ≡ ("order_id", order.id)
              ∷ ("user_id", order.user_id)
              ∷ ("order_status", status_text order.status)
              ∷ [])
  unfolding extract_response_metrics named named_by_id member marshal_offer
  metrics-marshal offer order a b c d = (ground arith, order-metrics order c d)
