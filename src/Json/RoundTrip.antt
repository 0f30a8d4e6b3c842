-- ===== src/Json/RoundTrip.antt =====
-- What is stored in Redis as JSON is read back as it was.
use system_design_homework.Prelude.{◌≡◌, refl, arith}
use system_design_homework.Result.{ok}
use system_design_homework.Api.{
  Offer, Order, OrderStatus, active, cancelled, finished, payment_failed,
}
use system_design_homework.Json.{
  marshal_offer, unmarshal_offer, marshal_order, unmarshal_order, status_text, parse_status,
}

-- Every offer is read back from its JSON as it was written.
pub unmarshal-marshal_offer : (o : Offer) → unmarshal_offer (marshal_offer o) ≡ ok o
unfolding marshal_offer unmarshal_offer
unmarshal-marshal_offer o = ground arith

parse_status-text : (s : OrderStatus) → parse_status (status_text s) ≡ ok s
unfolding parse_status status_text
parse_status-text active = refl
parse_status-text cancelled = refl
parse_status-text finished = refl
parse_status-text payment_failed = refl

-- Every order is read back from its JSON as it was written, whichever of its pointers are nil.
pub unmarshal-marshal_order : (o : Order) → unmarshal_order (marshal_order o) ≡ ok o
unfolding marshal_order unmarshal_order
unmarshal-marshal_order o = ground (arith, parse_status-text o.status)

-- Every offer and every order are read back from their JSON as they were written, whichever of
-- their pointers are nil.
pub unmarshal-marshal :
    (offer : Offer) (order : Order)
    → (unmarshal_offer (marshal_offer offer) ≡ ok offer)
      × (unmarshal_order (marshal_order order) ≡ ok order)
unmarshal-marshal offer order = (unmarshal-marshal_offer offer, unmarshal-marshal_order order)
