-- ===== src/Json/Tests.antt =====
-- The theorem on JSON at concrete inputs.
use system_design_homework.Prelude.{◌≡◌}
use system_design_homework.Result.{ok}
use system_design_homework.Json.{marshal_offer, unmarshal_offer, marshal_order, unmarshal_order}
use system_design_homework.Json.RoundTrip.{unmarshal-marshal}
use system_design_homework.Orders.Samples.{offer_1, order_2}

unmarshal-marshal_example :
    (unmarshal_offer (marshal_offer offer_1) ≡ ok offer_1)
    × (unmarshal_order (marshal_order order_2) ≡ ok order_2)
unmarshal-marshal_example = unmarshal-marshal offer_1 order_2
