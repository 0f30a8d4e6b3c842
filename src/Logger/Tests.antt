-- ===== src/Logger/Tests.antt =====
-- The theorems on the logger at concrete inputs.
use system_design_homework.Prelude.{String, ◌≡◌, refl, List, [], ◌∷◌}
use system_design_homework.Result.{Result, ok, err, message}
use system_design_homework.Api.{Time}
use system_design_homework.Json.{Object, marshal_offer, marshal_order, status_text}
use system_design_homework.Orders.Samples.{offer_1, order_2}
use system_design_homework.Logger.{
  Op, write_header, write, bytes, Request, extract_response_metrics,
}
use system_design_homework.Logger.Metrics.{metrics-marshal}

abbrev time_text : Time → String
time_text t = "1970-01-01T00:00:00Z"

abbrev decode : String → Result Object
decode s = err (message "invalid character")

abbrev refuse : Request → List Op
refuse r = write_header 400 ∷ write "Offer expired" ∷ []

abbrev request : Request
request = record {
  method = "POST";
  path = "/orders";
  raw_path = "";
  raw_query = "";
  remote_addr = "10.0.0.1:5000";
  user_agent = "app";
  request_id = "r-1";
  order_id = "";
  body = bytes "{}";
}

metrics-marshal_example :
    (extract_response_metrics time_text (ok (marshal_offer offer_1))
      ≡ ("offer_id", "offer-1") ∷ ("user_id", "u1") ∷ [])
    × (extract_response_metrics time_text (ok (marshal_order order_2))
        ≡ ("order_id", "order-2")
          ∷ ("user_id", "u1")
          ∷ ("order_status", status_text order_2.status)
          ∷ [])
metrics-marshal_example = metrics-marshal time_text offer_1 order_2 refl refl refl refl
