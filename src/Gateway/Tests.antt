-- ===== src/Gateway/Tests.antt =====
-- The theorem on the client service at a concrete input: a router that does as documented, and the
-- sample environments of the two services.
use system_design_homework.Prelude.{ℕ, String, ◌≡◌, refl, Bool, false, List, [], ◌∷◌}
use system_design_homework.Result.{Result, ok, err, message}
use system_design_homework.Program.{ret, run}
use system_design_homework.Api.{Time}
use system_design_homework.Json.{Object}
use system_design_homework.Pricing.Hundredths.{hundredths}
use system_design_homework.Generated.{Texts, Values, Route, Middleware}
use system_design_homework.Wire.{get}
use system_design_homework.Logger.{Request, Op, write_header, write, no_body}
use system_design_homework.Logger.Through.{in_order, sent_status}
use system_design_homework.Orders.Samples.{request_1, service, shop}
use system_design_homework.Offers.Samples.{town, request_1 as town_request}
use system_design_homework.Gateway.Server.{
  Call, of_orders, of_offers, Reply, Codec, Answer, main_routes, Logged, client_service,
}
use system_design_homework.Gateway.Router.{route_path, IsRouter, pieces, candidates, with_method}
use system_design_homework.Gateway.Dispatch.{owed}
use system_design_homework.Gateway.Served.{IsStack, client_service-owed}

abbrev codec : Codec
codec = record {
  print = λ b. "{}";
  decode_order = λ b. ok request_1;
  decode_offer = λ b. ok town_request;
}

abbrev print : Texts
print = record { cause = λ e. "error"; decimal = λ n. "many" }

abbrev bind_path : String → String → Result String
bind_path name value = ok value

abbrev missing : List Op
missing = write_header 404 ∷ write "404 page not found" ∷ []

abbrev refused : List Op
refused = write_header 405 ∷ []

abbrev Reached : Type 0
Reached = Answer hundredths codec

abbrev known_path : List (String × ((Request → Reached) × Values)) → Reached
known_path [] = ret missing
known_path (c ∷ cs) = ret refused

abbrev first_of :
    List ((Request → Reached) × Values)
    → List (String × ((Request → Reached) × Values))
    → Request
    → Reached
first_of [] cs r = known_path cs
first_of ((h, vs) ∷ hs) cs r = h (record r { order_id = get "order_id" vs })

mux : List (Route Request Reached) → Request → Reached
mux rs r = let cs = candidates (pieces (route_path r)) rs in first_of (with_method r.method cs) cs r

mux-IsRouter : IsRouter mux (ret missing) (ret refused)
unfolding mux
mux-IsRouter = record {
  routed = λ rs r h vs known simple clean one. rw one refl;
  wrong_method = λ rs r c cs known simple clean alone there. rw (alone, there) refl;
  unknown_path = λ rs r known simple clean there. rw there refl;
}

abbrev outer : Middleware Request (Logged hundredths codec)
outer next r = next (record r { request_id = "r-1" })

abbrev middle : Middleware Request (Logged hundredths codec)
middle next r = next (record r { remote_addr = "10.0.0.1" })

abbrev inner : Middleware Request (Logged hundredths codec)
inner next r = next r

stack : IsStack outer middle inner
stack = record {
  id_of = λ r. "r-1";
  ip_of = λ r. "10.0.0.1";
  tags = λ next r. refl;
  finds = λ next r. refl;
  passes = λ next r. refl;
}

abbrev both : (c : Call ℕ) → Bool → Reply ℕ c × Bool
both (of_orders c) w = shop c w
both (of_offers c) w = ((town c tt).0, w)

abbrev time_text : Time → String
time_text t = "1970-01-01T00:00:00Z"

abbrev decode : String → Result Object
decode s = err (message "invalid character")

abbrev request : Request
request = record {
  method = "POST";
  path = "/orders/order-2/finish";
  raw_path = "";
  raw_query = "";
  remote_addr = "172.18.0.1:5000";
  user_agent = "app";
  request_id = "";
  order_id = "";
  body = no_body;
}

client_service-owed_example :
    let out =
      client_service hundredths codec time_text decode outer middle inner mux
        (main_routes hundredths codec print bind_path service)
        both
        false
        1000
        request in
    let ops =
      (run both
        (owed hundredths codec print bind_path service (ret missing) (ret refused) request)
        false).0 in
    (in_order out.0.passed [] ≡ ops) × (out.0.status_code ≡ sent_status ops)
client_service-owed_example =
    client_service-owed hundredths codec print bind_path service missing refused (refl, refl)
      (refl, refl) mux mux-IsRouter time_text decode outer middle inner stack both false 1000
      request refl refl refl
