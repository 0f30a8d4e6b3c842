-- ===== src/Gateway/Server.antt =====
-- client/cmd/server/main.go: `Server`, which hands each request to the handlers of orders and of
-- offers, the health check, and the routes in front of which the middlewares stand.
use system_design_homework.Prelude.{String, List, [], ◌∷◌, if◌then◌else◌, eqb, ℕ}
use system_design_homework.Result.{Result}
use system_design_homework.Program.{Prog, ret, call, run, then_do}
use system_design_homework.Pricing.{Float64}
use system_design_homework.Generated.{Texts, Route, Middleware}
use system_design_homework.Logger.{
  Request, Body, Op, write_header, write, Entry, LoggingResponseWriter, request_logger_with_body,
}
use system_design_homework.Json.{Object}
use system_design_homework.Api.{Time}
use system_design_homework.Orders.Calls.{Call as OrdersCall, Reply as OrdersReply}
use system_design_homework.Orders.Service.{Service}
use system_design_homework.Orders.Values.{CreateOrderRequest}
use system_design_homework.Offers.Calls.{Call as OffersCall, Reply as OffersReply}
use system_design_homework.Offers.Service.{CreateOfferRequest}
use system_design_homework.Handler.{Response, Body as Content, text}
use system_design_homework.Handler.Orders
use system_design_homework.Handler.Offers
use system_design_homework.Gateway.{ServerInterface, handler_from_mux}

-- The calls of the two services.
pub data Call (F : Type 0) : Type 0 where
  of_orders : OrdersCall → Call F
  of_offers : OffersCall F → Call F

abbrev pub Reply : (F : Type 0) → Call F → Type 0
Reply F (of_orders c) = OrdersReply F c
Reply F (of_offers c) = OffersReply F c

module _ {F : Type 0} where
  abbrev pub orders_task : {A : Type 0} → Prog (OrdersReply F) A → Prog (Reply F) A
  orders_task (ret a) = ret a
  orders_task (call c k) = call (of_orders c) (λ r. orders_task (k r))

  abbrev pub offers_task : {A : Type 0} → Prog (OffersReply F) A → Prog (Reply F) A
  offers_task (ret a) = ret a
  offers_task (call c k) = call (of_offers c) (λ r. offers_task (k r))

-- The writes of a response: the status 200 is left to the first write of the body.
unfoldable pub writes : (Content → String) → Response → List Op
writes print a =
    if eqb a.status 200
    then write (print a.body) ∷ []
    else write_header a.status ∷ write (print a.body) ∷ []

-- How a body is written, and what the JSON decoder makes of the body of a request.
pub record Codec : Type 0 where
  pub print : Content → String
  pub decode_order : Body → Result CreateOrderRequest
  pub decode_offer : Body → Result CreateOfferRequest

module _ (f : Float64) (codec : Codec) where
  abbrev pub Answer : Type 0
  Answer = Prog (Reply f.F) (List Op)

  abbrev pub writing : Prog (Reply f.F) Response → Answer
  writing = then_do (λ a. ret (writes codec.print a))

  -- `http.Error`
  abbrev pub http_error : ℕ → String → Answer
  http_error status message = ret (write_header status ∷ write (codec.print (text message)) ∷ [])

  -- `Server`
  unfoldable pub server_of : Service → ServerInterface Answer
  unfolding writes
  server_of s = record {
    post_offers = λ r. writing (offers_task (Offers.post_offers f (codec.decode_offer r.body)));
    post_orders = λ r. writing (orders_task (Orders.post_orders s (codec.decode_order r.body)));
    get_orders_order_id = λ id r. writing (orders_task (Orders.get_orders_order_id s id));
    post_orders_order_id_finish =
        λ id r. writing (orders_task (Orders.post_orders_order_id_finish s id));
  }

  -- `router.Get("/health", ...)`
  unfoldable pub health : Route Request Answer
  health = record {
    method = "GET";
    pattern = "/health";
    handler = λ r. ret (write_header 200 ∷ write "OK" ∷ []);
  }

  -- The routes of `main`.
  unfoldable pub main_routes :
      Texts → (String → String → Result String) → Service → List (Route Request Answer)
  unfolding server_of health handler_from_mux
  main_routes print bind_path s =
      handler_from_mux print http_error bind_path (server_of s) (health ∷ [])

  -- An answer as the logger hands it on, with its two log entries.
  abbrev pub Logged : Type 0
  Logged = LoggingResponseWriter × (Entry × Entry)

  -- The router behind the middlewares of `main`, those of github.com/go-chi/chi/v5/middleware in
  -- front of the logger, in a world that answers the calls. The first middleware is the outermost.
  unfoldable pub client_service :
      (Time → String)
      → (String → Result Object)
      → (request_id real_ip recoverer : Middleware Request Logged)
      → ((List (Route Request Answer)) → Request → Answer)
      → List (Route Request Answer)
      → {W : Type 0} → ((c : Call f.F) → W → Reply f.F c × W)
      → W
      → ℕ
      → Request
      → Logged
  client_service time_text decode request_id real_ip recoverer mux rs h w duration = request_id (
      real_ip (
        recoverer (λ r.
          request_logger_with_body time_text decode (λ q. (run h (mux rs q) w).0) r duration)))
