-- ===== src/Gateway/Served.antt =====
-- The client service as a whole: the middlewares, the router and the handlers.
use system_design_homework.Prelude.{
  ℕ, String, ◌≡◌, refl, sym, ap, subst, ◌∙◌, true, Option, none, some, List, [],
}
use system_design_homework.Result.{Result}
use system_design_homework.Program.{ret, run}
use system_design_homework.Program.Always.{Always-run}
use system_design_homework.Api.{Time}
use system_design_homework.Json.{Object}
use system_design_homework.Pricing.{Float64}
use system_design_homework.Generated.{Texts, Route, Middleware}
use system_design_homework.Logger.{Request, Op}
use system_design_homework.Logger.Through.{in_order, sent_status, is_readable, logger-passes}
use system_design_homework.Orders.Service.{Service}
use system_design_homework.Gateway.Server.{
  Call, Reply, Codec, Answer, main_routes, Logged, client_service,
}
use system_design_homework.Gateway.Router.{IsRouter, pieces, route_path, is_known, is_clean}
use system_design_homework.Gateway.Dispatch.{
  Endpoint, endpoint, health_check, offers, orders, order, finish, due, owed, main-Dispatched,
}
use system_design_homework.Gateway.Statuses.{SetsOnce, due-SetsOnce}

-- What the middlewares of github.com/go-chi/chi/v5/middleware do with a request that is handled
-- without a panic: two of them note something in it.
pub record IsStack {A : Type 0} (request_id real_ip recoverer : Middleware Request A) : Type 0 where
  pub id_of : Request → String
  pub ip_of : Request → String
  pub tags :
      (next : Request → A) (r : Request)
      → request_id next r ≡ next (record r { request_id = id_of r })
  pub finds :
      (next : Request → A) (r : Request)
      → real_ip next r ≡ next (record r { remote_addr = ip_of r })
  pub passes : (next : Request → A) (r : Request) → recoverer next r ≡ next r

-- A refusal of the router.
abbrev pub Refuses : ℕ → List Op → Type 0
Refuses status ops = (sent_status ops ≡ status) × SetsOnce ops

module _ (f : Float64) (codec : Codec) (print : Texts) (bind_path : String → String → Result String)
    (s : Service) (missing refused : List Op) (is_missing : Refuses 404 missing)
    (is_refused : Refuses 405 refused)
    (mux : List (Route Request (Answer f codec)) → Request → Answer f codec)
    (is_router : IsRouter mux (ret missing) (ret refused)) (time_text : Time → String)
    (decode : String → Result Object)
    (request_id real_ip recoverer : Middleware Request (Logged f codec))
    (is_stack : IsStack request_id real_ip recoverer) where
  open is_stack use {id_of, ip_of, tags, finds, passes}

  due_noted :
      (e : Option Endpoint) (r : Request) (id ip : String)
      → due f codec print bind_path s
          (ret missing)
          (ret refused)
          e
          (record r { request_id = id; remote_addr = ip })
        ≡ due f codec print bind_path s (ret missing) (ret refused) e r
  due_noted none r id ip = refl
  due_noted (some health_check) r id ip = refl
  due_noted (some offers) r id ip = refl
  due_noted (some orders) r id ip = refl
  due_noted (some (order id')) r id ip = refl
  due_noted (some (finish id')) r id ip = refl

  module _ {W : Type 0} (h : (c : Call f.F) → W → Reply f.F c × W) (w : W) (duration : ℕ) where
    abbrev routed : Request → List Op
    routed q = (run h (mux (main_routes f codec print bind_path s) q) w).0

    -- Over the middlewares, the router and the generated server, where these packages do as
    -- documented and no handler panics: a request whose body can be read, whose method is
    -- one of the nine that chi knows and whose path, in its raw form where it has one, has no empty
    -- piece gets exactly the writes of the handler that the description has for its method and path
    -- (the health check, offers, a new order, an order, the end of a ride), run in the same world.
    -- The id of an order is the piece of the path as the runtime package decodes it; where it does
    -- not, the answer is 400. Another path gets the router's 404, and another method its 405. The
    -- logged status is the one that the client gets.
    pub client_service-owed :
        (r : Request)
        → is_readable r.body ≡ true
        → is_known r.method ≡ true
        → is_clean (pieces (route_path r)) ≡ true
        → let out =
            client_service f codec time_text decode request_id real_ip recoverer mux
              (main_routes f codec print bind_path s)
              h
              w
              duration
              r in
          let ops = (run h (owed f codec print bind_path s (ret missing) (ret refused) r) w).0 in
          (in_order out.0.passed [] ≡ ops) × (out.0.status_code ≡ sent_status ops)
    unfolding client_service
    client_service-owed r readable known clean =
        let r1 : Request = record r { request_id = id_of r } in
        let q : Request = record r1 { remote_addr = ip_of r1 } in
        let dispatched : mux (main_routes f codec print bind_path s) q
            ≡ owed f codec print bind_path s (ret missing) (ret refused) r =
          main-Dispatched f codec print bind_path s (ret missing) (ret refused) is_router q known
            (pieces (route_path r)) refl clean
          ∙ due_noted (endpoint (pieces (route_path r))) r (id_of r) (ip_of r1) in
        let logged = logger-passes time_text decode routed q duration readable in
        let once : SetsOnce
            (run h (owed f codec print bind_path s (ret missing) (ret refused) r) w).0 =
          Always-run h SetsOnce (owed f codec print bind_path s (ret missing) (ret refused) r) w (
            due-SetsOnce f codec print bind_path s missing refused is_missing.1 is_refused.1
              (endpoint (pieces (route_path r))) r) in
        let same : routed q
            ≡ (run h (owed f codec print bind_path s (ret missing) (ret refused) r) w).0 =
          ap (λ p. (run h p w).0) dispatched in
        let fits : SetsOnce (routed q) = subst SetsOnce (sym same) once in
        rw (tags, finds, passes) (logged.0 ∙ same, (logged.2 fits).0 ∙ ap sent_status same)
