-- ===== src/Gateway.antt =====
-- client/api/api.gen.go: the generated server of the client service. A request is one of the logger's;
-- its `order_id` is what `chi.URLParam(r, "order_id")` gives at the time. The router,
-- github.com/go-chi/chi/v5, and `runtime.BindStyledParameterWithOptions` are parameters.
pub mod Server
pub mod Router
pub mod Dispatch
pub mod Statuses
pub mod Served
mod Tests
use Prim.Native.String.{◌++◌}
use mathlib.Core.List.{◌++◌ as ◌followed_by◌}
use system_design_homework.Prelude.{ℕ, String, Option, none, some, List, [], ◌∷◌}
use system_design_homework.Result.{Result, ok, err}
use system_design_homework.Generated.{
  Texts, Wrapper, Options, Route, invalid_param_format, with_middlewares, wrapper_of,
}
use system_design_homework.Logger.{Request}

-- `ServerInterface`
pub record ServerInterface (A : Type 0) : Type 0 where
  pub post_offers : Request → A
  pub post_orders : Request → A
  pub get_orders_order_id : String → Request → A
  pub post_orders_order_id_finish : String → Request → A

module _ {A : Type 0} where
  -- `Unimplemented`, where an answer without a body is made of its status.
  unfoldable pub unimplemented : (ℕ → A) → ServerInterface A
  unimplemented status = record {
    post_offers = λ r. status 501;
    post_orders = λ r. status 501;
    get_orders_order_id = λ id r. status 501;
    post_orders_order_id_finish = λ id r. status 501;
  }

  module _ (bind_path : String → String → Result String)
      (siw : Wrapper (ServerInterface A) Request A) where
    -- A wrapper with the path parameter "order_id".
    unfoldable pub with_order_id : (String → Request → A) → Request → A
    unfolding with_middlewares
    with_order_id handler r = elim (bind_path "order_id" r.order_id) [
      | err e ↦ siw.error_handler (invalid_param_format "order_id" e) r
      | ok id ↦ with_middlewares siw.middlewares (handler id) r
    ]

    -- The four wrappers, as `HandlerWithOptions` registers them under a base address.
    unfoldable pub routes : String → List (Route Request A)
    unfolding with_middlewares with_order_id
    routes base =
        record {
          method = "POST";
          pattern = base ++ "/offers";
          handler = with_middlewares siw.middlewares siw.handler.post_offers;
        }
        ∷ record {
          method = "POST";
          pattern = base ++ "/orders";
          handler = with_middlewares siw.middlewares siw.handler.post_orders;
        }
        ∷ record {
          method = "GET";
          pattern = base ++ "/orders/{order_id}";
          handler = with_order_id siw.handler.get_orders_order_id;
        }
        ∷ record {
          method = "POST";
          pattern = base ++ "/orders/{order_id}/finish";
          handler = with_order_id siw.handler.post_orders_order_id_finish;
        }
        ∷ []

  module _ (print : Texts) (http_error : ℕ → String → A)
      (bind_path : String → String → Result String) where
    -- `HandlerWithOptions`; a router is the routes that it has, and nil is a new one.
    unfoldable pub handler_with_options :
        ServerInterface A
        → Option (List (Route Request A))
        → Options Request A
        → List (Route Request A)
    unfolding routes
    handler_with_options si base_router options =
        let own = routes bind_path (wrapper_of print http_error si options) options.base_url in
        elim base_router [ none ↦ own | some there ↦ there followed_by own ]

    -- `HandlerFromMuxWithBaseURL`, `HandlerFromMux` and `Handler`
    unfoldable pub handler_from_mux_with_base_url :
        ServerInterface A → List (Route Request A) → String → List (Route Request A)
    unfolding handler_with_options
    handler_from_mux_with_base_url si r base =
        handler_with_options si (some r)
          (record { base_url = base; middlewares = []; error_handler = none })

    unfoldable pub handler_from_mux :
        ServerInterface A → List (Route Request A) → List (Route Request A)
    unfolding handler_with_options
    handler_from_mux si r =
        handler_with_options si (some r)
          (record { base_url = ""; middlewares = []; error_handler = none })

    unfoldable pub handler_of : ServerInterface A → List (Route Request A)
    unfolding handler_with_options
    handler_of si =
        handler_with_options si none
          (record { base_url = ""; middlewares = []; error_handler = none })
