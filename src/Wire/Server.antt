-- ===== src/Wire/Server.antt =====
-- external/api/api.gen.go: the generated server of the external service, and external/main.go: the
-- handlers that it is given. Its router, github.com/go-chi/chi/v5, is a parameter of Transparent.antt.
use Prim.Native.String.{◌++◌}
use system_design_homework.Prelude.{
  ℕ, String, Bool, false, none, some, List, [], ◌∷◌, ◌==◌, if◌then◌else◌,
}
use system_design_homework.Result.{Result, ok, err}
use system_design_homework.External.{ScooterData, TariffZone, UserProfile}
use system_design_homework.External.Client.{Http, ConfigMap, MoneyBody}
use system_design_homework.Mock.{
  Storage, serve_scooter, serve_zone, serve_profile, serve_configs, serve_hold, serve_payment,
}
use system_design_homework.Generated.{
  Values, Texts, Wrapper, Options, Route, required_param, invalid_param_format, param_error_text,
  with_middlewares, wrapper_of,
}
use system_design_homework.Wire.{Arrived, get}

-- `ServerInterface`; the parameter object of a handler is its one field.
pub record ServerInterface (A : Type 0) : Type 0 where
  pub post_clear_money_for_order : Arrived → A
  pub get_configs : Arrived → A
  pub post_hold_money_for_order : Arrived → A
  pub get_scooter_data : String → Arrived → A
  pub get_tariff_zone_data : String → Arrived → A
  pub post_unhold_money_for_order : Arrived → A
  pub get_user_profile : String → Arrived → A

module _ {A : Type 0} where
  module _ (bind_param : String → Values → Result String)
      (siw : Wrapper (ServerInterface A) Arrived A) where
    -- A wrapper with the required query parameter "id".
    unfoldable pub with_query_id : (String → Arrived → A) → Arrived → A
    unfolding with_middlewares
    with_query_id handler r =
        if get "id" r.query == ""
        then siw.error_handler (required_param "id") r
        else elim (bind_param "id" r.query) [
          | err e ↦ siw.error_handler (invalid_param_format "id" e) r
          | ok id ↦ with_middlewares siw.middlewares (handler id) r
        ]

    -- The seven wrappers, as `HandlerWithOptions` registers them under a base address.
    unfoldable pub routes : String → List (Route Arrived A)
    unfolding with_middlewares with_query_id
    routes base =
        record {
          method = "POST";
          pattern = base ++ "/clear-money-for-order";
          handler = with_middlewares siw.middlewares siw.handler.post_clear_money_for_order;
        }
        ∷ record {
          method = "GET";
          pattern = base ++ "/configs";
          handler = with_middlewares siw.middlewares siw.handler.get_configs;
        }
        ∷ record {
          method = "POST";
          pattern = base ++ "/hold-money-for-order";
          handler = with_middlewares siw.middlewares siw.handler.post_hold_money_for_order;
        }
        ∷ record {
          method = "GET";
          pattern = base ++ "/scooter-data";
          handler = with_query_id siw.handler.get_scooter_data;
        }
        ∷ record {
          method = "GET";
          pattern = base ++ "/tariff-zone-data";
          handler = with_query_id siw.handler.get_tariff_zone_data;
        }
        ∷ record {
          method = "POST";
          pattern = base ++ "/unhold-money-for-order";
          handler = with_middlewares siw.middlewares siw.handler.post_unhold_money_for_order;
        }
        ∷ record {
          method = "GET";
          pattern = base ++ "/user-profile";
          handler = with_query_id siw.handler.get_user_profile;
        }
        ∷ []

-- The body of a response before it is written as JSON, or a text.
pub data Body (F : Type 0) : Type 0 where
  empty : Body F
  plain : String → Body F
  scooter : ScooterData → Body F
  zone : TariffZone → Body F
  profile : UserProfile → Body F
  configs : ConfigMap F → Body F
  hold : String × Bool → Body F
  done : Body F

pub record Answer (F : Type 0) : Type 0 where
  pub status : ℕ
  pub is_json : Bool
  pub body : Body F

module _ {F : Type 0} where
  -- `http.Error`
  abbrev pub http_error : ℕ → String → Answer F
  http_error status text = record { status = status; is_json = false; body = plain text }

  -- `HandlerWithOptions`: its default error handler, and the routes.
  unfoldable pub handler_with_options :
      Texts
      → (String → Values → Result String)
      → ServerInterface (Answer F)
      → Options Arrived (Answer F)
      → List (Route Arrived (Answer F))
  unfolding param_error_text routes
  handler_with_options print bind_param si options =
      routes bind_param (wrapper_of print http_error si options) options.base_url

  -- `HandlerFromMux`
  unfoldable pub handler_from_mux :
      Texts
      → (String → Values → Result String)
      → ServerInterface (Answer F)
      → List (Route Arrived (Answer F))
  unfolding handler_with_options
  handler_from_mux print bind_param si =
      handler_with_options print bind_param si
        (record { base_url = ""; middlewares = []; error_handler = none })

  -- A typed response as it is written.
  abbrev pub written : {A : Type 0} → (A → Body F) → Http A → Answer F
  written json http = record {
    status = http.status;
    is_json = http.is_json;
    body = elim http.body [ err e ↦ empty | ok a ↦ json a ];
  }

  -- A payment handler decodes the body before all else.
  abbrev pub decoded : (MoneyBody → Answer F) → Arrived → Answer F
  decoded handle r = elim r.body [
    | none ↦ http_error 400 "Invalid request body"
    | some b ↦ handle b
  ]

  -- The methods of `Server` of external/main.go.
  unfoldable pub server_of : Storage F → ServerInterface (Answer F)
  server_of s = record {
    post_clear_money_for_order = decoded (λ b. written (λ u. done) (serve_payment b));
    get_configs = λ r. written configs (serve_configs s);
    post_hold_money_for_order = decoded (λ b. written hold (serve_hold b));
    get_scooter_data = λ id r. written scooter (serve_scooter s id);
    get_tariff_zone_data = λ id r. written zone (serve_zone s id);
    post_unhold_money_for_order = decoded (λ b. written (λ u. done) (serve_payment b));
    get_user_profile = λ id r. written profile (serve_profile s id);
  }
