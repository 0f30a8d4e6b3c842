-- ===== src/Wire/Client.antt =====
-- client/internal/external/api_client.gen.go: how a request of the external client is built and sent.
-- A context and the response of a failed request are left out.
use Prim.Native.String.{◌++◌, slice, len}
use text.Mathlib.Text.{starts_with}
use system_design_homework.Prelude.{
  ◌-◌, String, Bool, Option, none, some, List, [], ◌∷◌, ◌==◌, if◌then◌else◌,
}
use system_design_homework.Result.{Result, ok, ◌>>=◌}
use system_design_homework.External.Client.{MoneyBody, Request}
use system_design_homework.Generated.{Values}
use system_design_homework.Wire.{add, HttpRequest, Packages}

-- `RequestEditorFn`, which may change the request.
abbrev pub Editor : Type 0 → Type 0
Editor U = HttpRequest U → Result (HttpRequest U)

pub record Client (U : Type 0) : Type 0 where
  pub server : String
  pub editors : List (Editor U)

-- `strings.HasSuffix(s, "/")`
abbrev ends_with_slash : String → Bool
ends_with_slash s = slice s (len s - 1) (len s) == "/"

-- `ClientOption`
abbrev pub ClientOption : Type 0 → Type 0
ClientOption U = Client U → Result (Client U)

module _ {U : Type 0} where
  -- `WithRequestEditorFn`
  unfoldable pub with_request_editor_fn : Editor U → ClientOption U
  with_request_editor_fn fn c = ok (record c { editors = append c.editors })
    where
      append : List (Editor U) → List (Editor U)
      append [] = fn ∷ []
      append (e ∷ es) = e ∷ append es

  -- `WithHTTPClient`; how the requests are sent is not modelled.
  unfoldable pub with_http_client : ClientOption U
  with_http_client c = ok c

  -- The loop over the options of `NewClient`.
  unfoldable pub apply_options : List (ClientOption U) → Client U → Result (Client U)
  apply_options [] c = ok c
  apply_options (o ∷ os) c = do c' ← o c; apply_options os c'

  -- `NewClient`
  unfoldable pub new_client : String → List (ClientOption U) → Result (Client U)
  unfolding apply_options
  new_client server opts = do
    c ← apply_options opts (record { server = server; editors = [] })
    ok (if ends_with_slash c.server then c else record c { server = c.server ++ "/" })

  -- `applyEditors`; no caller gives additional ones.
  unfoldable pub apply_editors : List (Editor U) → HttpRequest U → Result (HttpRequest U)
  apply_editors [] req = ok req
  apply_editors (e ∷ es) req = do req' ← e req; apply_editors es req'

-- `if operationPath[0] == '/' { operationPath = "." + operationPath }`
unfoldable pub relative : String → String
relative path = if starts_with path "/" then "." ++ path else path

-- The loops over the parsed query.
unfoldable pub add_all : Values → Values → Values
unfolding add
add_all [] vs = vs
add_all ((k, v) ∷ ps) vs = add_all ps (add k v vs)

module _ {U : Type 0} (pk : Packages U) where
  open pk use {
    parse, reread, resolve, query, text, with_raw_query, parse_query, encode, style_param,
  }

  -- `WithBaseURL`
  unfoldable pub with_base_url : String → ClientOption U
  with_base_url base c = do u ← parse base; ok (record c { server = text u })

  -- `http.NewRequest`
  unfoldable pub new_request :
      String → U → Option String → Option MoneyBody → Result (HttpRequest U)
  new_request method u content_type body = do
    u' ← reread u
    ok (record { method = method; url = u'; content_type = content_type; body = body })

  -- The address of an operation on a server.
  unfoldable pub operation_url : String → String → Result U
  unfolding relative
  operation_url server path = do site ← parse server; resolve site (relative path)

  -- The three `New…RequestWithBody`, with the body of their `New…Request`.
  unfoldable pub new_post_request : String → String → MoneyBody → Result (HttpRequest U)
  unfolding operation_url new_request
  new_post_request server path body = do
    u ← operation_url server path
    new_request "POST" u (some "application/json") (some body)

  -- `NewGetConfigsRequest`
  unfoldable pub new_get_configs_request : String → Result (HttpRequest U)
  unfolding operation_url new_request
  new_get_configs_request server = do
    u ← operation_url server "/configs"
    new_request "GET" u none none

  -- `queryURL` with the parameter "id".
  unfoldable pub with_id : String → U → Result U
  unfolding add_all
  with_id id u = do
    frag ← style_param "id" id
    parsed ← parse_query frag
    ok (with_raw_query u (encode (add_all parsed (query u))))

  -- `NewGetScooterDataRequest`, `NewGetTariffZoneDataRequest` and `NewGetUserProfileRequest`
  unfoldable pub new_get_request : String → String → String → Result (HttpRequest U)
  unfolding operation_url with_id new_request
  new_get_request server path id = do
    u ← operation_url server path
    u' ← with_id id u
    new_request "GET" u' none none

  -- The functions named, each with its path.
  abbrev pub new_post_clear_money_for_order_request : String → MoneyBody → Result (HttpRequest U)
  new_post_clear_money_for_order_request server b =
      new_post_request server "/clear-money-for-order" b

  abbrev pub new_post_hold_money_for_order_request : String → MoneyBody → Result (HttpRequest U)
  new_post_hold_money_for_order_request server b = new_post_request server "/hold-money-for-order" b

  abbrev pub new_post_unhold_money_for_order_request : String → MoneyBody → Result (HttpRequest U)
  new_post_unhold_money_for_order_request server b =
      new_post_request server "/unhold-money-for-order" b

  abbrev pub new_get_scooter_data_request : String → String → Result (HttpRequest U)
  new_get_scooter_data_request server id = new_get_request server "/scooter-data" id

  abbrev pub new_get_tariff_zone_data_request : String → String → Result (HttpRequest U)
  new_get_tariff_zone_data_request server id = new_get_request server "/tariff-zone-data" id

  abbrev pub new_get_user_profile_request : String → String → Result (HttpRequest U)
  new_get_user_profile_request server id = new_get_request server "/user-profile" id

  -- The request that each method of `Client` builds.
  unfoldable pub build : String → Request → Result (HttpRequest U)
  build server (Request.post_clear_money_for_order b) =
      new_post_clear_money_for_order_request server b
  build server (Request.post_hold_money_for_order b) =
      new_post_hold_money_for_order_request server b
  build server (Request.post_unhold_money_for_order b) =
      new_post_unhold_money_for_order_request server b
  build server (Request.get_scooter_data_with_response id) = new_get_scooter_data_request server id
  build server (Request.get_tariff_zone_data_with_response id) =
      new_get_tariff_zone_data_request server id
  build server (Request.get_user_profile_with_response id) = new_get_user_profile_request server id
  build server Request.get_configs_with_response = new_get_configs_request server

  -- What is handed to `c.Client.Do`, or the error before it.
  unfoldable pub prepared : Client U → Request → Result (HttpRequest U)
  unfolding build apply_editors
  prepared c req = do http ← build c.server req; apply_editors c.editors http
