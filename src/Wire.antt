-- ===== src/Wire.antt =====
-- The HTTP between the client service and the external service: what the generated client and the
-- generated server of their OpenAPI description use of Go's net/url and net/http, of the router
-- github.com/go-chi/chi/v5 and of github.com/oapi-codegen/runtime.
pub mod Client
pub mod Server
pub mod Network
pub mod Sent
pub mod Transparent
mod Tests
use system_design_homework.Prelude.{String, Option, none, some, List, [], ◌∷◌, ◌==◌, if◌then◌else◌}
use system_design_homework.Result.{Result}
use system_design_homework.Generated.{Values}
use system_design_homework.External.Client.{MoneyBody}

-- `Values.Get`: the first value of a key, or the empty text.
unfoldable pub get : String → Values → String
get k [] = ""
get k ((k', v) ∷ vs) = if k' == k then v else get k vs

-- `Values.Add`
unfoldable pub add : String → String → Values → Values
add k v [] = (k, v) ∷ []
add k v (x ∷ vs) = x ∷ add k v vs

-- An `http.Request` of the client, with what its body holds before it is written as JSON.
pub record HttpRequest (U : Type 0) : Type 0 where
  pub method : String
  pub url : U
  pub content_type : Option String
  pub body : Option MoneyBody

-- The same request where it has arrived: `r.Method`, `r.URL.Path`, `r.URL.Query()` and the body.
pub record Arrived : Type 0 where
  pub method : String
  pub path : String
  pub query : Values
  pub body : Option MoneyBody

-- The functions of other packages, where `U` is the type of a parsed address.
pub record Packages (U : Type 0) : Type 0 where
  -- `url.Parse`, and what `http.NewRequest` reads of the text of an address.
  pub parse : String → Result U
  pub reread : U → Result U
  -- `(*URL).Parse`, `(*URL).Query`, `(*URL).String`, `(*URL).Path`, and the address with another
  -- `RawQuery`.
  pub resolve : U → String → Result U
  pub query : U → Values
  pub text : U → String
  pub path : U → String
  pub with_raw_query : U → String → U
  -- `url.ParseQuery` and `Values.Encode`
  pub parse_query : String → Result Values
  pub encode : Values → String
  -- `runtime.StyleParamWithLocation("form", true, name, query, value)` and
  -- `runtime.BindQueryParameter("form", true, true, name, query, &value)`
  pub style_param : String → String → Result String
  pub bind_param : String → Values → Result String
