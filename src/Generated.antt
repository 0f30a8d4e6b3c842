-- ===== src/Generated.antt =====
-- What github.com/oapi-codegen writes alike into client/api/api.gen.go and external/api/api.gen.go:
-- the errors of parameters, the middlewares of a wrapper, and the options of a server. The requests
-- and the answers are those of each server.
use Prim.Native.String.{◌++◌}
use system_design_homework.Prelude.{ℕ, String, Option, none, some, List, [], ◌∷◌}
use system_design_homework.Result.{Error}

-- `url.Values` and the parameters of a route, as their entries in order.
abbrev pub Values : Type 0
Values = List (String × String)

-- The errors that a wrapper may hand to `ErrorHandlerFunc`.
pub data ParamError : Type 0 where
  unescaped_cookie_param unmarshaling_param required_header : String → Error → ParamError
  required_param : String → ParamError
  invalid_param_format : String → Error → ParamError
  too_many_values_for_param : String → ℕ → ParamError

-- What `fmt` prints of a cause and of a number.
pub record Texts : Type 0 where
  pub cause : Error → String
  pub decimal : ℕ → String

-- `Error`
unfoldable pub param_error_text : Texts → ParamError → String
param_error_text print (unescaped_cookie_param name e) =
    "error unescaping cookie parameter '" ++ (name ++ "'")
param_error_text print (unmarshaling_param name e) =
    "Error unmarshaling parameter " ++ (name ++ (" as JSON: " ++ print.cause e))
param_error_text print (required_header name e) =
    "Header parameter " ++ (name ++ " is required, but not found")
param_error_text print (required_param name) =
    "Query argument " ++ (name ++ " is required, but not found")
param_error_text print (invalid_param_format name e) =
    "Invalid format for parameter " ++ (name ++ (": " ++ print.cause e))
param_error_text print (too_many_values_for_param name count) =
    "Expected one value for " ++ (name ++ (", got " ++ print.decimal count))

-- `Unwrap`, where there is one.
unfoldable pub unwrap : ParamError → Option Error
unwrap (unescaped_cookie_param name e) = some e
unwrap (unmarshaling_param name e) = some e
unwrap (required_header name e) = some e
unwrap (required_param name) = none
unwrap (invalid_param_format name e) = some e
unwrap (too_many_values_for_param name count) = none

abbrev pub Middleware : Type 0 → Type 0 → Type 0
Middleware Q A = (Q → A) → Q → A

-- `ServerInterfaceWrapper` of an interface `S`.
pub record Wrapper (S Q A : Type 0) : Type 0 where
  pub handler : S
  pub middlewares : List (Middleware Q A)
  pub error_handler : ParamError → Q → A

-- `ChiServerOptions`, without the router.
pub record Options (Q A : Type 0) : Type 0 where
  pub base_url : String
  pub middlewares : List (Middleware Q A)
  pub error_handler : Option (ParamError → Q → A)

-- A route of the router: its method, its pattern and its handler.
pub record Route (Q A : Type 0) : Type 0 where
  pub method : String
  pub pattern : String
  pub handler : Q → A

module _ {Q A : Type 0} where
  -- `for _, middleware := range siw.HandlerMiddlewares { handler = middleware(handler) }`
  unfoldable pub with_middlewares : List (Middleware Q A) → (Q → A) → Q → A
  with_middlewares [] handler = handler
  with_middlewares (m ∷ ms) handler = with_middlewares ms (m handler)

  -- The wrapper that `HandlerWithOptions` makes, where `http_error` writes the default answer.
  abbrev pub wrapper_of : {S : Type 0} → Texts → (ℕ → String → A) → S → Options Q A → Wrapper S Q A
  wrapper_of print http_error si options = record {
    handler = si;
    middlewares = options.middlewares;
    error_handler = elim options.error_handler [
      | none ↦ λ e r. http_error 400 (param_error_text print e)
      | some handle ↦ handle
    ];
  }
