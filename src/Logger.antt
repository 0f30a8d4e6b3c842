-- ===== src/Logger.antt =====
-- client/internal/helpers/request_logger.go: the middleware that logs each request. A request body
-- is read as a whole; a handler is the writes that it makes of its response. The length of a text is
-- that of its bytes, and a cut does not divide a character here.
pub mod Through
pub mod Metrics
mod Tests
use Prim.Native.String.{◌++◌, slice, len}
use system_design_homework.Prelude.{
  ℕ, String, true, false, Option, none, some, is_some, List, [], ◌∷◌, ltb, leb, eqb, not, ◌==◌,
  if◌then◌else◌,
}
use system_design_homework.Result.{Result, ok, err}
use system_design_homework.Api.{Time}
use system_design_homework.Json.{Value, null, number, text, stamp, Object, member}

-- The calls that a handler makes of its `http.ResponseWriter`.
pub data Op : Type 0 where
  write_header : ℕ → Op
  write : String → Op

-- `loggingResponseWriter`, with what it has passed on, newest first.
pub record LoggingResponseWriter : Type 0 where
  pub status_code : ℕ
  pub body : String
  pub passed : List Op

-- `WriteHeader` and `Write`
unfoldable pub wrote : Op → LoggingResponseWriter → LoggingResponseWriter
wrote (write_header code) lrw = record lrw {
  status_code = code;
  passed = write_header code ∷ lrw.passed;
}
wrote (write b) lrw = record {
  status_code = if eqb lrw.status_code 0 then 200 else lrw.status_code;
  body = lrw.body ++ b;
  passed = write b ∷ lrw.passed;
}

unfoldable pub wrote_all : List Op → LoggingResponseWriter → LoggingResponseWriter
unfolding wrote
wrote_all [] lrw = lrw
wrote_all (op ∷ ops) lrw = wrote_all ops (wrote op lrw)

-- `r.Body`: nil, a text, or a stream that fails behind a text.
pub data Body : Type 0 where
  no_body : Body
  bytes broken : String → Body

-- What is left of the body for the handler: a text that could be read is put back.
abbrev pub restored : Body → Body
restored no_body = no_body
restored (bytes s) = bytes s
restored (broken s) = broken ""

pub record Request : Type 0 where
  pub method : String
  pub path : String
  -- `URL.RawPath`, which is set where the path as it was sent is not the default encoding.
  pub raw_path : String
  pub raw_query : String
  pub remote_addr : String
  pub user_agent : String
  pub request_id : String
  pub order_id : String
  pub body : Body

-- The fields of a log entry, in order.
pub data Field : Type 0 where
  str : String → Field
  int : ℕ → Field
  -- A number of nanoseconds, written as milliseconds.
  millis : ℕ → Field

abbrev pub Fields : Type 0
Fields = List (String × Field)

pub record Entry : Type 0 where
  pub fields : Fields
  pub msg : String

abbrev pub with_field : String → Field → Fields → Fields
with_field k v [] = (k, v) ∷ []
with_field k v (f ∷ fs) = f ∷ with_field k v fs

-- `if v != "" { logEvent = logEvent.Str(k, v) }`
abbrev pub with_text : String → String → Fields → Fields
with_text k v fs = if v == "" then fs else with_field k (str v) fs

-- The strings of a map of metrics.
abbrev pub Strings : Type 0
Strings = List (String × String)

abbrev pub with_strings : Strings → Fields → Fields
with_strings [] fs = fs
with_strings ((k, v) ∷ m) fs = with_strings m (with_field k (str v) fs)

unfoldable pub truncated : ℕ → String → String
truncated max s = if ltb max (len s) then slice s 0 max ++ "...(truncated)" else s

-- A time is written as a string.
module _ (time_text : Time → String) where
  -- A string that is there and is not empty.
  abbrev pub as_string : Option Value → Option String
  as_string (some (text s)) = if s == "" then none else some s
  as_string (some (stamp t)) = if time_text t == "" then none else some (time_text t)
  as_string _ = none

  -- `data[k].(string)`
  unfoldable pub named : String → Object → Option String
  named k obj = as_string (member k obj)

  abbrev pub entry_of : String → Option String → Strings → Strings
  entry_of k none rest = rest
  entry_of k (some v) rest = (k, v) ∷ rest

  -- `extractBusinessMetrics`, of what the body is decoded to.
  unfoldable pub extract_business_metrics : Result Object → Strings
  unfolding named
  extract_business_metrics (err e) = []
  extract_business_metrics (ok obj) = entry_of "user_id" (named "user_id" obj) (
      entry_of "order_id" (named "order_id" obj) (
        entry_of "offer_id" (named "offer_id" obj)
          (entry_of "scooter_id" (named "scooter_id" obj) [])))

  -- What the "id" of a response names.
  unfoldable pub named_by_id : Object → Strings → Strings
  unfolding named
  named_by_id obj rest = elim (named "id" obj) [
    | none ↦ rest
    | some id ↦ elim (named "order_id" obj) [
      | some order_id ↦ ("order_id", order_id) ∷ rest
      | none ↦ (if is_some (member "expires_at" obj) then "offer_id" else "order_id", id) ∷ rest
    ]
  ]

  -- `extractResponseMetrics`
  unfoldable pub extract_response_metrics : Result Object → Strings
  unfolding named named_by_id
  extract_response_metrics (err e) = []
  extract_response_metrics (ok obj) =
      named_by_id obj
        (entry_of "user_id" (named "user_id" obj) (entry_of "order_status" (named "status" obj) []))

  -- `json.Unmarshal` into a map is given.
  module _ (decode : String → Result Object) where
    abbrev pub request_metrics : Body → Strings
    request_metrics no_body = []
    request_metrics (broken s) = []
    request_metrics (bytes s) = if s == "" then [] else extract_business_metrics (decode s)

    abbrev pub body_field : Body → Fields → Fields
    body_field no_body fs = fs
    body_field (broken s) fs = fs
    body_field (bytes s) fs = if s == "" then fs else with_text "request_body" (truncated 1000 s) fs

    -- The entry before the handler.
    unfoldable pub started : Request → Entry
    unfolding truncated extract_business_metrics
    started r =
        let fs =
          ("event", str "request_start")
          ∷ ("method", str r.method)
          ∷ ("path", str r.path)
          ∷ ("remote_addr", str r.remote_addr)
          ∷ ("user_agent", str r.user_agent)
          ∷ [] in
        let fs = with_text "query" r.raw_query (with_text "request_id" r.request_id fs) in
        let fs = if r.path == "" then fs else with_text "order_id" r.order_id fs in
        record {
          fields = body_field r.body (with_strings (request_metrics r.body) fs);
          msg = "HTTP request started";
        }

    abbrev pub error_fields : LoggingResponseWriter → Fields → Fields
    error_fields lrw fs =
        if leb 400 lrw.status_code
        then with_text "error_response" (truncated 500 lrw.body)
            (with_field "error_code" (int lrw.status_code) (with_field "level" (str "error") fs))
        else fs

    -- The entry behind the handler; the duration is in nanoseconds.
    unfoldable pub completed : Request → LoggingResponseWriter → ℕ → Entry
    unfolding truncated extract_business_metrics extract_response_metrics
    completed r lrw duration =
        let fs =
          ("event", str "request_complete")
          ∷ ("method", str r.method)
          ∷ ("path", str r.path)
          ∷ ("status_code", int lrw.status_code)
          ∷ ("duration_ms", millis duration)
          ∷ ("duration", int duration)
          ∷ ("remote_addr", str r.remote_addr)
          ∷ [] in
        let fs = with_strings (request_metrics r.body) (with_text "request_id" r.request_id fs) in
        let fs = with_strings (extract_response_metrics (decode lrw.body)) fs in
        record {
          fields = error_fields lrw fs;
          msg =
              if leb 500 lrw.status_code
              then "HTTP request failed"
              else if leb 400 lrw.status_code
              then "HTTP request client error"
              else "HTTP request completed";
        }

    -- `RequestLoggerWithBody`: the writer behind the handler, and the two entries.
    unfoldable pub request_logger_with_body :
        (Request → List Op) → Request → ℕ → LoggingResponseWriter × (Entry × Entry)
    unfolding wrote_all started completed
    request_logger_with_body next r duration =
        let lrw =
          wrote_all (next (record r { body = restored r.body }))
            (record { status_code = 0; body = ""; passed = [] }) in
        (lrw, (started r, completed r lrw duration))
