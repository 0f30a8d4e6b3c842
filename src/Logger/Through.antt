-- ===== src/Logger/Through.antt =====
-- The logger changes nothing of the response, and logs its status.

use system_design_homework.Prelude.{
  ℕ, String, ◌≡◌, refl, ap, Bool, true, false, List, [], ◌∷◌, arith, eqb, leb, if◌then◌else◌,
}
use system_design_homework.Result.{Result}
use system_design_homework.Api.{Time}
use system_design_homework.Json.{Object}
use system_design_homework.Logger.{
  Op, Body, no_body, bytes, broken, restored, write_header, write, LoggingResponseWriter, wrote,
  wrote_all, completed, Request, request_logger_with_body,
}

-- The writes in the order in which they were made.
abbrev pub in_order : List Op → List Op → List Op
in_order [] later = later
in_order (op ∷ ops) later = in_order ops (op ∷ later)

-- What a client gets: the first status, or 200.
abbrev pub sent_status : List Op → ℕ
sent_status [] = 200
sent_status (write_header code ∷ ops) = code
sent_status (write b ∷ ops) = 200

-- Only writes of the body.
abbrev pub no_header : List Op → Bool
no_header [] = true
no_header (write_header code ∷ ops) = false
no_header (write b ∷ ops) = no_header ops

-- A handler that sets a status first, if at all, and only once, and writes something.
abbrev pub sets_once : List Op → Bool
sets_once [] = false
sets_once (write_header code ∷ ops) = if eqb code 0 then false else no_header ops
sets_once (write b ∷ ops) = no_header ops

pub passed-in_order :
    (ops : List Op) (lrw : LoggingResponseWriter)
    → in_order (wrote_all ops lrw).passed [] ≡ in_order lrw.passed ops
unfolding wrote_all wrote
passed-in_order [] lrw = refl
passed-in_order (write_header code ∷ ops) lrw = passed-in_order ops _
passed-in_order (write b ∷ ops) lrw = passed-in_order ops _

status-kept :
    (ops : List Op) (lrw : LoggingResponseWriter)
    → no_header ops ≡ true
    → eqb lrw.status_code 0 ≡ false
    → (wrote_all ops lrw).status_code ≡ lrw.status_code
unfolding wrote_all wrote
status-kept [] lrw plain set = refl
status-kept (write_header code ∷ ops) lrw plain set = absurd (ground (arith, plain))
status-kept (write b ∷ ops) lrw plain set = ground (arith, status-kept ops (wrote (write b) lrw))

pub status-sent :
    (ops : List Op)
    → sets_once ops ≡ true
    → (wrote_all ops (record { status_code = 0; body = ""; passed = [] })).status_code
      ≡ sent_status ops
unfolding wrote_all wrote
status-sent [] once = absurd (ground (arith, once))
status-sent (write_header code ∷ ops) once =
    status-kept ops _ (ground (arith, once)) (ground (arith, once))
status-sent (write b ∷ ops) once = status-kept ops _ once refl

abbrev pub is_readable : Body → Bool
is_readable (broken s) = false
is_readable _ = true

restored-readable :
    (r : Request) → is_readable r.body ≡ true → record r { body = restored r.body } ≡ r
restored-readable r readable = ap (λ b. record r { body = b }) (same_body r.body readable)
  where
    same_body : (b : Body) → is_readable b ≡ true → restored b ≡ b
    same_body no_body h = refl
    same_body (bytes s) h = refl
    same_body (broken s) h = absurd (ground (arith, h))

module _ (time_text : Time → String) (decode : String → Result Object) where
  pub logger-passes :
      (next : Request → List Op) (r : Request) (duration : ℕ)
      → is_readable r.body ≡ true
      → let out = request_logger_with_body time_text decode next r duration in
        (in_order out.0.passed [] ≡ next r)
        × (next r ≡ [] → (out.0.status_code ≡ 0) × (sent_status (next r) ≡ 200))
        × (sets_once (next r) ≡ true
            → (out.0.status_code ≡ sent_status (next r))
              × (out.1.1.msg ≡ (
                  if leb 500 (sent_status (next r))
                  then "HTTP request failed"
                  else if leb 400 (sent_status (next r))
                  then "HTTP request client error"
                  else "HTTP request completed")))
  unfolding request_logger_with_body completed wrote_all
  logger-passes next r duration readable =
      let same : record r { body = restored r.body } ≡ r = restored-readable r readable in
      rw same (
        passed-in_order (next r) (record { status_code = 0; body = ""; passed = [] }),
        λ silent. rw silent (refl, refl),
        λ once. (status-sent (next r) once, rw (status-sent (next r) once) refl),
      )
