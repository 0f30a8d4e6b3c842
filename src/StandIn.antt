-- ===== src/StandIn.antt =====
-- external/main.go: how the service that stands in for the scooters, zones, users and payments starts,
-- and the middleware that logs each of its requests. A request is as the middlewares of chi hand it
-- on. The routes of external/api are a parameter; Wire/Server is about them. How net/http writes a
-- duration and how the entry is printed are not modelled.
pub mod Served
mod Tests
use Prim.Native.String.{◌++◌}
use system_design_homework.Prelude.{ℕ, String, List, [], ◌∷◌, ◌==◌, ◌&&◌, if◌then◌else◌}
use system_design_homework.Result.{Result, ok, err, context}
use system_design_homework.Program.{Prog, ret, call, then_do}
use system_design_homework.Startup.{Exit, fatal, returned}
use system_design_homework.Logger.{
  Op, write_header, write, Request, LoggingResponseWriter, wrote_all, truncated,
}
use system_design_homework.Mock.{Storage, Files, new_storage, load_from_json_files}

-- What `log.Printf` is given; the duration is in nanoseconds.
pub record Entry : Type 0 where
  pub method : String
  pub path : String
  pub status : ℕ
  pub duration : ℕ
  pub remote : String
  pub query : String
  pub response : String

-- The writer behind a request, and the entry.
abbrev pub Handler : Type 0
Handler = Request → ℕ → LoggingResponseWriter × Entry

-- `loggingResponseWriter` behind the writes of a handler. Its methods are those of the writer of the
-- client service, line for line.
abbrev pub written : List Op → LoggingResponseWriter
written ops = wrote_all ops (record { status_code = 0; body = ""; passed = [] })

-- `RequestLoggerWithBody`
unfoldable pub request_logger_with_body : (Request → List Op) → Handler
unfolding truncated
request_logger_with_body next r duration =
    let lrw = written (next r) in
    (
      lrw,
      record {
        method = r.method;
        path = r.path;
        status = lrw.status_code;
        duration = duration;
        remote = r.remote_addr;
        query = r.raw_query;
        response = truncated 2000 lrw.body;
      },
    )

pub data Call : Type 0 where
  getenv : String → Call
  listen_and_serve : String → Handler → Call

abbrev pub Reply : Call → Type 0
Reply (getenv key) = String
Reply (listen_and_serve addr handler) = Result (Unit {0})

-- `getEnv`
unfoldable pub get_env : String → String → Prog Reply String
get_env key default = call (getenv key) (λ value. ret (if value == "" then default else value))

module _ {F : Type 0} where
  -- `NewServer`
  unfoldable pub new_server : Files F → Result (Storage F)
  new_server files = context "failed to load data" (load_from_json_files files new_storage)

  module _ (routes : Storage F → Request → List Op) where
    -- The router with the health check.
    unfoldable pub routed : Storage F → Request → List Op
    routed s r =
        if (r.method == "GET") && (r.path == "/health")
        then write_header 200 ∷ write "OK" ∷ []
        else routes s r

    abbrev pub serve_requests : Storage F → String → Prog Reply Exit
    serve_requests s port =
        call (listen_and_serve (":" ++ port) (request_logger_with_body (routed s))) (λ served.
          elim served [ err e ↦ ret (fatal "Failed to start server" e) | ok _ ↦ ret returned ])

    abbrev pub with_server : Result (Storage F) → Prog Reply Exit
    with_server (err e) = ret (fatal "Failed to initialize server" e)
    with_server (ok s) = then_do (serve_requests s) (get_env "PORT" "8081")

    -- `main`
    unfoldable pub main_of : Files F → Prog Reply Exit
    unfolding get_env
    main_of files = with_server (new_server files)
