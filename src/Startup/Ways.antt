-- ===== src/Startup/Ways.antt =====
-- Every way that `main` can take.
use Prim.Native.String.{◌++◌}
use system_design_homework.Prelude.{
  String, ◌≡◌, refl, ◌⊎◌, inl, inr, List, [], ◌∷◌, ◌==◌, if◌then◌else◌,
}
use system_design_homework.Result.{Result, ok, err}
use system_design_homework.Program.{run, watch}
use system_design_homework.Program.Every.{Every, Every-run}
use system_design_homework.Wire.Client.{new_client, with_http_client}
use system_design_homework.Startup.{
  Call, getenv, parse_config, new_pool, ping_pool, close_pool, parse_url, ping_redis, close_redis,
  start_job, stop_job, listen_and_serve, Reply, HttpServer, OrderCleanupJob, Exit, fatal, returned,
  main_of,
}

-- What a run has come to: a ping that succeeded, the job, the server, and what was closed.
pub data Event : Type 0 where
  db_up redis_up db_closed redis_closed job_stopped : Event
  job_started : OrderCleanupJob → Event
  serving : HttpServer → Event

-- The environment's PORT, and the events, newest first.
pub record Notes : Type 0 where
  pub port : String
  pub events : List Event

abbrev noted : Event → Notes → Notes
noted x n = record n { events = x ∷ n.events }

abbrev if_ok : {A : Type 0} → Result A → Event → Notes → Notes
if_ok (ok a) x n = noted x n
if_ok (err e) x n = n

abbrev pub note : (c : Call) → Reply c → Notes → Notes
note (getenv key) value n = if key == "PORT" then record n { port = value } else n
note (parse_config url) r n = n
note (new_pool cfg) r n = n
note (ping_pool d) r n = if_ok r db_up n
note close_pool r n = noted db_closed n
note (parse_url url) r n = n
note (ping_redis opts d) r n = if_ok r redis_up n
note close_redis r n = noted redis_closed n
note (start_job job) r n = noted (job_started job) n
note stop_job r n = noted job_stopped n
note (listen_and_serve srv) r n = noted (serving srv) n

-- An hourly job that removes orders of the last day and older; times are in nanoseconds.
abbrev pub daily : OrderCleanupJob
daily = record { older_than = 86400000000000; interval = 3600000000000 }

abbrev pub server_on : String → HttpServer
server_on port = record {
  addr = ":" ++ (if port == "" then "8080" else port);
  read_timeout = 15000000000;
  write_timeout = 15000000000;
  idle_timeout = 120000000000;
  max_header_bytes = 1048576;
}

-- The way to the server, newest event first.
abbrev pub way_up : String → List Event
way_up port = serving (server_on port) ∷ job_started daily ∷ redis_up ∷ db_up ∷ []

-- How far a run came, by its end.
abbrev pub Ends : Exit → Notes → Type 0
Ends (fatal text e) n =
    ((text ≡ "Failed to connect to database") × (n.events ≡ []))
    ⊎ (((text ≡ "Failed to connect to Redis") × (n.events ≡ db_up ∷ []))
        ⊎ ((text ≡ "Failed to start server") × (n.events ≡ way_up n.port)))
Ends returned n = n.events ≡ db_closed ∷ redis_closed ∷ job_stopped ∷ way_up n.port

abbrev pub fresh : Notes
fresh = record { port = ""; events = [] }

main-Every : (U : Type 0) → Every note Ends fresh (main_of U)
unfolding main_of new_client with_http_client
main-Every U = λ database external redis port. elim [
  | err e ↦ inl (refl, refl)
  | ok cfg ↦ elim [
    | err e ↦ inl (refl, refl)
    | ok u ↦ elim [
      | err e ↦ inl (refl, refl)
      | ok up ↦ elim [
        | err e ↦ inr (inl (refl, refl))
        | ok opts ↦ elim [
          | err e ↦ inr (inl (refl, refl))
          | ok up' ↦ λ started. elim [
            | err e ↦ inr (inr (refl, refl))
            | ok done ↦ λ stopped closed closed'. refl
          ]
        ]
      ]
    ]
  ]
]

-- Against every environment, the process ends in one of four ways: it could not connect to the
-- database, and nothing was started; it could not connect to Redis, behind a ping of the database
-- that succeeded; the server failed; or it ended without an error. The server is asked for once,
-- behind both pings and behind the start of the hourly cleanup of orders older than a day, at the
-- PORT of the environment or 8080. The job is stopped and the connections are closed only where the
-- server has ended without an error.
pub main-Ends :
    {W : Type 0} (U : Type 0) (h : (c : Call) → W → Reply c × W) (w : W)
    → let out = run (watch note h) (main_of U) (w, fresh) in Ends out.0 out.1.1
main-Ends U h w = Every-run note h Ends (main_of U) w fresh (main-Every U)
