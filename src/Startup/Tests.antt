-- ===== src/Startup/Tests.antt =====
-- The theorem on the start at a concrete input: everything is up, and the port is taken.
use system_design_homework.Prelude.{ℕ}
use system_design_homework.Result.{ok, err, message}
use system_design_homework.Program.{run, watch}
use system_design_homework.Startup.{
  Call, getenv, parse_config, new_pool, ping_pool, close_pool, parse_url, ping_redis, close_redis,
  start_job, stop_job, listen_and_serve, Reply, main_of,
}
use system_design_homework.Startup.Ways.{note, Ends, fresh, main-Ends}

abbrev host : (c : Call) → Unit {0} → Reply c × Unit {0}
host (getenv key) w = ("", w)
host (parse_config url) w = (
  ok (record {
    url = url;
    max_conns = 4;
    min_conns = 0;
    max_conn_lifetime = 0;
    max_conn_idle_time = 0;
    health_check_period = 0;
  }),
  w,
)
host (new_pool cfg) w = (ok tt, w)
host (ping_pool d) w = (ok tt, w)
host close_pool w = (tt, w)
host (parse_url url) w = (
  ok (record {
    url = url;
    pool_size = 10;
    min_idle_conns = 0;
    pool_timeout = 0;
    conn_max_idle_time = 0;
  }),
  w,
)
host (ping_redis opts d) w = (ok tt, w)
host close_redis w = (ok tt, w)
host (start_job job) w = (tt, w)
host stop_job w = (tt, w)
host (listen_and_serve srv) w = (err (message "address already in use"), w)

main-Ends_example : let out = run (watch note host) (main_of ℕ) (tt, fresh) in Ends out.0 out.1.1
main-Ends_example = main-Ends ℕ host tt
