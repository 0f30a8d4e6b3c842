-- ===== src/StandIn/Tests.antt =====
-- The theorem on the stand-in service at a concrete input: empty files, and a port that is taken.
use system_design_homework.Prelude.{ℕ, none, List, [], ◌∷◌}
use system_design_homework.Result.{ok, err, message}
use system_design_homework.Logger.{Op, write_header, Request}
use system_design_homework.Mock.{Storage, Files}
use system_design_homework.StandIn.{Call, getenv, listen_and_serve, Reply}

abbrev host : (c : Call) → Unit {0} → Reply c × Unit {0}
host (getenv key) w = ("9000", w)
host (listen_and_serve addr handler) w = (err (message "address already in use"), w)

abbrev files : Files ℕ
files = record { scooters = ok []; users = ok []; zones = ok []; configs = ok (λ k. none) }

abbrev no_routes : Storage ℕ → Request → List Op
no_routes s r = write_header 404 ∷ []
