-- ===== src/Cleanup.antt =====
-- client/internal/jobs/order_cleanup.go: `OrderCleanupJob`, on the order repository. What it logs
-- is not modelled.
pub mod Sweep
mod Tests
use system_design_homework.Prelude.{ℕ, String, List, [], ◌∷◌, map}
use system_design_homework.Result.{Result, ok, err}
use system_design_homework.Program.{Prog, ret, ◌>>=◌, then_do, Signal, stop, tick}
use system_design_homework.Api.{Duration, Order}
use system_design_homework.Postgres.Calls.{Sql, Reply}
use system_design_homework.Postgres.OrderRepository.{get_old_orders, delete_orders}

abbrev pub ids_of : List Order → List String
ids_of = map λ o. o.id

abbrev after_load : Result (List Order) → Prog Reply (Result (List String))
after_load (err e) = ret (err e)
after_load (ok []) = ret (ok [])
after_load (ok (o ∷ os)) = delete_orders (ids_of (o ∷ os)) >>= λ _. ret (ok (ids_of (o ∷ os)))

-- `cleanup`, with the ids that it has deleted, or the error that it logs.
unfoldable pub cleanup : Duration → Prog Reply (Result (List String))
unfolding get_old_orders delete_orders
cleanup older_than = then_do after_load (get_old_orders older_than)

loop : Duration → List Signal → Prog Reply ℕ
loop d [] = ret 0
loop d (stop ∷ ss) = ret 0
loop d (tick ∷ ss) = then_do (λ _. loop d ss) (cleanup d)

-- `run`: one cleanup at once, then one for each tick until the job is stopped.
pub run_job : Duration → List Signal → Prog Reply ℕ
unfolding loop
run_job d ss = then_do (λ _. loop d ss) (cleanup d)
