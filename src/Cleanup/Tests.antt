-- ===== src/Cleanup/Tests.antt =====
-- The theorem on the cleanup at a concrete input.
use system_design_homework.Prelude.{◌≡◌, refl, true, false, none, some, [], if◌then◌else◌}
use system_design_homework.Result.{is_ok}
use system_design_homework.Program.{run}
use system_design_homework.Postgres.Tables.{find_order, has_order}
use system_design_homework.Postgres.Server.{serve}
use system_design_homework.Postgres.Samples.{row_2, as_is, one_on, db_1}
use system_design_homework.Cleanup.{cleanup}
use system_design_homework.Cleanup.Sweep.{cleanup_sweep, is_old, payments_of}

there : find_order "order-2" db_1.tables.orders ≡ some row_2
unfolding find_order
there = refl

alone : has_order "order-2" [] ≡ false
unfolding has_order
alone = refl

-- An order of the time 100, with a retention of 500 at the time 3000.
cleanup_sweep_example :
    let out = run (serve as_is one_on) (cleanup 500) db_1 in
    (is_ok out.0 ≡ true)
    × (find_order "order-2" out.1.tables.orders
        ≡ (if is_old db_1.clock 500 row_2 then none else some row_2))
    × (payments_of "order-2" out.1.tables.payments
        ≡ (if is_old db_1.clock 500 row_2 then [] else payments_of "order-2" db_1.tables.payments))
cleanup_sweep_example = cleanup_sweep as_is one_on 500 db_1 "order-2" row_2 refl (alone, tt) there
