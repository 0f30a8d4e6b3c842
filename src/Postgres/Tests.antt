-- ===== src/Postgres/Tests.antt =====
-- The theorems on the order repository at concrete inputs.
use system_design_homework.Prelude.{◌≡◌, refl, ◌⊎◌, true, false, none, some, []}
use system_design_homework.Result.{ok, is_ok}
use system_design_homework.Program.{run}
use system_design_homework.Postgres.Tables.{
  has_order, has_payment, fits_order, is_varchar, fits_payment, insert_order, insert_payment,
  find_order,
}
use system_design_homework.Postgres.OrderRepository.{
  create_order, finish_order, get_order_by_id, initial_amount, get_int_value, clear_row, refund_row,
  row_of_order, hold_row,
}
use system_design_homework.Postgres.Server.{serve}
use system_design_homework.Postgres.Server.Create.{
  create_order_atomic, get-create_order, with_order,
}
use system_design_homework.Postgres.Server.Finish.{finish_order_atomic, with_finish}
use system_design_homework.Postgres.Samples.{order_1, row_2, finish_2, as_is, one_on, db_1}

create_order_atomic_example :
    let out = run (serve as_is one_on) (create_order order_1 "tx-1") db_1 in
    (out.1.pending ≡ none)
    × (is_ok out.0 ≡ true
        → (out.1.tables ≡ with_order as_is order_1 "tx-1" db_1.clock db_1.tables)
          × (has_order order_1.id db_1.tables.orders ≡ false))
    × (is_ok out.0 ≡ false
        → (out.1.tables ≡ db_1.tables)
          ⊎ (out.1.tables ≡ with_order as_is order_1 "tx-1" db_1.clock db_1.tables))
create_order_atomic_example = create_order_atomic as_is one_on order_1 "tx-1" db_1 refl

stored_1 : is_ok (run (serve as_is one_on) (create_order order_1 "tx-1") db_1).0 ≡ true
unfolding run create_order serve insert_order insert_payment has_order has_payment row_of_order
    hold_row initial_amount fits_order is_varchar fits_payment
stored_1 = refl

get-create_order_example :
    let db' = record (run (serve as_is one_on) (create_order order_1 "tx-1") db_1).1 {
      faults = [];
    } in
    (run (serve as_is one_on) (get_order_by_id order_1.id) db').0
    ≡ ok (
        some (record order_1 {
          current_amount = some (initial_amount order_1);
          deposit = some (get_int_value order_1.deposit);
          price_per_minute = some (get_int_value order_1.price_per_minute);
          price_unlock = some (get_int_value order_1.price_unlock);
          duration_seconds = none;
          finish_time = none;
          start_time = as_is order_1.start_time;
        }))
get-create_order_example = get-create_order as_is one_on order_1 "tx-1" db_1 refl stored_1

there_2 : find_order "order-2" db_1.tables.orders ≡ some row_2
unfolding find_order
there_2 = refl

finish_order_atomic_example :
    let out = run (serve as_is one_on) (finish_order finish_2) db_1 in
    (out.1.pending ≡ none)
    × (is_ok out.0 ≡ true
        → (out.1.tables ≡ with_finish as_is finish_2 row_2 db_1.clock db_1.tables)
          × (has_payment (clear_row finish_2 row_2.user_id db_1.clock).id db_1.tables.payments
              ≡ false)
          × (has_payment
                (refund_row finish_2 row_2.user_id row_2.deposit db_1.clock).id
                db_1.tables.payments
              ≡ false))
    × (is_ok out.0 ≡ false
        → (out.1.tables ≡ db_1.tables)
          ⊎ (out.1.tables ≡ with_finish as_is finish_2 row_2 db_1.clock db_1.tables))
finish_order_atomic_example = finish_order_atomic as_is one_on finish_2 row_2 db_1 refl there_2
