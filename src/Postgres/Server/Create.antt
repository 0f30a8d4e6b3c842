-- ===== src/Postgres/Server/Create.antt =====
-- `CreateOrder` of the order repository on the database: all or nothing, and what is read back.
use system_design_homework.Prelude.{
  String, ◌≡◌, ◌⊎◌, true, false, none, some, [], ◌∷◌, arith, eq_iff,
}
use system_design_homework.Result.{ok, is_ok}
use system_design_homework.Program.{run}
use system_design_homework.Api.{Time, Order}
use system_design_homework.Postgres.Tables.{
  Tables, has_order, insert_order, insert_payment, find_order,
}
use system_design_homework.Postgres.OrderRepository.{
  create_order, get_order_by_id, row_of_order, hold_row, get_int_value, initial_amount,
}
use system_design_homework.Postgres.Server.{Db, serve, kept_order, kept_payment}

module _ (at_rest : Time → Time) where
  -- The tables with the order and its HOLD transaction.
  abbrev pub with_order : Order → String → Time → Tables → Tables
  with_order order tx now t = record t {
    orders = kept_order at_rest (row_of_order order now) ∷ t.orders;
    payments = kept_payment at_rest (hold_row order tx now) ∷ t.payments;
  }

module _ (at_rest tick : Time → Time) where
  -- Where no transaction is open, whatever statements fail, a run of `CreateOrder` leaves no
  -- transaction open, and it adds the order together with its HOLD transaction or changes neither
  -- table. If it reports success they were added, and the order id was new. If it reports an error,
  -- they may still have been added: the reply to COMMIT can be lost.
  pub create_order_atomic :
      (order : Order) (tx : String) (db : Db)
      → db.pending ≡ none
      → let out = run (serve at_rest tick) (create_order order tx) db in
        (out.1.pending ≡ none)
        × (is_ok out.0 ≡ true
            → (out.1.tables ≡ with_order at_rest order tx db.clock db.tables)
              × (has_order order.id db.tables.orders ≡ false))
        × (is_ok out.0 ≡ false
            → (out.1.tables ≡ db.tables)
              ⊎ (out.1.tables ≡ with_order at_rest order tx db.clock db.tables))
  unfolding run create_order serve insert_order insert_payment
  create_order_atomic order tx db idle = ground arith

  -- An order that was stored is read back by its id, with every column as it was written, as long
  -- as the query does not fail: prices that were not given as 0, the start time as a TIMESTAMP
  -- column keeps it, and the initial amount as its current amount.
  pub get-create_order :
      (order : Order) (tx : String) (db : Db)
      → db.pending ≡ none
      → is_ok (run (serve at_rest tick) (create_order order tx) db).0 ≡ true
      → let db' = record (run (serve at_rest tick) (create_order order tx) db).1 { faults = [] } in
        (run (serve at_rest tick) (get_order_by_id order.id) db').0
        ≡ ok (
            some (record order {
              current_amount = some (initial_amount order);
              deposit = some (get_int_value order.deposit);
              price_per_minute = some (get_int_value order.price_per_minute);
              price_unlock = some (get_int_value order.price_unlock);
              duration_seconds = none;
              finish_time = none;
              start_time = at_rest order.start_time;
            }))
  unfolding run get_order_by_id serve find_order row_of_order
  get-create_order order tx db idle stored =
      rw ((create_order_atomic order tx db idle).1 stored).0
        (ground (arith, eq_iff order.id order.id))
