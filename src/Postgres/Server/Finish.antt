-- ===== src/Postgres/Server/Finish.antt =====
-- `FinishOrder` of the order repository on the database.
use mathlib.Core.Option
use system_design_homework.Prelude.{
  String, ◌≡◌, refl, ◌⊎◌, true, false, none, some, List, [], ◌∷◌, arith,
}
use system_design_homework.Result.{is_ok}
use system_design_homework.Program.{run}
use system_design_homework.Api.{Time}
use system_design_homework.Orders.Calls.{FinishArgs}
use system_design_homework.Postgres.Tables.{
  OrderRow, Tables, has_payment, insert_payment, find_order, update_orders,
}
use system_design_homework.Postgres.Calls.{Update}
use system_design_homework.Postgres.OrderRepository.{finish_order, clear_row, refund_row}
use system_design_homework.Postgres.Server.{Db, serve, kept_payment, updated}

abbrev pub update_of : FinishArgs → Time → Update
update_of a now = record {
  finish_time = a.finish_time;
  duration_seconds = a.duration_seconds;
  total_amount = a.total_amount;
  status = a.final_status;
  updated_at = now;
  id = a.order_id;
}

module _ (at_rest : Time → Time) where
  -- The tables with the order closed and its CLEAR and REFUND transactions.
  abbrev pub with_finish : FinishArgs → OrderRow → Time → Tables → Tables
  with_finish a o now t = record t {
    orders = update_orders a.order_id (updated at_rest (update_of a now)) t.orders;
    payments =
        kept_payment at_rest (refund_row a o.user_id o.deposit now)
        ∷ kept_payment at_rest (clear_row a o.user_id now)
        ∷ t.payments;
  }

  pub find-update :
      (a : FinishArgs) (now : Time) (id : String) (os : List OrderRow)
      → find_order id (update_orders id (updated at_rest (update_of a now)) os)
        ≡ Option.map (updated at_rest (update_of a now)) (find_order id os)
  unfolding find_order update_orders
  find-update a now id [] = refl
  find-update a now id (o ∷ os) = ground (arith, find-update a now id os)

module _ (at_rest tick : Time → Time) where
  -- Where no transaction is open and the order is there, whatever statements fail, a run of
  -- `FinishOrder` leaves no transaction open, and it closes the order together with its CLEAR and
  -- its REFUND transaction or changes neither table. If it reports success it closed the order,
  -- and the order had no CLEAR and no REFUND transaction before: no order is closed twice.
  pub finish_order_atomic :
      (a : FinishArgs) (o : OrderRow) (db : Db)
      → db.pending ≡ none
      → find_order a.order_id db.tables.orders ≡ some o
      → let out = run (serve at_rest tick) (finish_order a) db in
        (out.1.pending ≡ none)
        × (is_ok out.0 ≡ true
            → (out.1.tables ≡ with_finish at_rest a o db.clock db.tables)
              × (has_payment (clear_row a o.user_id db.clock).id db.tables.payments ≡ false)
              × (has_payment (refund_row a o.user_id o.deposit db.clock).id db.tables.payments
                  ≡ false))
        × (is_ok out.0 ≡ false
            → (out.1.tables ≡ db.tables)
              ⊎ (out.1.tables ≡ with_finish at_rest a o db.clock db.tables))
  unfolding run finish_order serve insert_payment has_payment
  finish_order_atomic a o db idle found =
      ground (arith, find-update at_rest a db.clock a.order_id db.tables.orders)
