-- ===== src/Postgres/Server/Calm.antt =====
-- The order repository on a database on which no statement fails but by a constraint.
use system_design_homework.Prelude.{
  String, ◌≡◌, refl, ◌≢◌, inl, inr, true, false, none, List, [], ◌∷◌, arith, eq_iff,
}
use system_design_homework.Result.{ok, is_ok}
use system_design_homework.Program.{run}
use system_design_homework.Api.{Time, Order}
use system_design_homework.Orders.Calls.{FinishArgs}
use system_design_homework.Postgres.Tables.{
  OrderRow, has_order, find_order, insert_order, insert_payment, update_orders,
}
use system_design_homework.Postgres.OrderRepository.{
  create_order, finish_order, get_order_by_id, scanned,
}
use system_design_homework.Postgres.Calls.{Update}
use system_design_homework.Postgres.Server.{Db, serve, updated}
use system_design_homework.Postgres.Server.Create.{with_order}
use system_design_homework.Postgres.Server.Finish.{update_of, find-update}
use system_design_homework.Postgres.Server.Shut.{Option-cases}

-- Between two methods, with no fault to come.
abbrev pub IsCalm : Db → Type 0
IsCalm db = (db.pending ≡ none) × (db.faults ≡ [])

module _ (at_rest tick : Time → Time) where
  pub read-Calm :
      (id : String) (db : Db)
      → IsCalm db
      → let out = run (serve at_rest tick) (get_order_by_id id) db in
        (out.0 ≡ ok (scanned (find_order id db.tables.orders)))
        × (out.1.tables ≡ db.tables)
        × IsCalm out.1
  unfolding run get_order_by_id serve
  read-Calm id db calm = ground arith

  pub create-Calm :
      (order : Order) (tx : String) (db : Db)
      → IsCalm db
      → let out = run (serve at_rest tick) (create_order order tx) db in
        IsCalm out.1
        × (is_ok out.0 ≡ true
            → (out.1.tables ≡ with_order at_rest order tx db.clock db.tables)
              × (has_order order.id db.tables.orders ≡ false))
        × (is_ok out.0 ≡ false → out.1.tables ≡ db.tables)
  unfolding run create_order serve insert_order insert_payment
  create-Calm order tx db calm = ground arith

  pub find-update-others :
      (u : Update) (id : String) (os : List OrderRow)
      → u.id ≢ id
      → find_order id (update_orders u.id (updated at_rest u) os) ≡ find_order id os
  unfolding find_order update_orders
  find-update-others u id [] apart = refl
  find-update-others u id (o ∷ os) apart =
      ground (arith, find-update-others u id os apart, eq_iff o.id u.id, eq_iff o.id id, apart)

  pub finish-Calm :
      (a : FinishArgs) (db : Db)
      → IsCalm db
      → let out = run (serve at_rest tick) (finish_order a) db in
        IsCalm out.1
        × (is_ok out.0 ≡ true
            → out.1.tables.orders
              ≡ update_orders a.order_id (updated at_rest (update_of a db.clock)) db.tables.orders)
        × (is_ok out.0 ≡ false → out.1.tables ≡ db.tables)
  unfolding run finish_order serve insert_payment
  finish-Calm a db calm = elim (Option-cases (find_order a.order_id db.tables.orders)) [
    | inl missing ↦ ground (arith, find-update at_rest a db.clock a.order_id db.tables.orders)
    | inr (o, found) ↦ ground (arith, find-update at_rest a db.clock a.order_id db.tables.orders)
  ]
