-- ===== src/Postgres/Server/Shut.antt =====
-- Orders that are no longer active, in the database of the order repository.
use system_design_homework.Prelude.{
  String, ◌≡◌, refl, ◌⊎◌, inl, inr, Bool, true, false, not, Option, none, some, List, [], ◌∷◌,
  arith, ◌==◌, eq_iff, if◌then◌else◌,
}
use system_design_homework.Result.{Result, ok, err, is_ok}
use system_design_homework.Program.{run}
use system_design_homework.Api.{Time, Order}
use system_design_homework.Orders.Calls.{FinishArgs}
use system_design_homework.Orders.Values.{is_active}
use system_design_homework.Postgres.Tables.{
  OrderRow, Tables, has_order, find_order, insert_order, insert_payment, update_orders,
}
use system_design_homework.Postgres.OrderRepository.{
  create_order, finish_order, get_order_by_id, order_of_row, scanned, row_of_order,
}
use system_design_homework.Postgres.Calls.{Update}
use system_design_homework.Postgres.Server.{Db, serve, updated}
use system_design_homework.Postgres.Server.Finish.{
  update_of, with_finish, find-update, finish_order_atomic,
}

-- The order is there and is not active.
abbrev pub is_shut : String → List OrderRow → Bool
is_shut id [] = false
is_shut id (o ∷ os) = if o.id == id then not (is_active o.status) else is_shut id os

-- Between two methods, with the order closed.
abbrev pub Shut : String → Db → Type 0
Shut id db = (db.pending ≡ none) × (is_shut id db.tables.orders ≡ true)

has_order-is_shut :
    (id : String) (os : List OrderRow) → is_shut id os ≡ true → has_order id os ≡ true
unfolding has_order
has_order-is_shut id [] h = cc
has_order-is_shut id (o ∷ os) h = ground (arith, has_order-is_shut id os)

pub Option-cases : {A : Type 0} (x : Option A) → (x ≡ none) ⊎ ((a : A) × (x ≡ some a))
Option-cases none = inl refl
Option-cases (some a) = inr (a, refl)

-- What a read finds of an order that is not active, or an error.
abbrev pub IsInactive : Result (Option Order) → Type 0
IsInactive (err e) = Unit {0}
IsInactive (ok none) = ⊥
IsInactive (ok (some o)) = is_active o.status ≡ false

error-IsInactive : (r : Result (Option Order)) → is_ok r ≡ false → IsInactive r
error-IsInactive (err e) h = tt
error-IsInactive (ok o) h = absurd (ground arith)

module _ (at_rest : Time → Time) where
  is_shut-update :
      (u : Update) (id : String) (os : List OrderRow)
      → is_active u.status ≡ false
      → is_shut id os ≡ true
      → is_shut id (update_orders u.id (updated at_rest u) os) ≡ true
  unfolding update_orders
  is_shut-update u id [] off h = cc
  is_shut-update u id (o ∷ os) off h = ground (arith, is_shut-update u id os off)

  update-is_shut :
      (u : Update) (os : List OrderRow)
      → is_active u.status ≡ false
      → has_order u.id os ≡ true
      → is_shut u.id (update_orders u.id (updated at_rest u) os) ≡ true
  unfolding update_orders has_order
  update-is_shut u [] off h = cc
  update-is_shut u (o ∷ os) off h = ground (arith, update-is_shut u os off)

find-has_order :
    (id : String) (o : OrderRow) (os : List OrderRow)
    → find_order id os ≡ some o
    → has_order id os ≡ true
unfolding find_order has_order
find-has_order id o [] h = cc
find-has_order id o (p ∷ os) h = ground (arith, find-has_order id o os)

module _ (at_rest tick : Time → Time) where
  pub create_order-Shut :
      (id : String) (order : Order) (tx : String) (db : Db)
      → Shut id db
      → Shut id (run (serve at_rest tick) (create_order order tx) db).1
  unfolding run create_order serve insert_order insert_payment row_of_order
  create_order-Shut id order tx db (idle, shut) =
      ground (arith, has_order-is_shut id db.tables.orders, eq_iff order.id id)

  pub finish_order-absent :
      (a : FinishArgs) (db : Db)
      → db.pending ≡ none
      → find_order a.order_id db.tables.orders ≡ none
      → let out = run (serve at_rest tick) (finish_order a) db in
        (is_ok out.0 ≡ false) × (out.1.pending ≡ none) × (out.1.tables ≡ db.tables)
  unfolding run finish_order serve insert_payment
  finish_order-absent a db idle missing =
      ground (arith, find-update at_rest a db.clock a.order_id db.tables.orders)

  with_finish-is_shut :
      (id : String) (a : FinishArgs) (o : OrderRow) (db : Db) (t : Tables)
      → is_active a.final_status ≡ false
      → (t ≡ db.tables) ⊎ (t ≡ with_finish at_rest a o db.clock db.tables)
      → is_shut id db.tables.orders ≡ true
      → is_shut id t.orders ≡ true
  with_finish-is_shut id a o db t off (inl same) shut = rw same shut
  with_finish-is_shut id a o db t off (inr closed) shut =
      rw closed (is_shut-update at_rest (update_of a db.clock) id db.tables.orders off shut)

  pub finish_order-Shut :
      (id : String) (a : FinishArgs) (db : Db)
      → is_active a.final_status ≡ false
      → Shut id db
      → Shut id (run (serve at_rest tick) (finish_order a) db).1
  finish_order-Shut id a db off (idle, shut) =
      elim (Option-cases (find_order a.order_id db.tables.orders)) [
        | inl missing ↦ let same = finish_order-absent a db idle missing in (same.1, rw same.2 shut)
        | inr (o, found) ↦
            let out = finish_order_atomic at_rest tick a o db idle found in
            (
              out.0,
              with_finish-is_shut id a o db (run (serve at_rest tick) (finish_order a) db).1.tables
                  off (ground (arith, out)) shut,
            )
      ]

  pub finish_order-idle :
      (a : FinishArgs) (db : Db)
      → db.pending ≡ none
      → (run (serve at_rest tick) (finish_order a) db).1.pending ≡ none
  finish_order-idle a db idle = elim (Option-cases (find_order a.order_id db.tables.orders)) [
    | inl missing ↦ (finish_order-absent a db idle missing).1
    | inr (o, found) ↦ (finish_order_atomic at_rest tick a o db idle found).0
  ]

  -- A `FinishOrder` that reports success closed its order.
  pub finish_order-closes :
      (a : FinishArgs) (db : Db)
      → db.pending ≡ none
      → is_active a.final_status ≡ false
      → is_ok (run (serve at_rest tick) (finish_order a) db).0 ≡ true
      → Shut a.order_id (run (serve at_rest tick) (finish_order a) db).1
  finish_order-closes a db idle off done =
      elim (Option-cases (find_order a.order_id db.tables.orders)) [
        | inl missing ↦ absurd (ground (arith, (finish_order-absent a db idle missing).0))
        | inr (o, found) ↦
            let out = finish_order_atomic at_rest tick a o db idle found in
            (
              out.0,
              rw (out.1 done).0 (
                  update-is_shut at_rest (update_of a db.clock) db.tables.orders off
                    (find-has_order a.order_id o db.tables.orders found)),
            )
      ]

  is_shut-found :
      (id : String) (os : List OrderRow)
      → is_shut id os ≡ true
      → IsInactive (ok (scanned (find_order id os)))
  unfolding find_order order_of_row
  is_shut-found id [] shut = cc
  is_shut-found id (o ∷ os) shut = ground (arith, is_shut-found id os)

  -- A query changes no table, and replies what is stored or fails.
  pub get_order_by_id-reads :
      (id : String) (db : Db)
      → let out = run (serve at_rest tick) (get_order_by_id id) db in
        ((out.0 ≡ ok (scanned (find_order id db.tables.orders))) ⊎ (is_ok out.0 ≡ false))
        × (out.1.tables ≡ db.tables)
        × (out.1.pending ≡ db.pending)
  unfolding run get_order_by_id serve
  get_order_by_id-reads id db = ground arith

  pub Shut-read :
      (id : String) (db : Db)
      → Shut id db
      → IsInactive (run (serve at_rest tick) (get_order_by_id id) db).0
  Shut-read id db (idle, shut) = elim (get_order_by_id-reads id db).0 [
    | inl there ↦ rw there (is_shut-found id db.tables.orders shut)
    | inr failed ↦ error-IsInactive _ failed
  ]
