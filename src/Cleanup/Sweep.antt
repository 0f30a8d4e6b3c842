-- ===== src/Cleanup/Sweep.antt =====
-- What one cleanup does to the tables when no statement fails.
use system_design_homework.Prelude.{
  ℕ, ◌+◌, ◌<◌, ap, ◌∙◌, String, ◌≡◌, refl, Bool, true, false, none, some, List, [], ◌∷◌, map, arith,
  eq_iff, ltb, ◌==◌, ◌||◌, if◌then◌else◌, Bool-cases, inl, inr,
}
use system_design_homework.Result.{ok, is_ok}
use system_design_homework.Program.{run}
use system_design_homework.Api.{Time, Duration}
use system_design_homework.Postgres.Tables.{
  OrderRow, PaymentRow, Tables, find_order, has_order, delete_orders, cascade, is_listed,
  count_listed,
}
use system_design_homework.Postgres.OrderRepository.{order_of_row, scan_rows}
use system_design_homework.Postgres.Server.{Db, serve, old_orders, insert_by_age}
use system_design_homework.Cleanup.{cleanup, ids_of}

-- PRIMARY KEY
abbrev pub Keyed : List OrderRow → Type 0
Keyed [] = Unit {0}
Keyed (o ∷ os) = (has_order o.id os ≡ false) × Keyed os

-- Created before `now` less the retention period.
abbrev pub is_old : Time → Duration → OrderRow → Bool
is_old now d o = ltb (o.created_at + d) now

abbrev row_ids : List OrderRow → List String
row_ids = map λ o. o.id

is_listed-insert :
    (id : String) (o : OrderRow) (os : List OrderRow)
    → is_listed id (row_ids (insert_by_age o os)) ≡ (o.id == id || is_listed id (row_ids os))
unfolding is_listed insert_by_age
is_listed-insert id o [] = ground arith
is_listed-insert id o (p ∷ ps) = ground (arith, is_listed-insert id o ps)

not_listed :
    (now d : ℕ) (id : String) (os : List OrderRow)
    → has_order id os ≡ false
    → is_listed id (row_ids (old_orders now d os)) ≡ false
unfolding has_order old_orders is_listed
not_listed now d id [] h = refl
not_listed now d id (o ∷ os) h =
    ground (arith, not_listed now d id os, is_listed-insert id o (old_orders now d os))

-- An order is listed exactly if it is old.
listed_iff_old :
    (now d : ℕ) (id : String) (o : OrderRow) (os : List OrderRow)
    → Keyed os
    → find_order id os ≡ some o
    → is_listed id (row_ids (old_orders now d os)) ≡ is_old now d o
unfolding find_order old_orders is_listed
listed_iff_old now d id o [] k h = cc
listed_iff_old now d id o (p ∷ ps) k h = ground (
  arith,
  eq_iff p.id id,
  listed_iff_old now d id o ps k.1,
  not_listed now d p.id ps,
  is_listed-insert id p (old_orders now d ps),
)

find-delete :
    (ids : List String) (id : String) (os : List OrderRow)
    → find_order id (delete_orders ids os) ≡ (if is_listed id ids then none else find_order id os)
unfolding find_order delete_orders
find-delete ids id [] = ground arith
find-delete ids id (o ∷ os) = ground (arith, find-delete ids id os, eq_iff o.id id)

count_pos :
    (ids : List String) (id : String) (os : List OrderRow)
    → has_order id os ≡ true
    → is_listed id ids ≡ true
    → 0 < count_listed ids os
unfolding has_order count_listed
count_pos ids id [] h l = cc
count_pos ids id (o ∷ os) h l = ground (arith, eq_iff o.id id, count_pos ids id os)

scan_rows-ok : (os : List OrderRow) → scan_rows (map ok os) (ok tt) ≡ ok (map order_of_row os)
unfolding scan_rows
scan_rows-ok [] = refl
scan_rows-ok (o ∷ os) = ground (arith, scan_rows-ok os)

ids_of-rows : (os : List OrderRow) → ids_of (map order_of_row os) ≡ row_ids os
unfolding order_of_row
ids_of-rows [] = refl
ids_of-rows (o ∷ os) = ap (λ l. o.id ∷ l) (ids_of-rows os)

-- The tables without the given orders and their payments.
abbrev pub without : List String → Tables → Tables
without ids t = record t { orders = delete_orders ids t.orders; payments = cascade ids t.payments }

module _ (at_rest tick : Time → Time) where
  sweep_empty :
      (d : Duration) (db : Db)
      → db.faults ≡ []
      → old_orders db.clock d db.tables.orders ≡ []
      → let out = run (serve at_rest tick) (cleanup d) db in
        (out.0 ≡ ok []) × (out.1.tables ≡ db.tables)
  unfolding run cleanup serve
  sweep_empty d db calm none_old = ground arith

  sweep_some :
      (d : Duration) (db : Db) (r : OrderRow) (rs : List OrderRow)
      → db.faults ≡ []
      → old_orders db.clock d db.tables.orders ≡ r ∷ rs
      → 0 < count_listed (row_ids (r ∷ rs)) db.tables.orders
      → let out = run (serve at_rest tick) (cleanup d) db in
        (out.0 ≡ ok (row_ids (r ∷ rs))) × (out.1.tables ≡ without (row_ids (r ∷ rs)) db.tables)
  unfolding run cleanup serve
  sweep_some d db r rs calm old some_listed = ground (arith, scan_rows-ok rs, ids_of-rows rs)

-- The transactions of one order.
abbrev pub payments_of : String → List PaymentRow → List PaymentRow
payments_of id [] = []
payments_of id (p ∷ ps) =
    let rest = payments_of id ps in if p.order_id == id then p ∷ rest else rest

payments_of-cascade :
    (ids : List String) (id : String) (ps : List PaymentRow)
    → payments_of id (cascade ids ps) ≡ (if is_listed id ids then [] else payments_of id ps)
unfolding cascade
payments_of-cascade ids id [] = ground arith
payments_of-cascade ids id (p ∷ ps) =
    ground (arith, payments_of-cascade ids id ps, eq_iff p.order_id id)

delete_orders-nil : (os : List OrderRow) → delete_orders [] os ≡ os
unfolding delete_orders is_listed
delete_orders-nil [] = refl
delete_orders-nil (o ∷ os) = ap (λ l. o ∷ l) (delete_orders-nil os)

cascade-nil : (ps : List PaymentRow) → cascade [] ps ≡ ps
unfolding cascade is_listed
cascade-nil [] = refl
cascade-nil (p ∷ ps) = ap (λ l. p ∷ l) (cascade-nil ps)

head_there :
    (now d : ℕ) (os : List OrderRow) (r : OrderRow) (rs : List OrderRow)
    → old_orders now d os ≡ r ∷ rs
    → has_order r.id os ≡ true
unfolding is_listed
head_there now d os r rs e = elim (Bool-cases (has_order r.id os)) [
  | inl there ↦ there
  | inr gone ↦ ground (arith, not_listed now d r.id os gone, eq_iff r.id r.id)
]

some_listed :
    (now d : ℕ) (os : List OrderRow) (r : OrderRow) (rs : List OrderRow)
    → old_orders now d os ≡ r ∷ rs
    → 0 < count_listed (row_ids (r ∷ rs)) os
unfolding is_listed
some_listed now d os r rs e =
    count_pos (row_ids (r ∷ rs)) r.id os (head_there now d os r rs e)
      (ground (arith, eq_iff r.id r.id))

module _ (at_rest tick : Time → Time) where
  sweep_without :
      (d : Duration) (db : Db) (rows : List OrderRow)
      → db.faults ≡ []
      → old_orders db.clock d db.tables.orders ≡ rows
      → let out = run (serve at_rest tick) (cleanup d) db in
        (out.0 ≡ ok (row_ids rows)) × (out.1.tables ≡ without (row_ids rows) db.tables)
  sweep_without d db [] calm e = (
    (sweep_empty at_rest tick d db calm e).0,
    ground (
      arith,
      (sweep_empty at_rest tick d db calm e).1,
      delete_orders-nil db.tables.orders,
      cascade-nil db.tables.payments,
    ),
  )
  sweep_without d db (r ∷ rs) calm e =
      sweep_some at_rest tick d db r rs calm e (some_listed db.clock d db.tables.orders r rs e)

  -- Where no statement fails and order ids are unique, a cleanup succeeds, and afterwards each order
  -- is gone, with all its transactions, exactly if it was created before the current time less the
  -- retention period; any other order and its transactions are as they were. The status of the
  -- order plays no part: an active order is removed too.
  pub cleanup_sweep :
      (d : Duration) (db : Db) (id : String) (o : OrderRow)
      → db.faults ≡ []
      → Keyed db.tables.orders
      → find_order id db.tables.orders ≡ some o
      → let out = run (serve at_rest tick) (cleanup d) db in
        (is_ok out.0 ≡ true)
        × (find_order id out.1.tables.orders ≡ (if is_old db.clock d o then none else some o))
        × (payments_of id out.1.tables.payments
            ≡ (if is_old db.clock d o then [] else payments_of id db.tables.payments))
  cleanup_sweep d db id o calm keyed found =
      let rows = old_orders db.clock d db.tables.orders in
      let swept = sweep_without d db rows calm refl in
      let listed = listed_iff_old db.clock d id o db.tables.orders keyed found in
      rw (swept.0, swept.1)
        (
          refl,
          find-delete (row_ids rows) id db.tables.orders ∙ ground (arith, listed, found),
          payments_of-cascade (row_ids rows) id db.tables.payments ∙ ground (arith, listed),
        )
