-- ===== src/Postgres/Server.antt =====
-- The database behind the order repository: the tables of the migration, the open transaction, and
-- faults. A fault may hit any statement; where it hits COMMIT, the transaction may have been
-- committed all the same (`lost`: only the reply did not arrive). `at_rest` is what a TIMESTAMP
-- column keeps of a time, and `tick` how the clock moves on when it is read; both are arbitrary.
pub mod Create
pub mod Finish
pub mod Shut
pub mod Calm
use system_design_homework.Prelude.{
  ℕ, ◌+◌, String, Bool, true, false, Option, none, some, List, [], ◌∷◌, map, ltb, leb, ◌==◌,
  if◌then◌else◌,
}
use system_design_homework.Prelude.Int.{ℤ}
use system_design_homework.Result.{Result, ok, err, message}
use system_design_homework.Api.{Time, Duration}
use system_design_homework.Postgres.Tables.{
  OrderRow, PaymentRow, Tables, find_order, insert_order, insert_payment, update_orders,
  delete_orders, count_listed, cascade, fits_order, is_integer,
}
use system_design_homework.Postgres.Calls.{Sql, Reply, Rows, Update}

pub data Fault : Type 0 where
  fine fails lost : Fault

pub record Db : Type 0 where
  pub tables : Tables
  pub pending : Option Tables
  pub faults : List Fault
  pub clock : Time

abbrev next_fault : List Fault → Fault
next_fault [] = fine
next_fault (f ∷ fs) = f

abbrev later_faults : List Fault → List Fault
later_faults [] = []
later_faults (f ∷ fs) = fs

abbrev pub refusal {ℓ} : {A : Type ℓ} → Result A
refusal = err (message "database error")

-- A query outside of a transaction.
abbrev query : {A : Type 0} → (Tables → A) → Fault → Db → Result A × Db
query f fine db = (ok (f db.tables), db)
query f _ db = (refusal, db)

-- A statement of the open transaction; one that fails aborts it.
abbrev in_tx : {A : Type 0} → Option (A × Tables) → Db → Result A × Db
in_tx none db = (refusal, record db { pending = none })
in_tx (some (a, t)) db = (ok a, record db { pending = some t })

abbrev exec :
    {A : Type 0} → (Tables → Option (A × Tables)) → Fault → Option Tables → Db → Result A × Db
exec f fine (some t) db = in_tx (f t) db
exec f _ _ db = (refusal, record db { pending = none })

abbrev end : Fault → Option Tables → Db → Result (Unit {0}) × Db
end fine (some t) db = (ok tt, record db { tables = t; pending = none })
end lost (some t) db = (refusal, record db { tables = t; pending = none })
end _ _ db = (refusal, record db { pending = none })

abbrev start : Fault → Db → Result (Unit {0}) × Db
start fine db = (ok tt, record db { pending = some db.tables })
start _ db = (refusal, db)

abbrev done : Option Tables → Option (Unit {0} × Tables)
done none = none
done (some t) = some (tt, t)

abbrev owner : Option OrderRow → Option (String × ℤ)
owner none = none
owner (some o) = some (o.user_id, o.deposit)

-- ORDER BY created_at ASC
unfoldable pub insert_by_age : OrderRow → List OrderRow → List OrderRow
insert_by_age o [] = o ∷ []
insert_by_age o (p ∷ ps) =
    let rest = insert_by_age o ps in if leb o.created_at p.created_at then o ∷ p ∷ ps else p ∷ rest

-- created_at < now - older_than
unfoldable pub old_orders : Time → Duration → List OrderRow → List OrderRow
unfolding insert_by_age
old_orders now older_than [] = []
old_orders now older_than (o ∷ os) =
    let rest = old_orders now older_than os in
    if ltb (o.created_at + older_than) now then insert_by_age o rest else rest

-- WHERE offer_id = ... ORDER BY created_at DESC LIMIT 1
abbrev newer : OrderRow → Option OrderRow → Option OrderRow
newer o none = some o
newer o (some p) = if ltb o.created_at p.created_at then some p else some o

unfoldable pub latest_by_offer : String → List OrderRow → Option OrderRow
latest_by_offer id [] = none
latest_by_offer id (o ∷ os) =
    let rest = latest_by_offer id os in if o.offer_id == id then newer o rest else rest

abbrev delete_tables : List String → Tables → Option (ℕ × Tables)
delete_tables ids t = some (
  count_listed ids t.orders,
  record t { orders = delete_orders ids t.orders; payments = cascade ids t.payments },
)

module _ (at_rest : Time → Time) where
  abbrev pub kept_order : OrderRow → OrderRow
  kept_order o = record o {
    start_time = at_rest o.start_time;
    created_at = at_rest o.created_at;
    updated_at = at_rest o.updated_at;
  }

  abbrev pub kept_payment : PaymentRow → PaymentRow
  kept_payment p = record p { created_at = at_rest p.created_at }

  abbrev pub updated : Update → OrderRow → OrderRow
  updated u o = record o {
    finish_time = some (at_rest u.finish_time);
    duration_seconds = some u.duration_seconds;
    total_amount = u.total_amount;
    status = u.status;
    updated_at = at_rest u.updated_at;
  }

  abbrev update_tables : Update → Tables → Option (Unit {0} × Tables)
  update_tables u t =
      if is_integer u.total_amount
      then if is_integer u.duration_seconds
        then some (tt, record t { orders = update_orders u.id (updated u) t.orders })
        else none
      else none

module _ (at_rest tick : Time → Time) where
  answer : (c : Sql) → Fault → Db → Reply c × Db
  answer Sql.now f db = (db.clock, record db { clock = tick db.clock })
  answer Sql.begin f db = start f db
  answer Sql.commit f db = end f db.pending db
  answer Sql.rollback f db = (tt, record db { pending = none })
  answer (Sql.insert_order o) f db =
      exec (λ t. done (insert_order (kept_order at_rest o) t)) f db.pending db
  answer (Sql.insert_payment p) f db =
      exec (λ t. done (insert_payment (kept_payment at_rest p) t)) f db.pending db
  answer (Sql.update_order u) f db = exec (update_tables at_rest u) f db.pending db
  answer (Sql.select_user_deposit id) f db =
      exec (λ t. some (owner (find_order id t.orders), t)) f db.pending db
  answer (Sql.delete_orders ids) f db = exec (delete_tables ids) f db.pending db
  answer (Sql.select_order id) f db = query (λ t. find_order id t.orders) f db
  answer (Sql.select_order_by_offer id) f db = query (λ t. latest_by_offer id t.orders) f db
  answer (Sql.select_old_orders now d) f db =
      query (λ t. record { scans = map ok (old_orders now d t.orders); final = ok tt }) f db

  -- Every statement but the clock's meets the next fault.
  unfoldable pub serve : (c : Sql) → Db → Reply c × Db
  unfolding answer
  serve Sql.now db = answer Sql.now fine db
  serve c db = answer c (next_fault db.faults) (record db { faults = later_faults db.faults })
