-- ===== src/Postgres/Calls.antt =====
-- The statements that the order repository sends to PostgreSQL through pgx, with what comes back,
-- and the clock.
use system_design_homework.Prelude.{ℕ, String, Option, List}
use system_design_homework.Prelude.Int.{ℤ}
use system_design_homework.Result.{Result}
use system_design_homework.Api.{Time, Duration, OrderStatus}
use system_design_homework.Postgres.Tables.{OrderRow, PaymentRow}

-- The parameters of the UPDATE statement.
pub record Update : Type 0 where
  pub finish_time : Time
  pub duration_seconds : ℤ
  pub total_amount : ℤ
  pub status : OrderStatus
  pub updated_at : Time
  pub id : String

-- What `rows.Next`, `rows.Scan` and `rows.Err` yield of a query that was accepted.
pub record Rows : Type 0 where
  pub scans : List (Result OrderRow)
  pub final : Result (Unit {0})

pub data Sql : Type 0 where
  now : Sql
  begin commit rollback : Sql
  insert_order : OrderRow → Sql
  insert_payment : PaymentRow → Sql
  update_order : Update → Sql
  select_user_deposit : String → Sql
  delete_orders : List String → Sql
  select_order : String → Sql
  select_order_by_offer : String → Sql
  -- The orders created before the first time less the duration, oldest first.
  select_old_orders : Time → Duration → Sql

-- `pgx.ErrNoRows` is `ok none`; the number is that of the rows affected.
abbrev pub Reply : Sql → Type 0
Reply Sql.now = Time
Reply Sql.begin = Result (Unit {0})
Reply Sql.commit = Result (Unit {0})
Reply Sql.rollback = Unit {0}
Reply (Sql.insert_order o) = Result (Unit {0})
Reply (Sql.insert_payment p) = Result (Unit {0})
Reply (Sql.update_order u) = Result (Unit {0})
Reply (Sql.select_user_deposit id) = Result (Option (String × ℤ))
Reply (Sql.delete_orders ids) = Result ℕ
Reply (Sql.select_order id) = Result (Option OrderRow)
Reply (Sql.select_order_by_offer id) = Result (Option OrderRow)
Reply (Sql.select_old_orders t d) = Result Rows
