-- ===== src/Postgres/OrderRepository.antt =====
-- client/internal/storage/postgres/order_repo.go
use Prim.Native.String.{◌++◌}
use system_design_homework.Prelude.{
  String, Bool, true, false, Option, none, some, List, [], ◌∷◌, eqb, if◌then◌else◌,
}
use system_design_homework.Prelude.Int.{ℤ, pos}
use system_design_homework.Result.{Result, ok, err, message, wrapped}
use system_design_homework.Program.{Proc, ret, call, ◌>>=◌, ◌>>◌, pure, fail, ask, reply, within}
use system_design_homework.Api.{Time, Duration, Order}
use system_design_homework.Orders.Calls.{FinishArgs}
use system_design_homework.Postgres.Tables.{
  OrderRow, PaymentRow, TransactionStatus, hold, clear, refund, success, failed,
}
use system_design_homework.Postgres.Calls.{Sql, Reply}

-- `getIntValue`
abbrev pub get_int_value : Option ℤ → ℤ
get_int_value none = pos 0
get_int_value (some n) = n

-- `defer tx.Rollback(ctx)`: the last call on every way out.
abbrev pub and_rollback : {A : Type 0} → Proc Reply A → Proc Reply A
and_rollback (ret r) = call Sql.rollback (λ _. ret r)
and_rollback (call c k) = call c (λ r. and_rollback (k r))

-- `totalAmount` of a new order: its current amount, else its unlock price.
unfoldable pub initial_amount : Order → ℤ
initial_amount order = elim order.current_amount [
  | some n ↦ n
  | none ↦ get_int_value order.price_unlock
]

-- The row of a new order.
unfoldable pub row_of_order : Order → Time → OrderRow
unfolding initial_amount
row_of_order order now = record {
  id = order.id;
  user_id = order.user_id;
  scooter_id = order.scooter_id;
  offer_id = order.offer_id;
  price_per_minute = get_int_value order.price_per_minute;
  price_unlock = get_int_value order.price_unlock;
  deposit = get_int_value order.deposit;
  total_amount = initial_amount order;
  status = order.status;
  start_time = order.start_time;
  finish_time = none;
  duration_seconds = none;
  created_at = now;
  updated_at = now;
}

-- The HOLD transaction of a new order.
unfoldable pub hold_row : Order → String → Time → PaymentRow
hold_row order transaction_id now = record {
  id = "txn-" ++ order.id;
  order_id = order.id;
  user_id = order.user_id;
  transaction_type = hold;
  amount = get_int_value order.deposit;
  status = success;
  external_transaction_id = transaction_id;
  created_at = now;
}

-- `CreateOrder`
unfoldable pub create_order : Order → String → Proc Reply (Unit {0})
unfolding row_of_order hold_row
create_order order transaction_id = do
  within "failed to begin transaction" (ask Sql.begin)
  and_rollback do
    now ← reply Sql.now
    within "failed to insert order" (ask (Sql.insert_order (row_of_order order now)))
    within "failed to insert payment transaction"
        (ask (Sql.insert_payment (hold_row order transaction_id now)))
    within "failed to commit transaction" (ask Sql.commit)

-- The order that a row is scanned into.
unfoldable pub order_of_row : OrderRow → Order
order_of_row o = record {
  current_amount = some o.total_amount;
  deposit = some o.deposit;
  duration_seconds = o.duration_seconds;
  finish_time = o.finish_time;
  id = o.id;
  offer_id = o.offer_id;
  price_per_minute = some o.price_per_minute;
  price_unlock = some o.price_unlock;
  scooter_id = o.scooter_id;
  start_time = o.start_time;
  status = o.status;
  user_id = o.user_id;
}

abbrev pub scanned : Option OrderRow → Option Order
scanned none = none
scanned (some o) = some (order_of_row o)

-- `GetOrderByID`
unfoldable pub get_order_by_id : String → Proc Reply (Option Order)
unfolding order_of_row
get_order_by_id id = do
  found ← within "failed to query order" (ask (Sql.select_order id))
  pure (scanned found)

-- `GetOrderByOfferID`
unfoldable pub get_order_by_offer_id : String → Proc Reply (Option Order)
unfolding order_of_row
get_order_by_offer_id id = do
  found ← within "failed to query order by offer_id" (ask (Sql.select_order_by_offer id))
  pure (scanned found)

abbrev status_of : Bool → TransactionStatus
status_of true = success
status_of false = failed

-- The CLEAR and the REFUND transaction of a finished order.
unfoldable pub clear_row : FinishArgs → String → Time → PaymentRow
clear_row a user_id now = record {
  id = "txn-clear-" ++ a.order_id;
  order_id = a.order_id;
  user_id = user_id;
  transaction_type = clear;
  amount = a.total_amount;
  status = status_of a.charge_success;
  external_transaction_id = a.charge_tx_id;
  created_at = now;
}

unfoldable pub refund_row : FinishArgs → String → ℤ → Time → PaymentRow
refund_row a user_id deposit now = record {
  id = "txn-refund-" ++ a.order_id;
  order_id = a.order_id;
  user_id = user_id;
  transaction_type = refund;
  amount = deposit;
  status = status_of a.unhold_success;
  external_transaction_id = "";
  created_at = now;
}

-- `FinishOrder`
unfoldable pub finish_order : FinishArgs → Proc Reply (Unit {0})
unfolding clear_row refund_row
finish_order a = do
  within "failed to begin transaction" (ask Sql.begin)
  and_rollback do
    now ← reply Sql.now
    within "failed to update order on finish" (
        ask (
          Sql.update_order (record {
            finish_time = a.finish_time;
            duration_seconds = a.duration_seconds;
            total_amount = a.total_amount;
            status = a.final_status;
            updated_at = now;
            id = a.order_id;
          })))
    found ←
        within "failed to fetch order for transactions" (ask (Sql.select_user_deposit a.order_id))
    elim found [
      | none ↦
          fail (wrapped "failed to fetch order for transactions" (message "no rows in result set"))
      | some (user_id, deposit) ↦ do
        within "failed to insert CLEAR transaction"
            (ask (Sql.insert_payment (clear_row a user_id now)))
        within "failed to insert REFUND transaction"
            (ask (Sql.insert_payment (refund_row a user_id deposit now)))
        within "failed to commit finish transaction" (ask Sql.commit)
    ]

abbrev cons_order : Order → Result (List Order) → Result (List Order)
cons_order o (ok os) = ok (o ∷ os)
cons_order o (err e) = err e

-- The loop over the rows of `GetOldOrders`.
unfoldable pub scan_rows : List (Result OrderRow) → Result (Unit {0}) → Result (List Order)
unfolding order_of_row
scan_rows [] (ok _) = ok []
scan_rows [] (err e) = err (wrapped "error iterating orders" e)
scan_rows (err e ∷ rest) final = err (wrapped "failed to scan order" e)
scan_rows (ok o ∷ rest) final = cons_order (order_of_row o) (scan_rows rest final)

-- `GetOldOrders`
unfoldable pub get_old_orders : Duration → Proc Reply (List Order)
unfolding scan_rows
get_old_orders older_than = do
  now ← reply Sql.now
  rows ← within "failed to query old orders" (ask (Sql.select_old_orders now older_than))
  ret (scan_rows rows.scans rows.final)

-- `DeleteOrders`
unfoldable pub delete_orders : List String → Proc Reply (Unit {0})
delete_orders [] = pure tt
delete_orders (id ∷ ids) = do
  within "failed to begin transaction" (ask Sql.begin)
  and_rollback do
    affected ← within "failed to delete orders" (ask (Sql.delete_orders (id ∷ ids)))
    if eqb affected 0
        then fail (message "no orders deleted")
        else within "failed to commit transaction" (ask Sql.commit)
