-- ===== src/Postgres/Tables.antt =====
-- client/migrations/001_create_orders_and_payments.sql: the rows, and what the constraints of the
-- two tables make of each statement of the order repository.
use Prim.Native.String.{count}
use system_design_homework.Prelude.{
  ℕ, suc, leb, String, Bool, true, false, not, ◌&&◌, Option, none, some, List, [], ◌∷◌, ◌==◌,
  if◌then◌else◌,
}
use system_design_homework.Prelude.Int.{ℤ, pos, negsuc, leb_ℤ}
use system_design_homework.Api.{Time, OrderStatus}

pub data TransactionType : Type 0 where
  hold clear refund : TransactionType

pub data TransactionStatus : Type 0 where
  success failed pending : TransactionStatus

pub record OrderRow : Type 0 where
  pub id : String
  pub user_id : String
  pub scooter_id : String
  pub offer_id : String
  pub price_per_minute : ℤ
  pub price_unlock : ℤ
  pub deposit : ℤ
  pub total_amount : ℤ
  pub status : OrderStatus
  pub start_time : Time
  pub finish_time : Option Time
  pub duration_seconds : Option ℤ
  pub created_at : Time
  pub updated_at : Time

-- `error_message` is never written.
pub record PaymentRow : Type 0 where
  pub id : String
  pub order_id : String
  pub user_id : String
  pub transaction_type : TransactionType
  pub amount : ℤ
  pub status : TransactionStatus
  pub external_transaction_id : String
  pub created_at : Time

pub record Tables : Type 0 where
  pub orders : List OrderRow
  pub payments : List PaymentRow

-- The range of the type INTEGER.
abbrev pub is_integer : ℤ → Bool
is_integer n = leb_ℤ (negsuc 2147483647) n && leb_ℤ n (pos 2147483647)

-- The type VARCHAR(255), in characters.
unfoldable pub is_varchar : String → Bool
is_varchar s = leb (count s) 255

unfoldable pub fits_order : OrderRow → Bool
fits_order o =
    is_integer o.price_per_minute
    && is_integer o.price_unlock
    && is_integer o.deposit
    && is_integer o.total_amount
    && is_varchar o.id
    && is_varchar o.user_id
    && is_varchar o.scooter_id
    && is_varchar o.offer_id

-- The amount and the texts of a transaction.
unfoldable pub fits_payment : PaymentRow → Bool
fits_payment p =
    is_integer p.amount
    && is_varchar p.id
    && is_varchar p.order_id
    && is_varchar p.user_id
    && is_varchar p.external_transaction_id

unfoldable pub find_order : String → List OrderRow → Option OrderRow
find_order id [] = none
find_order id (o ∷ os) = if o.id == id then some o else find_order id os

unfoldable pub has_order : String → List OrderRow → Bool
has_order id [] = false
has_order id (o ∷ os) = if o.id == id then true else has_order id os

unfoldable pub has_payment : String → List PaymentRow → Bool
has_payment id [] = false
has_payment id (p ∷ ps) = if p.id == id then true else has_payment id ps

-- INSERT INTO orders: refused if a number is out of range, a text is too long or the primary key is taken.
unfoldable pub insert_order : OrderRow → Tables → Option Tables
insert_order o t =
    if not (fits_order o)
    then none
    else if has_order o.id t.orders
    then none
    else some (record t { orders = o ∷ t.orders })

-- INSERT INTO payment_transactions: besides, the foreign key must name an order.
unfoldable pub insert_payment : PaymentRow → Tables → Option Tables
insert_payment p t =
    if not (fits_payment p)
    then none
    else if has_payment p.id t.payments
    then none
    else if has_order p.order_id t.orders
    then some (record t { payments = p ∷ t.payments })
    else none

-- UPDATE orders SET ... WHERE id = ...
unfoldable pub update_orders : String → (OrderRow → OrderRow) → List OrderRow → List OrderRow
update_orders id f [] = []
update_orders id f (o ∷ os) = (if o.id == id then f o else o) ∷ update_orders id f os

unfoldable pub is_listed : String → List String → Bool
is_listed id [] = false
is_listed id (x ∷ xs) = if x == id then true else is_listed id xs

-- DELETE FROM orders WHERE id = ANY(ids)
unfoldable pub delete_orders : List String → List OrderRow → List OrderRow
delete_orders ids [] = []
delete_orders ids (o ∷ os) =
    let rest = delete_orders ids os in if is_listed o.id ids then rest else o ∷ rest

unfoldable pub count_listed : List String → List OrderRow → ℕ
count_listed ids [] = 0
count_listed ids (o ∷ os) =
    let rest = count_listed ids os in if is_listed o.id ids then suc rest else rest

-- ON DELETE CASCADE
unfoldable pub cascade : List String → List PaymentRow → List PaymentRow
cascade ids [] = []
cascade ids (p ∷ ps) =
    let rest = cascade ids ps in if is_listed p.order_id ids then rest else p ∷ rest
