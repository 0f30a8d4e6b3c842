-- ===== src/System/Coherent/Entries.antt =====
-- The entries of the order cache against the tables.
use system_design_homework.Prelude.{
  String, ◌≡◌, sym, ap, inl, inr, true, false, Option, none, some, List, [], ◌∷◌, arith, eq_iff,
}
use system_design_homework.Api.{Time, Order}
use system_design_homework.Postgres.Tables.{OrderRow, Tables, find_order, has_order}
use system_design_homework.Postgres.OrderRepository.{order_of_row, row_of_order}
use system_design_homework.Postgres.Server.{kept_order}
use system_design_homework.Postgres.Server.Create.{with_order}
use system_design_homework.Redis.Calls.{Payload}
use system_design_homework.Redis.Server.{Stays}
use system_design_homework.System.Coherent.{rounded, Agrees, Fresh}

pub find-id :
    (id : String) (row : OrderRow) (os : List OrderRow) → find_order id os ≡ some row → row.id ≡ id
unfolding find_order
find-id id row [] h = cc
find-id id row (o ∷ os) h = ground (arith, find-id id row os, eq_iff o.id id)

has_order-find :
    (id : String) (row : OrderRow) (os : List OrderRow)
    → find_order id os ≡ some row
    → has_order id os ≡ true
unfolding find_order has_order
has_order-find id row [] h = cc
has_order-find id row (o ∷ os) h = ground (arith, has_order-find id row os)

module _ (at_rest : Time → Time) where
  pub Fresh-Stays :
      (id : String) (before after : Option Payload) (t : Tables)
      → Stays before after
      → Fresh at_rest id before t
      → Fresh at_rest id after t
  Fresh-Stays id before after t (inl same) f = rw same f
  Fresh-Stays id before after t (inr gone) f = rw gone tt

  -- An entry stays fresh where its order is still what is stored.
  pub Fresh-tables :
      (id : String) (p : Option Payload) (t t' : Tables)
      → ((row : OrderRow) → find_order id t.orders ≡ some row → find_order id t'.orders ≡ some row)
      → Fresh at_rest id p t
      → Fresh at_rest id p t'
  Fresh-tables id none t t' keep f = tt
  Fresh-tables id (some p) t t' keep (o, is_json, same, (row, found, alike)) =
      (o, is_json, same, (row, rw same (keep row (rw (sym same) found)), alike))

  pub find-with_order :
      (order : Order) (tx : String) (now : Time) (t : Tables) (id : String) (row : OrderRow)
      → has_order order.id t.orders ≡ false
      → find_order id t.orders ≡ some row
      → find_order id (with_order at_rest order tx now t).orders ≡ some row
  unfolding find_order row_of_order
  find-with_order order tx now t id row fresh found =
      ground (arith, has_order-find id row t.orders found, eq_iff order.id id)

  module _ (idem : (t : Time) → at_rest (at_rest t) ≡ at_rest t) where
    -- A new order whose row holds all of it agrees with the row.
    pub Agrees-with_order :
        (order : Order) (tx : String) (now : Time) (t : Tables)
        → order_of_row (row_of_order order now) ≡ order
        → Agrees at_rest order (with_order at_rest order tx now t)
    unfolding find_order row_of_order order_of_row
    Agrees-with_order order tx now t whole = (
      kept_order at_rest (row_of_order order now),
      ground (arith, eq_iff order.id order.id),
      rw (idem order.start_time) (ap (rounded at_rest) (sym whole)),
    )
