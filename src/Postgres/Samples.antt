-- ===== src/Postgres/Samples.antt =====
-- Sample values for the tests: an order, an empty database, and one with a stored order.
use system_design_homework.Prelude.{suc, true, none, some, [], ◌∷◌}
use system_design_homework.Prelude.Int.{pos}
use system_design_homework.Api.{Time, Order, active, finished}
use system_design_homework.Orders.Calls.{FinishArgs}
use system_design_homework.Postgres.Tables.{OrderRow}
use system_design_homework.Postgres.Server.{Db}

abbrev pub order_1 : Order
order_1 = record {
  current_amount = some (pos 30);
  deposit = some (pos 200);
  duration_seconds = none;
  finish_time = none;
  id = "order-1";
  offer_id = "offer-1";
  price_per_minute = some (pos 7);
  price_unlock = none;
  scooter_id = "s1";
  start_time = 2000;
  status = active;
  user_id = "u1";
}

abbrev pub row_2 : OrderRow
row_2 = record {
  id = "order-2";
  user_id = "u2";
  scooter_id = "s2";
  offer_id = "offer-2";
  price_per_minute = pos 7;
  price_unlock = pos 30;
  deposit = pos 200;
  total_amount = pos 30;
  status = active;
  start_time = 100;
  finish_time = none;
  duration_seconds = none;
  created_at = 100;
  updated_at = 100;
}

abbrev pub finish_2 : FinishArgs
finish_2 = record {
  order_id = "order-2";
  finish_time = 5000;
  duration_seconds = pos 60;
  total_amount = pos 37;
  final_status = finished;
  charge_success = true;
  unhold_success = true;
  charge_tx_id = "";
}

abbrev pub as_is : Time → Time
as_is t = t

abbrev pub one_on : Time → Time
one_on t = suc t

abbrev pub db_1 : Db
db_1 = record {
  tables = record { orders = row_2 ∷ []; payments = [] };
  pending = none;
  faults = [];
  clock = 3000;
}
