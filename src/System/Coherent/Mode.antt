-- ===== src/System/Coherent/Mode.antt =====
-- What a method of the orders service may ask for, so that the cache stays coherent.
use system_design_homework.Prelude.{String, ◌≡◌, Option, none, some}
use system_design_homework.Result.{ok}
use system_design_homework.Api.{Time, Order}
use system_design_homework.Orders.Calls.{Call, Reply}
use system_design_homework.Postgres.OrderRepository.{order_of_row, row_of_order}

-- How far a method is: between its calls the cache is coherent, and the order that it last read or
-- stored is known to be stored; or the entry of one order may be out of date.
pub data Mode : Type 0 where
  clean : Option Order → Mode
  stale : String → Mode

-- What a method may ask for. An order that is stored must be whole: its row holds all of it.
abbrev pub May : Mode → Call → Type 0
May (clean known) (Call.cache_set o ttl) = known ≡ some o
May (clean known) (Call.create_order o tx) = (now : Time) → order_of_row (row_of_order o now) ≡ o
May (clean known) (Call.cache_invalidate id) = ⊥
May (clean known) _ = Unit {0}
May (stale id) (Call.cache_invalidate id') = id ≡ id'
May (stale id) _ = ⊥

-- Where its reply leads.
abbrev pub next : (F : Type 0) → Mode → (c : Call) → Reply F c → Mode
next F (clean known) (Call.get_order_by_id id) (ok (some o)) = clean (some o)
next F (clean known) (Call.create_order o tx) (ok u) = clean (some o)
next F (clean known) (Call.finish_order a) (ok u) = stale a.order_id
next F (clean known) c r = clean known
next F (stale id) (Call.cache_invalidate id') r = clean none
next F (stale id) c r = stale id
