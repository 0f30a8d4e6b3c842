-- ===== src/Orders/Values.antt =====
-- The values of client/internal/domain/orders/service.go: a new order, the length and the price of a
-- ride, and what is stored at its end.
use system_design_homework.Prelude.{
  zero, suc, ℕ, ltb, leb, ◌+◌, ◌-◌, ◌*◌, ◌/◌, ◌%◌, ◌^◌, String, Bool, true, false, Option, none,
  some, if◌then◌else◌,
}
use system_design_homework.Prelude.Int.{ℤ, pos, negsuc, sub_ℕ, ltb_ℤ, leb_ℤ, add64, mul64}
use system_design_homework.Api.{
  Time, Duration, second, minute, OrderStatus, active, cancelled, finished, payment_failed, Offer,
  Order,
}
use system_design_homework.Orders.Calls.{FinishArgs}

pub record CreateOrderRequest : Type 0 where
  pub order_id : String
  pub offer_id : String
  pub user_id : String

abbrev pub order_ttl : Duration
order_ttl = 30 * minute

-- The order that `CreateOrder` builds from an offer.
unfoldable pub new_order : CreateOrderRequest → Offer → Time → Order
new_order req offer t = record {
  current_amount = some offer.price_unlock;
  deposit = some offer.deposit;
  duration_seconds = none;
  finish_time = none;
  id = req.order_id;
  offer_id = req.offer_id;
  price_per_minute = some offer.price_per_minute;
  price_unlock = some offer.price_unlock;
  scooter_id = offer.scooter_id;
  start_time = t;
  status = active;
  user_id = req.user_id;
}

-- The first power of two above a number of seconds, from 2^25 on.
abbrev pub power_above : ℕ → ℕ → ℕ → ℕ
power_above zero p seconds = p
power_above (suc k) p seconds =
    let next = power_above k (2 * p) seconds in if ltb seconds p then p else next

-- `Seconds()` adds the whole seconds and the rest as `float64`. The sum of less than 2^24 seconds
-- stays below the next second. From there on, 2^e seconds or more, it is rounded up to that second if
-- the rest, as a `float64`, comes as near to a second as 2^(e-53), half of a unit in the last place.
abbrev pub rounds_up : ℕ → ℕ → Bool
rounds_up seconds rest =
    if ltb seconds 16777216
    then false
    else leb (second * 2 ^ 54) (rest * 2 ^ 54 + second * (power_above 9 33554432 seconds + 1))

-- `int(d.Seconds())` of a duration that is not negative.
abbrev pub whole_seconds : ℕ → ℕ
whole_seconds n = if rounds_up (n / second) (n % second) then n / second + 1 else n / second

abbrev at_most : ℕ → ℕ → ℕ
at_most max n = if leb n max then n else max

-- `int(d.Seconds())` of a difference of times, in nanoseconds, where `Sub` stops at the ends of a
-- `Duration`, a 64-bit integer.
unfoldable pub int_seconds : ℤ → ℤ
int_seconds (pos n) = pos (whole_seconds (at_most (2 ^ 63 - 1) n))
int_seconds (negsuc n) = sub_ℕ 0 (whole_seconds (at_most (2 ^ 63) (n + 1)))

-- `durationSeconds`, with the clamp to zero.
unfoldable pub ride_seconds : Time → Time → ℤ
unfolding int_seconds
ride_seconds start t = let d = int_seconds (sub_ℕ t start) in if ltb_ℤ d (pos 0) then pos 0 else d

-- `int(math.Ceil(float64(durationSeconds) / 60.0))`
unfoldable pub ceil_minutes : ℤ → ℤ
ceil_minutes (pos n) = pos ((n + 59) / 60)
ceil_minutes (negsuc n) = sub_ℕ 0 ((n + 1) / 60)

-- `*p` if the pointer is not nil, else 0.
abbrev pub int_value : Option ℤ → ℤ
int_value none = pos 0
int_value (some n) = n

-- A ride shorter than the threshold is free; every minute begun is charged.
unfoldable pub ride_total : Order → ℤ → ℤ → ℤ
unfolding ceil_minutes
ride_total order threshold seconds =
    if leb_ℤ threshold seconds
    then add64 (int_value order.price_unlock)
        (mul64 (ceil_minutes seconds) (int_value order.price_per_minute))
    else pos 0

abbrev pub is_active : OrderStatus → Bool
is_active active = true
is_active cancelled = false
is_active finished = false
is_active payment_failed = false

-- What `FinishOrder` hands to the repository.
abbrev pub finish_args : String → Time → ℤ → ℤ → Bool × Bool → FinishArgs
finish_args id t seconds total settled = record {
  order_id = id;
  finish_time = t;
  duration_seconds = seconds;
  total_amount = total;
  final_status = if settled.0 then finished else payment_failed;
  charge_success = settled.0;
  unhold_success = settled.1;
  charge_tx_id = "";
}
