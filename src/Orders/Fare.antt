-- ===== src/Orders/Fare.antt =====
-- The price of a ride: `ride_seconds`, `ceil_minutes` and `ride_total` of Orders/Values.antt.
use system_design_homework.Prelude.{ℕ, ◌+◌, ◌-◌, ◌*◌, ◌/◌, ◌≤◌, ◌<◌, ◌≡◌, arith}
use native.Mathlib.Decide.{dec_lt}
use system_design_homework.Prelude.Int.{pos, ◌≤ℤ◌, mul64_pos, add64_pos}
use system_design_homework.Api.{Time, second, Order}
use system_design_homework.Orders.Values.{int_value, int_seconds, ride_seconds, ride_total}

-- A ride of less than 2^24 seconds takes the whole seconds between its start and its end, and none if
-- the clock went back.
ride_seconds_exact :
    (start t : Time)
    → (t - start) / second < 16777216
    → ride_seconds start t ≡ pos ((t - start) / second)
unfolding ride_seconds int_seconds
ride_seconds_exact start t short = ground arith

module _ (order : Order) (p u : ℕ) (minute_price : int_value order.price_per_minute ≡ pos p)
    (unlock_price : int_value order.price_unlock ≡ pos u) where
  -- The price of `m` begun minutes, where it fits an `int`.
  ride_total_minutes :
      (threshold seconds m : ℕ)
      → threshold ≤ seconds
      → seconds ≤ 60 * m
      → 60 * m < seconds + 60
      → u + m * p < 9223372036854775808
      → ride_total order (pos threshold) (pos seconds) ≡ pos (u + m * p)
  unfolding ride_total
  ride_total_minutes threshold seconds m long above least fits =
      let minutes : (seconds + 59) / 60 ≡ m = omega arith in
      ground (arith, minutes, mul64_pos m p, add64_pos u (m * p))

  ride_total_short :
      (threshold seconds : ℕ)
      → seconds < threshold
      → ride_total order (pos threshold) (pos seconds) ≡ pos 0
  unfolding ride_total
  ride_total_short threshold seconds short = ground arith

  -- For an order with prices p per minute and u to unlock, neither negative: a ride that ends
  -- before the threshold is free, and any other costs u and p for each of its m begun minutes, as
  -- long as that fits an `int` and the ride takes less than 2^24 seconds, 194 days. Its length is
  -- then the whole seconds from its start to its end, and zero if it ends before its start.
  pub ride_total_fare :
      (start t : Time) (threshold m : ℕ)
      → (t - start) / second < 16777216
      → (t - start) / second ≤ 60 * m
      → 60 * m < (t - start) / second + 60
      → u + m * p < 9223372036854775808
      → ((t - start) / second < threshold
          → ride_total order (pos threshold) (ride_seconds start t) ≡ pos 0)
        × (threshold ≤ (t - start) / second
            → ride_total order (pos threshold) (ride_seconds start t) ≡ pos (u + m * p))
  ride_total_fare start t threshold m exact above least fits = (
    λ short. rw (ride_seconds_exact start t exact) (ride_total_short threshold _ short),
    λ long.
        rw (ride_seconds_exact start t exact)
          (ride_total_minutes threshold _ m long above least fits),
  )

  ride_total_nonneg :
      (threshold s : ℕ)
      → u + (s + 59) / 60 * p < 9223372036854775808
      → pos 0 ≤ℤ ride_total order (pos threshold) (pos s)
  ride_total_nonneg threshold s fits = elim (dec_lt s threshold) [
    | yes short ↦ rw (ride_total_short threshold s short) (omega arith)
    | no long ↦
        rw
          (ride_total_minutes threshold s ((s + 59) / 60) (omega arith) (omega arith) (omega arith)
            fits)
          (omega arith)
  ]

  -- A longer ride never costs less, for prices that are not negative and amounts that fit an `int`.
  pub ride_total_mono :
      (threshold s s' : ℕ)
      → s ≤ s'
      → u + (s' + 59) / 60 * p < 9223372036854775808
      → ride_total order (pos threshold) (pos s) ≤ℤ ride_total order (pos threshold) (pos s')
  ride_total_mono threshold s s' le fits = elim (dec_lt s threshold) [
    | yes short ↦ rw (ride_total_short threshold s short) (ride_total_nonneg threshold s' fits)
    | no long ↦
        let m = (s + 59) / 60 in
        let m' = (s' + 59) / 60 in
        let grows : m * p ≤ m' * p = grind arith in
        rw
          (
            ride_total_minutes threshold s m (omega arith) (omega arith) (omega arith)
                (omega arith),
            ride_total_minutes threshold s' m' (omega arith) (omega arith) (omega arith) fits,
          )
          (omega arith)
  ]
