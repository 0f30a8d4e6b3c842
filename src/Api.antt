-- ===== src/Api.antt =====
-- The values of client/api/api.gen.go. A time is the number of nanoseconds since the zero
-- `time.Time`; an `int` is an integer, its range is stated where arithmetic is done.
use system_design_homework.Prelude.{ℕ, String, Option}
use system_design_homework.Prelude.Int.{ℤ}

abbrev pub Time : Type 0
Time = ℕ

-- A `time.Duration` that is not negative, in nanoseconds.
abbrev pub Duration : Type 0
Duration = ℕ

abbrev pub second : Duration
second = 1000000000

abbrev pub minute : Duration
minute = 60000000000

pub data OrderStatus : Type 0 where
  active cancelled finished payment_failed : OrderStatus

-- A pointer field is an `Option`.
pub record Offer : Type 0 where
  pub created_at : Option Time
  pub deposit : ℤ
  pub expires_at : Time
  pub id : String
  pub price_per_minute : ℤ
  pub price_unlock : ℤ
  pub scooter_id : String
  pub user_id : String
  pub zone_id : String

pub record Order : Type 0 where
  pub current_amount : Option ℤ
  pub deposit : Option ℤ
  pub duration_seconds : Option ℤ
  pub finish_time : Option Time
  pub id : String
  pub offer_id : String
  pub price_per_minute : Option ℤ
  pub price_unlock : Option ℤ
  pub scooter_id : String
  pub start_time : Time
  pub status : OrderStatus
  pub user_id : String
