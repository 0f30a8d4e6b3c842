-- ===== src/External.antt =====
-- client/internal/external: the values that the external service client passes on.
pub mod Client
use system_design_homework.Prelude.{String, Bool}
use system_design_homework.Prelude.Int.{ℤ}

pub record PaymentHoldRequest : Type 0 where
  pub user_id : String
  pub order_id : String
  pub amount : ℤ

pub record PaymentHoldResponse : Type 0 where
  pub transaction_id : String
  pub success : Bool

-- Go's `float64` is the parameter `F`.
pub record DynamicConfigs (F : Type 0) : Type 0 where
  pub surge : F
  pub low_charge_discount : F
  pub low_charge_threshold_percent : ℤ
  pub incomplete_ride_threshold_seconds : ℤ

-- client/internal/external/api_client.gen.go
pub record ScooterData : Type 0 where
  pub charge : ℤ
  pub id : String
  pub zone_id : String

pub record TariffZone : Type 0 where
  pub default_deposit : ℤ
  pub id : String
  pub price_per_minute : ℤ
  pub price_unlock : ℤ

pub record UserProfile : Type 0 where
  pub has_subscription : Bool
  pub id : String
  pub trusted : Bool
