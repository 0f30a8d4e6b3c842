-- ===== src/Pricing.antt =====
-- client/internal/domain/pricing/calculator.go
pub mod Laws
pub mod Hundredths
mod Tests
use system_design_homework.Prelude.{Bool, ◌&&◌, if◌then◌else◌}
use system_design_homework.Prelude.Int.{ℤ, pos, ltb_ℤ, leb_ℤ}

-- Go's `float64`, with the operations that the program uses: the conversion of an `int`, the
-- product, the test `v <= 0`, the constant 1.0, and `int(math.Round(v))`.
pub record Float64 : Type 1 where
  pub F : Type 0
  pub of_int : ℤ → F
  pub mul : F → F → F
  pub is_le_zero : F → Bool
  pub one : F
  pub round_int : F → ℤ

module _ (f : Float64) where
  open f use {F, of_int, mul, is_le_zero, one, round_int}

  pub record Inputs : Type 0 where
    pub zone_price_per_minute : ℤ
    pub zone_price_unlock : ℤ
    pub zone_default_deposit : ℤ
    pub surge : F
    pub low_charge_discount : F
    pub low_charge_threshold_percent : ℤ
    pub scooter_charge_percent : ℤ
    pub has_subscription : Bool
    pub trusted : Bool

  pub record Output : Type 0 where
    pub price_per_minute : ℤ
    pub price_unlock : ℤ
    pub deposit : ℤ

  -- `safeFloat`
  unfoldable pub safe_float : F → F → F
  safe_float v def = if is_le_zero v then def else v

  -- The guard of the discount.
  unfoldable pub is_low_charge : Inputs → Bool
  is_low_charge i =
      leb_ℤ (pos 0) i.scooter_charge_percent
      && ltb_ℤ (pos 0) i.low_charge_threshold_percent
      && ltb_ℤ i.scooter_charge_percent i.low_charge_threshold_percent

  abbrev not_negative : ℤ → ℤ
  not_negative n = if ltb_ℤ n (pos 0) then pos 0 else n

  -- `ppm` before it is rounded.
  unfoldable pub raw_price : Inputs → F
  unfolding safe_float is_low_charge
  raw_price i =
      let ppm = mul (of_int i.zone_price_per_minute) (safe_float i.surge one) in
      if is_low_charge i then mul ppm (safe_float i.low_charge_discount one) else ppm

  -- `Calculate`
  unfoldable pub calculate : Inputs → Output
  unfolding raw_price
  calculate i = record {
    price_per_minute = not_negative (round_int (raw_price i));
    price_unlock = not_negative (if i.has_subscription then pos 0 else i.zone_price_unlock);
    deposit = not_negative (if i.trusted then pos 0 else i.zone_default_deposit);
  }
