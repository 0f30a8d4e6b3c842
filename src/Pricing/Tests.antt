-- ===== src/Pricing/Tests.antt =====
-- The theorems on prices at concrete inputs.
use system_design_homework.Prelude.{◌≡◌, refl, true, false, arith, if◌then◌else◌}
use system_design_homework.Prelude.Int.{pos, ◌≤ℤ◌}
use system_design_homework.Pricing.{Inputs, calculate, is_low_charge}
use system_design_homework.Pricing.Laws.{calculate_amounts, discount_lowers, max_zero}
use system_design_homework.Pricing.Hundredths.{hundredths, hundredths-laws}

-- A scooter with 10 percent, for a user with a subscription.
abbrev inputs : Inputs hundredths
inputs = record {
  zone_price_per_minute = pos 7;
  zone_price_unlock = pos 50;
  zone_default_deposit = pos 200;
  surge = 120;
  low_charge_discount = 70;
  low_charge_threshold_percent = pos 28;
  scooter_charge_percent = pos 10;
  has_subscription = true;
  trusted = false;
}

charged : is_low_charge hundredths (record inputs { scooter_charge_percent = pos 80 }) ≡ false
unfolding is_low_charge
charged = refl

discount_lowers_example :
    (calculate hundredths inputs).price_per_minute
    ≤ℤ (calculate hundredths (record inputs { scooter_charge_percent = pos 80 })).price_per_minute
discount_lowers_example =
    discount_lowers hundredths hundredths-laws inputs (pos 80) charged (omega arith) (omega arith)
      tt

calculate_amounts_example :
    (pos 0 ≤ℤ (calculate hundredths inputs).price_per_minute)
    × ((calculate hundredths inputs).price_unlock
        ≡ (if inputs.has_subscription then pos 0 else max_zero inputs.zone_price_unlock))
    × ((calculate hundredths inputs).deposit
        ≡ (if inputs.trusted then pos 0 else max_zero inputs.zone_default_deposit))
calculate_amounts_example = calculate_amounts hundredths inputs
