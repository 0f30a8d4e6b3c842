-- ===== src/Pricing/Laws.antt =====
-- What a price is, with what is documented of `float64`.
use system_design_homework.Prelude.{◌≡◌, Bool-cases, inl, inr, true, false, arith, if◌then◌else◌}
use system_design_homework.Prelude.Int.{ℤ, pos, negsuc, ◌≤ℤ◌, ltb_ℤ}
use system_design_homework.Pricing.{
  Float64, Inputs, calculate, raw_price, is_low_charge, safe_float,
}

-- IEEE 754 facts: 1 is neutral, a positive factor of at most 1 does not increase a product that is
-- not negative, and among the values that round to an `int` (the conversion of any other is not
-- determined) rounding is monotone, and keeps the integers that a float64 represents exactly.
pub record FloatLaws (f : Float64) : Type 1 where
  pub Le : f.F → f.F → Type 0
  pub IsExact : ℤ → Type 0
  -- Rounded, it is an `int`.
  pub InRange : f.F → Type 0
  pub mul_one : (x : f.F) → f.mul x f.one ≡ x
  pub mul_shrink :
      (x d : f.F) → f.is_le_zero d ≡ false → Le d f.one → Le (f.of_int (pos 0)) x → Le (f.mul x d) x
  pub range_shrink :
      (x d : f.F)
      → f.is_le_zero d ≡ false
      → Le d f.one
      → Le (f.of_int (pos 0)) x
      → InRange x
      → InRange (f.mul x d)
  pub round_mono : (x y : f.F) → InRange x → InRange y → Le x y → f.round_int x ≤ℤ f.round_int y
  pub round_of_int : (n : ℤ) → IsExact n → f.round_int (f.of_int n) ≡ n

-- The larger of an amount and zero.
abbrev pub max_zero : ℤ → ℤ
max_zero (pos n) = pos n
max_zero (negsuc n) = pos 0

module _ (f : Float64) where
  -- No price or amount is negative. A subscription makes unlocking free and trust waives the
  -- deposit; without them they are those of the zone, or 0 where the zone's are negative.
  pub calculate_amounts :
      (i : Inputs f)
      → (pos 0 ≤ℤ (calculate f i).price_per_minute)
        × ((calculate f i).price_unlock
            ≡ (if i.has_subscription then pos 0 else max_zero i.zone_price_unlock))
        × ((calculate f i).deposit ≡ (if i.trusted then pos 0 else max_zero i.zone_default_deposit))
  unfolding calculate
  calculate_amounts i = ground arith

module _ (f : Float64) (laws : FloatLaws f) where
  open laws use {Le, IsExact, InRange, mul_one, mul_shrink, range_shrink, round_mono, round_of_int}

  -- With a surge that is not positive, or absent, and no discount, the price per minute is the
  -- zone's, or 0 where that is negative.
  calculate_plain :
      (i : Inputs f)
      → f.is_le_zero i.surge ≡ true
      → is_low_charge f i ≡ false
      → IsExact i.zone_price_per_minute
      → (calculate f i).price_per_minute ≡ max_zero i.zone_price_per_minute
  unfolding calculate safe_float
  calculate_plain i no_surge charged exact = ground (
    arith,
    mul_one (f.of_int i.zone_price_per_minute),
    round_of_int i.zone_price_per_minute exact,
  )

  not_negative_mono :
      (a b : ℤ)
      → a ≤ℤ b
      → (if ltb_ℤ a (pos 0) then pos 0 else a) ≤ℤ (if ltb_ℤ b (pos 0) then pos 0 else b)
  not_negative_mono a b h = ground arith

  discounted_price :
      (i : Inputs f) (full : ℤ)
      → is_low_charge f (record i { scooter_charge_percent = full }) ≡ false
      → Le i.low_charge_discount f.one
      → Le (f.of_int (pos 0)) (raw_price f (record i { scooter_charge_percent = full }))
      → InRange (raw_price f (record i { scooter_charge_percent = full }))
      → f.round_int (raw_price f i)
        ≤ℤ f.round_int (raw_price f (record i { scooter_charge_percent = full }))
  unfolding raw_price safe_float
  discounted_price i full charged small positive in_range =
      let base = raw_price f (record i { scooter_charge_percent = full }) in
      elim (Bool-cases (is_low_charge f i)) [
        | inr e ↦ ground arith
        | inl e ↦ elim (Bool-cases (f.is_le_zero i.low_charge_discount)) [
          | inl z ↦ ground (arith, mul_one base)
          | inr z ↦ ground (
            arith,
            round_mono _ _ (range_shrink base i.low_charge_discount z small positive in_range)
                in_range (mul_shrink base i.low_charge_discount z small positive),
          )
        ]
      ]

  -- A scooter whose charge earns the discount costs no more per minute than the same scooter with a
  -- charge that does not, where the discount is at most 1 and the undiscounted price is not
  -- negative and rounds to an `int`. A discount that is not positive counts as 1.
  pub discount_lowers :
      (i : Inputs f) (full : ℤ)
      → is_low_charge f (record i { scooter_charge_percent = full }) ≡ false
      → Le i.low_charge_discount f.one
      → Le (f.of_int (pos 0)) (raw_price f (record i { scooter_charge_percent = full }))
      → InRange (raw_price f (record i { scooter_charge_percent = full }))
      → (calculate f i).price_per_minute
        ≤ℤ (calculate f (record i { scooter_charge_percent = full })).price_per_minute
  unfolding calculate
  discount_lowers i full charged small positive in_range =
      not_negative_mono (f.round_int (raw_price f i))
        (f.round_int (raw_price f (record i { scooter_charge_percent = full })))
        (discounted_price i full charged small positive in_range)
