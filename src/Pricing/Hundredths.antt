-- ===== src/Pricing/Hundredths.antt =====
-- A number type for the tests: not negative, in hundredths, with what the price needs of `float64`.
use system_design_homework.Prelude.{ℕ, ◌+◌, ◌*◌, ◌/◌, ◌≤◌, ◌≡◌, refl, eqb, arith}
use system_design_homework.Prelude.Int.{ℤ, pos, negsuc}
use system_design_homework.Pricing.{Float64}
use system_design_homework.Pricing.Laws.{FloatLaws}

abbrev pub of_int : ℤ → ℕ
of_int (pos n) = n * 100
of_int (negsuc n) = 0

abbrev pub hundredths : Float64
hundredths = record {
  F = ℕ;
  of_int = of_int;
  mul = λ a b. a * b / 100;
  is_le_zero = λ a. eqb a 0;
  one = 100;
  round_int = λ a. pos ((a + 50) / 100);
}

abbrev pub IsWhole : ℤ → Type 0
IsWhole (pos n) = Unit {0}
IsWhole (negsuc n) = ⊥

pub shrink : (x d : ℕ) → d ≤ 100 → x * d / 100 ≤ x
shrink x d le = let most : x * d ≤ x * 100 = grind arith in omega arith

pub round_whole : (n : ℤ) → IsWhole n → pos ((of_int n + 50) / 100) ≡ n
round_whole (pos n) h = let e : (n * 100 + 50) / 100 ≡ n = omega arith in rw e refl
round_whole (negsuc n) h = absurd h

abbrev pub hundredths-laws : FloatLaws hundredths
hundredths-laws = record {
  Le = λ (a b : ℕ). a ≤ b;
  IsExact = IsWhole;
  InRange = λ (a : ℕ). Unit {0};
  range_shrink = λ x d positive le start fits. tt;
  mul_one = λ (x : ℕ). omega arith;
  mul_shrink = λ x d positive le start. shrink x d le;
  round_mono = λ (x y : ℕ) fits fits' le. omega arith;
  round_of_int = round_whole;
}
