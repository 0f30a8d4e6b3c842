-- ===== src/Result.antt =====
-- Go's `(T, error)` results of the client service, and the errors that its packages return.
use system_design_homework.Prelude.{ℕ, String, Bool, true, false}

-- A sentinel is compared by identity, and an error wrapped by `fmt.Errorf` with `%w` is another
-- value than its cause. `message` is a plain `fmt.Errorf`.
pub data Error : Type 0 where
  message : String → Error
  wrapped : String → Error → Error
  unexpected_status : String → ℕ → Error
  err_offer_not_found err_offer_expired err_offer_already_used err_invalid_user : Error
  err_order_not_active err_no_such_order : Error
  err_scooters_unavailable err_zone_unavailable : Error

pub data Result {ℓ} (A : Type ℓ) : Type ℓ where
  ok : A → Result A
  err : Error → Result A

-- What a caller makes of an error: `return fmt.Errorf("text: %w", err)`.
abbrev pub context {ℓ} : {A : Type ℓ} → String → Result A → Result A
context text (ok a) = ok a
context text (err e) = err (wrapped text e)

abbrev pub is_ok {ℓ} : {A : Type ℓ} → Result A → Bool
is_ok (ok a) = true
is_ok (err e) = false

-- `if err != nil { return err }` behind a step.
infixl 5 ◌>>=◌
abbrev pub ◌>>=◌ : {A B : Type 0} → Result A → (A → Result B) → Result B
ok a >>= f = f a
err e >>= f = err e
