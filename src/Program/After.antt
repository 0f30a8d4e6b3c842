-- ===== src/Program/After.antt =====
-- What holds of a method when it returns, against one given environment and from one given world.
use system_design_homework.Prelude.{◌≡◌, refl}
use system_design_homework.Result.{Result, ok, err, Error}
use system_design_homework.Program.{Prog, Proc, ret, call, run, ◌>>=◌}

module _ {C : Type 0} {R : C → Type 0} {W : Type 0} (h : (c : C) → W → R c × W) where
  abbrev pub After : {A : Type 0} → (A → W → Type 0) → Prog R A → W → Type 0
  After Q (ret a) w = Q a w
  After Q (call c k) w = After Q (k (h c w).0) (h c w).1

  pub After-run :
      {A : Type 0} (Q : A → W → Type 0) (p : Prog R A) (w : W)
      → After Q p w
      → Q (run h p w).0 (run h p w).1
  unfolding run
  After-run Q (ret a) w e = e
  After-run Q (call c k) w e = After-run Q (k (h c w).0) (h c w).1 e

  -- By what the first call replies.
  pub After-call :
      {A : Type 0} (Q : A → W → Type 0) (c : C) (k : R c → Prog R A) (w : W)
      → ((r : R c) → (h c w).0 ≡ r → After Q (k r) (h c w).1)
      → After Q (call c k) w
  After-call Q c k w f = f (h c w).0 refl

  pub After-bind :
      {A B : Type 0} (P : Result B → W → Type 0) (Q : Result A → W → Type 0) (p : Proc R B)
      (f : B → Proc R A) (w : W)
      → After P p w
      → ((b : B) (w' : W) → P (ok b) w' → After Q (f b) w')
      → ((e : Error) (w' : W) → P (err e) w' → Q (err e) w')
      → After Q (p >>= f) w
  After-bind P Q (ret (ok b)) f w e good bad = good b w e
  After-bind P Q (ret (err x)) f w e good bad = bad x w e
  After-bind P Q (call c k) f w e good bad = After-bind P Q (k (h c w).0) f (h c w).1 e good bad

  pub After-mono :
      {A : Type 0} (P Q : A → W → Type 0) (p : Prog R A) (w : W)
      → ((a : A) (w' : W) → P a w' → Q a w')
      → After P p w
      → After Q p w
  After-mono P Q (ret a) w sub e = sub a w e
  After-mono P Q (call c k) w sub e = After-mono P Q (k (h c w).0) (h c w).1 sub e

  -- What every call keeps is kept.
  pub After-keeps :
      {A : Type 0} (P : W → Type 0) (keep : (c : C) (w : W) → P w → P (h c w).1) (p : Prog R A)
      (w : W)
      → P w
      → After (λ a w'. P w') p w
  After-keeps P keep (ret a) w e = e
  After-keeps P keep (call c k) w e = After-keeps P keep (k (h c w).0) (h c w).1 (keep c w e)
