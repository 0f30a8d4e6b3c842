-- ===== src/Program/Always.antt =====
-- What holds of every result of a method, whatever is replied.
use system_design_homework.Program.{Prog, ret, call, run, then_do}

module _ {C : Type 0} {R : C → Type 0} where
  abbrev pub Always : {A : Type 0} → (A → Type 0) → Prog R A → Type 0
  Always P (ret a) = P a
  Always P (call c k) = (r : R c) → Always P (k r)

  pub Always-run :
      {A W : Type 0} (h : (c : C) → W → R c × W) (P : A → Type 0) (p : Prog R A) (w : W)
      → Always P p
      → P (run h p w).0
  unfolding run
  Always-run h P (ret a) w e = e
  Always-run h P (call c k) w e = Always-run h P (k (h c w).0) (h c w).1 (e (h c w).0)

  pub Always-then_do :
      {A B : Type 0} (Q : A → Type 0) (P : B → Type 0) (f : A → Prog R B) (p : Prog R A)
      → ((a : A) → Q a → Always P (f a))
      → Always Q p
      → Always P (then_do f p)
  Always-then_do Q P f (ret a) next e = next a e
  Always-then_do Q P f (call c k) next e = λ r. Always-then_do Q P f (k r) next (e r)

  -- Of any program, what holds of all values.
  pub Always-all : {A : Type 0} (P : A → Type 0) (p : Prog R A) → ((a : A) → P a) → Always P p
  Always-all P (ret a) all = all a
  Always-all P (call c k) all = λ r. Always-all P (k r) all
