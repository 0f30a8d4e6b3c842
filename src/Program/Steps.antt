-- ===== src/Program/Steps.antt =====
-- Methods that return after a bounded number of calls, whatever the replies, and what
-- the rule of these calls means for methods that run at the same time.
use system_design_homework.Prelude.{ℕ, zero, suc, ◌+◌, ◌≤◌, List, [], ◌∷◌, arith}
use system_design_homework.Result.{Result, ok, err}
use system_design_homework.Program.{Prog, Proc, ret, call, ◌>>=◌, then_do}
use system_design_homework.Program.After.{After}
use system_design_homework.Program.Threads.{advance, interleave}

module _ {C : Type 0} {R : C → Type 0} (P : C → Type 0) where
  -- At most `n` calls, whatever is replied, each of which keeps the rule `P`.
  abbrev pub Within : {A : Type 0} → ℕ → Prog R A → Type 0
  Within n (ret a) = Unit {0}
  Within zero (call c k) = ⊥
  Within (suc n) (call c k) = P c × ((r : R c) → Within n (k r))

  pub Within-mono : {A : Type 0} (m n : ℕ) (p : Prog R A) → m ≤ n → Within m p → Within n p
  Within-mono m n (ret a) le h = tt
  Within-mono zero n (call c k) le h = absurd h
  Within-mono (suc m) zero (call c k) le h = absurd (omega arith)
  Within-mono (suc m) (suc n) (call c k) le h =
      (h.0, λ r. Within-mono m n (k r) (omega arith) (h.1 r))

  pub Within-bind :
      {A B : Type 0} (m n l : ℕ) (p : Proc R B) (f : B → Proc R A)
      → m + n ≤ l
      → Within m p
      → ((b : B) → Within n (f b))
      → Within l (p >>= f)
  Within-bind m n l (ret (ok b)) f le h g = Within-mono n l (f b) (omega arith) (g b)
  Within-bind m n l (ret (err e)) f le h g = tt
  Within-bind zero n l (call c k) f le h g = absurd h
  Within-bind (suc m) n zero (call c k) f le h g = absurd (omega arith)
  Within-bind (suc m) n (suc l) (call c k) f le h g =
      (h.0, λ r. Within-bind m n l (k r) f (omega arith) (h.1 r) g)

  pub Within-then_do :
      {A B : Type 0} (m : ℕ) (p : Prog R A) (f : A → B)
      → Within m p
      → Within m (then_do (λ a. ret (f a)) p)
  Within-then_do m (ret a) f h = tt
  Within-then_do zero (call c k) f h = absurd h
  Within-then_do (suc m) (call c k) f h = (h.0, λ r. Within-then_do m (k r) f (h.1 r))

  pub Within-ret :
      {A B : Type 0} (n : ℕ) (r : Result B) (f : B → Proc R A)
      → ((b : B) → Within n (f b))
      → Within n (ret r >>= f)
  Within-ret n (ok b) f g = g b
  Within-ret n (err e) f g = tt

  -- What a call that keeps the rule keeps of the world is kept when the method returns.
  pub After-rule :
      {A W : Type 0} (h : (c : C) → W → R c × W) (K : W → Type 0)
      (keep : (c : C) (w : W) → P c → K w → K (h c w).1) (n : ℕ) (p : Prog R A) (w : W)
      → Within n p
      → K w
      → After h (λ a w'. K w') p w
  After-rule h K keep n (ret a) w f k = k
  After-rule h K keep zero (call c q) w f k = absurd f
  After-rule h K keep (suc n) (call c q) w f k =
      After-rule h K keep n (q (h c w).0) (h c w).1 (f.1 (h c w).0) (keep c w f.0 k)

  -- Every method of a pool keeps the rule.
  abbrev pub AllWithin : {A : Type 0} → ℕ → List (Prog R A) → Type 0
  AllWithin n [] = Unit {0}
  AllWithin n (p ∷ ps) = Within n p × AllWithin n ps

  Within-later :
      {A : Type 0} (n : ℕ) (c : C) (k : R c → Prog R A) (r : R c)
      → Within n (call c k)
      → Within n (k r)
  Within-later zero c k r h = absurd h
  Within-later (suc n) c k r h = Within-mono n (suc n) (k r) (omega arith) (h.1 r)

  Within-rule : {A : Type 0} (n : ℕ) (c : C) (k : R c → Prog R A) → Within n (call c k) → P c
  Within-rule zero c k h = absurd h
  Within-rule (suc n) c k h = h.0

  -- What a call that keeps the rule keeps of the world is kept under every schedule.
  module _ {A W : Type 0} (h : (c : C) → W → R c × W) (K : W → Type 0)
      (keep : (c : C) (w : W) → P c → K w → K (h c w).1) (n : ℕ) where
    advance-rule :
        (i : ℕ) (ps : List (Prog R A)) (w : W)
        → AllWithin n ps
        → K w
        → AllWithin n (advance h i ps w).0 × K (advance h i ps w).1
    unfolding advance
    advance-rule i [] w f k = (tt, k)
    advance-rule zero (ret a ∷ ps) w f k = (f, k)
    advance-rule zero (call c q ∷ ps) w f k =
        ((Within-later n c q (h c w).0 f.0, f.1), keep c w (Within-rule n c q f.0) k)
    advance-rule (suc i) (p ∷ ps) w f k =
        let (f', k') = advance-rule i ps w f.1 k in ((f.0, f'), k')

    pub interleave-rule :
        (is : List ℕ) (ps : List (Prog R A)) (w : W)
        → AllWithin n ps
        → K w
        → K (interleave h is ps w).1
    unfolding interleave
    interleave-rule [] ps w f k = k
    interleave-rule (i ∷ is) ps w f k =
        let (f', k') = advance-rule i ps w f k in interleave-rule is _ _ f' k'
