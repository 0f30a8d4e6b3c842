-- ===== src/Program/Threads.antt =====
-- Methods that run at the same time: a schedule names, call by call, the method that goes on.
-- A budget says that a method makes certain calls only against grants that it has received; pools
-- of such methods keep the balance under every schedule.
use system_design_homework.Prelude.{ℕ, zero, suc, ◌+◌, ◌-◌, ◌≤◌, ◌≡◌, refl, List, [], ◌∷◌, arith}
use system_design_homework.Program.{Prog, ret, call, watch}

module _ {C : Type 0} {R : C → Type 0} {A W : Type 0} (h : (c : C) → W → R c × W) where
  -- The next call of one method; a method that has returned, or is not there, does nothing.
  unfoldable pub advance : ℕ → List (Prog R A) → W → List (Prog R A) × W
  advance i [] w = ([], w)
  advance zero (ret a ∷ ps) w = (ret a ∷ ps, w)
  advance zero (call c k ∷ ps) w = (k (h c w).0 ∷ ps, (h c w).1)
  advance (suc i) (p ∷ ps) w = let (ps', w') = advance i ps w in (p ∷ ps', w')

  unfoldable pub interleave : List ℕ → List (Prog R A) → W → List (Prog R A) × W
  interleave [] ps w = (ps, w)
  interleave (i ∷ is) ps w = interleave is (advance i ps w).0 (advance i ps w).1

  -- What every call keeps, every schedule keeps.
  advance-keeps :
      (P : W → Type 0) (keep : (c : C) (w : W) → P w → P (h c w).1) (i : ℕ) (ps : List (Prog R A))
      (w : W)
      → P w
      → P (advance i ps w).1
  unfolding advance
  advance-keeps P keep i [] w p = p
  advance-keeps P keep zero (ret a ∷ ps) w p = p
  advance-keeps P keep zero (call c k ∷ ps) w p = keep c w p
  advance-keeps P keep (suc i) (q ∷ ps) w p = advance-keeps P keep i ps w p

  pub interleave-keeps :
      (P : W → Type 0) (keep : (c : C) (w : W) → P w → P (h c w).1) (is : List ℕ)
      (ps : List (Prog R A)) (w : W)
      → P w
      → P (interleave is ps w).1
  unfolding interleave
  interleave-keeps P keep [] ps w p = p
  interleave-keeps P keep (i ∷ is) ps w p =
      interleave-keeps P keep is _ _ (advance-keeps P keep i ps w p)

-- What was granted and what was spent.
pub record Account : Type 0 where
  pub granted : ℕ
  pub spent : ℕ

module _ {C : Type 0} {R : C → Type 0} (grants : (c : C) → R c → ℕ) (spends : C → ℕ) where
  abbrev pub book : (c : C) → R c → Account → Account
  book c r a = record { granted = a.granted + grants c r; spent = a.spent + spends c }

  -- With `n` grants in hand, the method never spends more than it has.
  abbrev pub Solvent : {A : Type 0} → ℕ → Prog R A → Type 0
  Solvent n (ret a) = Unit {0}
  Solvent n (call c k) = (r : R c) → (spends c ≤ n) × Solvent (n - spends c + grants c r) (k r)

  -- The pool can be served from `n` grants in all.
  abbrev pub Covered : {A : Type 0} → ℕ → List (Prog R A) → Type 0
  Covered n [] = Unit {0}
  Covered n (p ∷ ps) = (m : ℕ) × (m ≤ n) × Solvent m p × Covered (n - m) ps

  Covered-mono : {A : Type 0} (m n : ℕ) (ps : List (Prog R A)) → m ≤ n → Covered m ps → Covered n ps
  Covered-mono m n [] h c = tt
  Covered-mono m n (p ∷ ps) h (k, fits, own, rest) =
      (k, omega arith, own, Covered-mono (m - k) (n - k) ps (omega arith) rest)

  -- The pool in the books: what is left of the grants covers it.
  abbrev pub Balanced : {A : Type 0} → Account → List (Prog R A) → Type 0
  Balanced a ps = (a.spent ≤ a.granted) × Covered (a.granted - a.spent) ps

  module _ {A W : Type 0} (h : (c : C) → W → R c × W) where
    advance-Covered :
        (i : ℕ) (ps : List (Prog R A)) (w : W) (a : Account) (n : ℕ)
        → Covered n ps
        → let out = advance (watch book h) i ps (w, a) in
          (g s : ℕ) × (out.1.1.granted ≡ a.granted + g)
          × (out.1.1.spent ≡ a.spent + s)
          × (s ≤ n)
          × Covered (n - s + g) out.0
    unfolding advance
    advance-Covered i [] w a n c = (0, 0, omega arith, omega arith, omega arith, tt)
    advance-Covered zero (ret x ∷ ps) w a n (m, fits, own, rest) = (
      0,
      0,
      omega arith,
      omega arith,
      omega arith,
      (m, omega arith, tt, Covered-mono (n - m) _ ps (omega arith) rest),
    )
    advance-Covered zero (call c k ∷ ps) w a n (m, fits, own, rest) =
        let r = (h c w).0 in
        let pays = (own r).0 in
        (
          grants c r,
          spends c,
          refl,
          refl,
          omega arith,
          (
            m - spends c + grants c r,
            omega arith,
            (own r).1,
            Covered-mono (n - m) _ ps (omega arith) rest,
          ),
        )
    advance-Covered (suc i) (p ∷ ps) w a n (m, fits, own, rest) =
        let (g, s, eg, es, le, c) = advance-Covered i ps w a (n - m) rest in
        (
          g,
          s,
          eg,
          es,
          omega arith,
          (m, omega arith, own, Covered-mono (n - m - s + g) _ _ (omega arith) c),
        )

    advance-Balanced :
        (i : ℕ) (ps : List (Prog R A)) (w : W) (a : Account)
        → Balanced a ps
        → Balanced (advance (watch book h) i ps (w, a)).1.1 (advance (watch book h) i ps (w, a)).0
    advance-Balanced i ps w a (le, c) =
        let (g, s, eg, es, fits, c') = advance-Covered i ps w a (a.granted - a.spent) c in
        (omega arith, Covered-mono (a.granted - a.spent - s + g) _ _ (omega arith) c')

    -- The balance holds under every schedule.
    pub interleave-Balanced :
        (is : List ℕ) (ps : List (Prog R A)) (w : W) (a : Account)
        → Balanced a ps
        → Balanced
            (interleave (watch book h) is ps (w, a)).1.1
            (interleave (watch book h) is ps (w, a)).0
    unfolding interleave
    interleave-Balanced [] ps w a b = b
    interleave-Balanced (i ∷ is) ps w a b =
        interleave-Balanced is _ _ _ (advance-Balanced i ps w a b)
