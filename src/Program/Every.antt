-- ===== src/Program/Every.antt =====
-- What holds of a method against every environment: a predicate over the result and the notes,
-- for all replies. `Every-run` makes it a statement about each run.
use system_design_homework.Result.{Result, ok, err, Error}
use system_design_homework.Program.{Prog, Proc, ret, call, run, watch, ◌>>=◌, then_do}

module _ {C : Type 0} {R : C → Type 0} {M : Type 0} (note : (c : C) → R c → M → M) where
  abbrev pub Every : {A : Type 0} → (A → M → Type 0) → M → Prog R A → Type 0
  Every P m (ret a) = P a m
  Every P m (call c k) = (r : R c) → Every P (note c r m) (k r)

  pub Every-run :
      {A W : Type 0} (h : (c : C) → W → R c × W) (P : A → M → Type 0) (p : Prog R A) (w : W) (m : M)
      → Every P m p
      → P (run (watch note h) p (w, m)).0 (run (watch note h) p (w, m)).1.1
  unfolding run
  Every-run h P (ret a) w m e = e
  Every-run h P (call c k) w m e =
      Every-run h P (k (h c w).0) (h c w).1 (note c (h c w).0 m) (e (h c w).0)

  -- A step of a method by what is known of it.
  pub Every-bind :
      {A B : Type 0} (Q : Result B → M → Type 0) (P : Result A → M → Type 0) (p : Proc R B)
      (f : B → Proc R A) (m : M)
      → Every Q m p
      → ((b : B) (m' : M) → Q (ok b) m' → Every P m' (f b))
      → ((e : Error) (m' : M) → Q (err e) m' → P (err e) m')
      → Every P m (p >>= f)
  Every-bind Q P (ret (ok b)) f m e good bad = good b m e
  Every-bind Q P (ret (err x)) f m e good bad = bad x m e
  Every-bind Q P (call c k) f m e good bad = λ r. Every-bind Q P (k r) f (note c r m) (e r) good bad

  pub Every-then_do :
      {A B : Type 0} (P : B → M → Type 0) (f : A → Prog R B) (p : Prog R A) (m : M)
      → Every (λ a m'. Every P m' (f a)) m p
      → Every P m (then_do f p)
  Every-then_do P f (ret a) m e = e
  Every-then_do P f (call c k) m e = λ r. Every-then_do P f (k r) (note c r m) (e r)

  pub Every-mono :
      {A : Type 0} (P Q : A → M → Type 0) (p : Prog R A) (m : M)
      → ((a : A) (m' : M) → P a m' → Q a m')
      → Every P m p
      → Every Q m p
  Every-mono P Q (ret a) m sub e = sub a m e
  Every-mono P Q (call c k) m sub e = λ r. Every-mono P Q (k r) (note c r m) sub (e r)

  pub Every-and :
      {A : Type 0} (P Q : A → M → Type 0) (p : Prog R A) (m : M)
      → Every P m p
      → Every Q m p
      → Every (λ a m'. P a m' × Q a m') m p
  Every-and P Q (ret a) m e e' = (e, e')
  Every-and P Q (call c k) m e e' = λ r. Every-and P Q (k r) (note c r m) (e r) (e' r)
