-- ===== src/Program.antt =====
-- A service method as the tree of the calls that it makes of the components that all requests
-- share. Each call is one atomic step; what it replies decides how the method goes on. One
-- definition serves the sequential reading, `run`, and the interleaved one of Program/Threads.antt.
pub mod Every
pub mod Threads
pub mod Steps
pub mod After
pub mod Always
use system_design_homework.Prelude.{String}
use system_design_homework.Result.{Error, Result, ok, err, context}

pub data Prog {C : Type 0} (R : C → Type 0) (A : Type 0) : Type 0 where
  ret : A → Prog R A
  call : (c : C) → (R c → Prog R A) → Prog R A

-- A method that returns `(A, error)`.
abbrev pub Proc : {C : Type 0} → (C → Type 0) → Type 0 → Type 0
Proc R A = Prog R (Result A)

module _ {C : Type 0} {R : C → Type 0} where
  -- The environment answers every call and changes the world `W`.
  unfoldable pub run : {A W : Type 0} → ((c : C) → W → R c × W) → Prog R A → W → A × W
  run h (ret a) w = (a, w)
  run h (call c k) w = let (r, w') = h c w in run h (k r) w'

  infixl 5 ◌>>=◌ ◌>>◌
  -- `if err != nil { return nil, err }` behind each step.
  abbrev pub ◌>>=◌ : {A B : Type 0} → Proc R A → (A → Proc R B) → Proc R B
  ret (ok a) >>= f = f a
  ret (err e) >>= f = ret (err e)
  call c k >>= f = call c (λ r. k r >>= f)

  abbrev pub ◌>>◌ : {A B : Type 0} → Proc R A → Proc R B → Proc R B
  m >> k = m >>= λ _. k

  -- What is made of a result, an error or not.
  abbrev pub then_do : {A B : Type 0} → (A → Prog R B) → Prog R A → Prog R B
  then_do f (ret a) = f a
  then_do f (call c k) = call c (λ r. then_do f (k r))

  abbrev pub pure : {A : Type 0} → A → Proc R A
  pure a = ret (ok a)

  abbrev pub fail : {A : Type 0} → Error → Proc R A
  fail e = ret (err e)

  -- A call whose error is returned as it is.
  abbrev pub ask : (c : C) → Prog R (R c)
  ask c = call c ret

  -- A call whose reply, an error or not, the method looks at itself.
  abbrev pub reply : (c : C) → Proc R (R c)
  reply c = call c (λ r. ret (ok r))

  -- `fmt.Errorf("text: %w", err)` on the error path.
  abbrev pub within : {A : Type 0} → String → Proc R A → Proc R A
  within text (ret r) = ret (context text r)
  within text (call c k) = call c (λ r. within text (k r))

-- An environment that keeps notes beside the world, from each call and its reply.
abbrev pub watch :
    {C : Type 0} {R : C → Type 0} {W M : Type 0}
    → ((c : C) → R c → M → M)
    → ((c : C) → W → R c × W)
    → (c : C) → W × M
    → R c × (W × M)
watch note h c (w, m) = let (r, w') = h c w in (r, (w', note c r m))

-- What the loop of a background job selects: its ticker, or the channel that `Stop` closes.
pub data Signal : Type 0 where
  tick stop : Signal
