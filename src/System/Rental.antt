-- ===== src/System/Rental.antt =====
-- A rental that nothing disturbs, in the whole service with the stand-in service of external/: no
-- statement, command or request fails, and no entry expires.
pub mod Calls
pub mod Created
pub mod Ended
pub mod Completes
mod Tests
use system_design_homework.Prelude.{String, ◌≡◌, refl, ap, true, none, []}
use system_design_homework.Prelude.Int.{ℤ}
use system_design_homework.Result.{ok, is_ok}
use system_design_homework.Program.{Prog, ret, call, run, then_do}
use system_design_homework.Api.{Time}
use system_design_homework.Redis.Calls.{Command, Reply as RedisReply, Payload}
use system_design_homework.Redis.Server.{IsRedis}
use system_design_homework.Postgres.Tables.{Tables}
use system_design_homework.System.{World}
use system_design_homework.System.Marks.{Lasts}

-- A Redis server whose reads, life spans and new marks succeed.
pub record Works {W : Type 0} (h : (c : Command) → W → RedisReply c × W) (r : IsRedis h)
    : Type 0 where
  pub lasts : Lasts h r
  pub get_ok : (k : String) (w : W) → is_ok (h (Command.get k) w).0 ≡ true
  pub ttl_ok : (k : String) (w : W) → is_ok (h (Command.ttl k) w).0 ≡ true
  pub set_nx_new :
      (k : String) (p : Payload) (d : ℤ) (w : W)
      → r.live w k ≡ none
      → (h (Command.set_nx k p d) w).0 ≡ ok true

-- No transaction is open and no fault is to come.
abbrev pub calm : {R P : Type 0} → Tables → Time → R → P → World R P
calm t clock redis external = record {
  db = record { tables = t; pending = none; faults = []; clock = clock };
  redis = redis;
  external = external;
}

-- One call of a method, and the rest.
pub step :
    {C W A : Type 0} {R : C → Type 0} (h : (c : C) → W → R c × W) (c : C) (k : R c → Prog R A)
    (w : W) (r : R c) (w' : W) (out : A × W)
    → h c w ≡ (r, w')
    → run h (k r) w' ≡ out
    → run h (call c k) w ≡ out
unfolding run
step h c k w r w' out reply rest = rw reply rest

pub run-ret :
    {C W A : Type 0} {R : C → Type 0} (h : (c : C) → W → R c × W) (a : A) (w : W)
    → let p : Prog R A = ret a in run h p w ≡ (a, w)
unfolding run
run-ret h a w = refl

-- What is made of the result.
pub run-then_do :
    {C W A B : Type 0} {R : C → Type 0} (h : (c : C) → W → R c × W) (f : A → B) (p : Prog R A)
    (w : W) (a : A) (w' : W)
    → run h p w ≡ (a, w')
    → run h (then_do (λ x. ret (f x)) p) w ≡ (f a, w')
unfolding run
run-then_do h f (ret x) w a w' e = ap (λ out. (f out.0, out.1)) e
run-then_do h f (call c k) w a w' e = run-then_do h f (k (h c w).0) (h c w).1 a w' e
