-- ===== src/Redis/Server/Memory.antt =====
-- A server for the tests: a function from keys, whose entries do not expire.
use system_design_homework.Prelude.{
  String, ◌≡◌, refl, ◌≢◌, inl, true, false, Bool-cases, Option, none, some, is_some, ◌==◌, eq_iff,
  eq_refl, arith, if◌then◌else◌, inr,
}
use system_design_homework.Prelude.Int.{ℤ, pos}
use system_design_homework.Result.{ok}
use system_design_homework.Redis.Calls.{Command, Reply, Payload}
use system_design_homework.Redis.Server.{IsRedis, Stays, key_of}

abbrev pub Memory : Type 0
Memory = String → Option Payload

abbrev pub with_entry : String → Option Payload → Memory → Memory
with_entry k p w k' = if k' == k then p else w k'

abbrev pub memory : (c : Command) → Memory → Reply c × Memory
memory Command.now w = (1000, w)
memory (Command.get k) w = (ok (w k), w)
memory (Command.set k p d) w = (ok tt, with_entry k (some p) w)
memory (Command.set_nx k p d) w =
    if is_some (w k) then (ok false, w) else (ok true, with_entry k (some p) w)
memory (Command.ttl k) w = (ok (if is_some (w k) then some (pos 1000) else none), w)
memory (Command.del k) w = (ok tt, with_entry k none w)

pub entry_there : (k : String) (p : Option Payload) (w : Memory) → with_entry k p w k ≡ p
entry_there k p w = ground (arith, eq_refl k)

pub entry_others :
    (k k' : String) (p : Option Payload) (w : Memory)
    → some k ≢ some k'
    → with_entry k p w k' ≡ w k'
entry_others k k' p w h = ground (arith, eq_iff k' k)

pub free :
    (k : String) (p : Payload) (d : ℤ) (w : Memory)
    → (memory (Command.set_nx k p d) w).0 ≡ ok true
    → (w k ≡ none) × Stays (some p) ((memory (Command.set_nx k p d) w).1 k)
free k p d w h = ground (arith, eq_refl k)

pub held :
    (k : String) (p : Payload) (d : ℤ) (w : Memory)
    → (memory (Command.set_nx k p d) w).0 ≡ ok false
    → Stays (w k) ((memory (Command.set_nx k p d) w).1 k)
held k p d w h = ground (arith, eq_refl k)

pub untouched :
    (c : Command) (k : String) (w : Memory) → key_of c ≢ some k → Stays (w k) ((memory c w).1 k)
untouched Command.now k w h = inl refl
untouched (Command.get k') k w h = inl refl
untouched (Command.set k' p d) k w h = inl (entry_others k' k (some p) w h)
untouched (Command.set_nx k' p d) k w h = elim (Bool-cases (is_some (w k'))) [
  | inl e ↦ rw e (inl refl)
  | inr e ↦ rw e (inl (entry_others k' k (some p) w h))
]
untouched (Command.ttl k') k w h = inl refl
untouched (Command.del k') k w h = inl (entry_others k' k none w h)

abbrev pub memory-IsRedis : IsRedis memory
memory-IsRedis = record {
  live = λ w k. w k;
  get_live = λ k w h. refl;
  set_live = λ k p d w h. inl (entry_there k (some p) w);
  set_nx_live = free;
  set_nx_held = held;
  del_live = λ k w h. entry_there k none w;
  others = untouched;
}
