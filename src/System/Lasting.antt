-- ===== src/System/Lasting.antt =====
-- The server for the tests keeps its entries.
use system_design_homework.Prelude.{
  String, ◌≡◌, refl, ◌≢◌, some, none, is_some, Bool-cases, inl, inr, arith, eq_refl,
}
use system_design_homework.Redis.Calls.{Command}
use system_design_homework.Redis.Server.{key_of}
use system_design_homework.Redis.Server.Memory.{
  Memory, memory, memory-IsRedis, entry_others, entry_there,
}
use system_design_homework.System.Marks.{Lasts}
use system_design_homework.System.Rental.{Works}
use system_design_homework.System.Fleet.Published.{Stores}

memory_kept : (c : Command) (k : String) (w : Memory) → key_of c ≢ some k → (memory c w).1 k ≡ w k
memory_kept Command.now k w h = refl
memory_kept (Command.get k') k w h = refl
memory_kept (Command.set k' p d) k w h = entry_others k' k (some p) w h
memory_kept (Command.set_nx k' p d) k w h = elim (Bool-cases (is_some (w k'))) [
  | inl e ↦ rw e refl
  | inr e ↦ rw e (entry_others k' k (some p) w h)
]
memory_kept (Command.ttl k') k w h = refl
memory_kept (Command.del k') k w h = entry_others k' k none w h

pub memory-Lasts : Lasts memory memory-IsRedis
memory-Lasts = record {
  kept = memory_kept;
  set_nx_there = λ k p d w granted. ground (arith, eq_refl k);
  set_nx_kept = λ k p d w there. ground (arith, eq_refl k);
}

pub memory-Works : Works memory memory-IsRedis
memory-Works = record {
  lasts = memory-Lasts;
  get_ok = λ k w. refl;
  ttl_ok = λ k w. refl;
  set_nx_new = λ k p d w free. ground (arith, free);
}

pub memory-Stores : Stores memory memory-IsRedis
memory-Stores = record {
  lasts = memory-Lasts;
  set_there = λ k p d w stored. entry_there k (some p) w;
}
