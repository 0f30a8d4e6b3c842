-- ===== src/Redis/Server.antt =====
-- What the two stores rely on of a Redis server. An entry may expire between any two commands, and
-- a command may fail. Of a failed command nothing is assumed but that no other key is changed.
pub mod Offers
pub mod Index
pub mod Cache
pub mod Memory
use system_design_homework.Prelude.{String, ◌≡◌, ◌≢◌, ◌⊎◌, Bool, true, false, Option, none, some}
use system_design_homework.Prelude.Int.{ℤ}
use system_design_homework.Result.{Result, ok, err, is_ok}
use system_design_homework.Redis.Calls.{Command, Reply, Payload}

-- A key holds what it held, or its entry has expired.
abbrev pub Stays : Option Payload → Option Payload → Type 0
Stays before after = (after ≡ before) ⊎ (after ≡ none)

abbrev pub key_of : Command → Option String
key_of Command.now = none
key_of (Command.get k) = none
key_of (Command.set k p d) = some k
key_of (Command.set_nx k p d) = some k
key_of (Command.ttl k) = none
key_of (Command.del k) = some k

pub record IsRedis {W : Type 0} (h : (c : Command) → W → Reply c × W) : Type 0 where
  -- What a key holds.
  pub live : W → String → Option Payload
  -- GET replies what the key holds.
  pub get_live :
      (k : String) (w : W)
      → is_ok (h (Command.get k) w).0 ≡ true
      → (h (Command.get k) w).0 ≡ ok (live w k)
  -- SET stores its value, SETNX only where the key holds nothing, DEL removes the key.
  pub set_live :
      (k : String) (p : Payload) (d : ℤ) (w : W)
      → is_ok (h (Command.set k p d) w).0 ≡ true
      → Stays (some p) (live (h (Command.set k p d) w).1 k)
  pub set_nx_live :
      (k : String) (p : Payload) (d : ℤ) (w : W)
      → (h (Command.set_nx k p d) w).0 ≡ ok true
      → (live w k ≡ none) × Stays (some p) (live (h (Command.set_nx k p d) w).1 k)
  pub set_nx_held :
      (k : String) (p : Payload) (d : ℤ) (w : W)
      → (h (Command.set_nx k p d) w).0 ≡ ok false
      → Stays (live w k) (live (h (Command.set_nx k p d) w).1 k)
  pub del_live :
      (k : String) (w : W)
      → is_ok (h (Command.del k) w).0 ≡ true
      → live (h (Command.del k) w).1 k ≡ none
  -- A command that does not write a key leaves it alone.
  pub others :
      (c : Command) (k : String) (w : W) → key_of c ≢ some k → Stays (live w k) (live (h c w).1 k)
