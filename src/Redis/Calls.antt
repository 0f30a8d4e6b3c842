-- ===== src/Redis/Calls.antt =====
-- The commands that the two stores send to Redis through go-redis, with what comes back, and the
-- clock. `goredis.Nil` is `ok none`.
use system_design_homework.Prelude.{String, Bool, Option}
use system_design_homework.Prelude.Int.{ℤ}
use system_design_homework.Result.{Result}
use system_design_homework.Api.{Time}
use system_design_homework.Json.{Object}

-- A stored string: the JSON of an object, or another text.
pub data Payload : Type 0 where
  json : Object → Payload
  plain : String → Payload

-- A life span is a `time.Duration`, in nanoseconds. TTL replies a negative one for a key that is
-- not there or does not expire.
pub data Command : Type 0 where
  now : Command
  get : String → Command
  set : String → Payload → ℤ → Command
  set_nx : String → Payload → ℤ → Command
  ttl : String → Command
  del : String → Command

abbrev pub Reply : Command → Type 0
Reply Command.now = Time
Reply (Command.get k) = Result (Option Payload)
Reply (Command.set k p d) = Result (Unit {0})
Reply (Command.set_nx k p d) = Result Bool
Reply (Command.ttl k) = Result (Option ℤ)
Reply (Command.del k) = Result (Unit {0})
