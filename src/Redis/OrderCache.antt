-- ===== src/Redis/OrderCache.antt =====
-- client/internal/storage/redis/cache.go. `ready` says that the client is initialized.
use Prim.Native.String.{◌++◌}
use system_design_homework.Prelude.{◌&&◌, String, Bool, Option, none, some, ◌==◌, if◌then◌else◌}
use system_design_homework.Prelude.Int.{pos}
use system_design_homework.Result.{Result, ok, err, message, context}
use system_design_homework.Program.{Proc, ret, ◌>>=◌, pure, fail, ask, within}
use system_design_homework.Api.{Duration, Order}
use system_design_homework.Json.{Object, marshal_order, unmarshal_order}
use system_design_homework.Redis.Calls.{Command, Reply, Payload, json, plain}
use system_design_homework.Redis.OfferRepository.{when_ready, has_json, pointer_has_json}

unfoldable pub order_cache_key : String → String
order_cache_key id = "order:" ++ id

abbrev pub parse_order : Payload → Result Order
parse_order (json x) = context "failed to unmarshal order" (unmarshal_order x)
parse_order (plain s) = context "failed to unmarshal order" (err (message "invalid character"))

-- `GetOrder`
unfoldable pub get_order : Bool → String → Proc Reply (Option Order)
get_order ready id = when_ready ready do
  found ← within "redis GET failed" (ask (Command.get (order_cache_key id)))
  elim found [
    | none ↦ pure none
    | some payload ↦ do order ← ret (parse_order payload); pure (some order)
  ]

-- `json.Marshal` refuses a time of the year 10000 or later.
abbrev pub times_fit : Order → Bool
times_fit order = has_json order.start_time && pointer_has_json order.finish_time

abbrev pub marshalled_order : Order → Result Object
marshalled_order order =
    if times_fit order
    then ok (marshal_order order)
    else err (message "year outside of range [0,9999]")

-- `SetOrder`; the order may be nil.
unfoldable pub set_order : Bool → Option Order → Duration → Proc Reply (Unit {0})
set_order ready none ttl = when_ready ready (fail (message "invalid order"))
set_order ready (some order) ttl = when_ready ready (
    if order.id == "" then fail (message "invalid order") else do
      payload ← within "failed to marshal order" (ret (marshalled_order order))
      ask (Command.set (order_cache_key order.id) (json payload) (pos ttl)))

-- `Invalidate`
unfoldable pub invalidate : Bool → String → Proc Reply (Unit {0})
invalidate ready id = when_ready ready (ask (Command.del (order_cache_key id)))
