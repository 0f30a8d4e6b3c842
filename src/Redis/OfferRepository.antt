-- ===== src/Redis/OfferRepository.antt =====
-- client/internal/storage/redis/offer_repo.go. `ready` says that the client is initialized (neither
-- it nor its `rdb` is nil).
use Prim.Native.String.{◌++◌}
use system_design_homework.Prelude.{
  ◌*◌, ◌&&◌, String, Bool, true, Option, none, some, ltb, ◌==◌, if◌then◌else◌,
}
use system_design_homework.Prelude.Int.{ℤ, pos, leb_ℤ, sub_ℕ}
use system_design_homework.Result.{Result, ok, err, message, context}
use system_design_homework.Program.{Proc, ret, ◌>>=◌, pure, fail, ask, reply, within}
use system_design_homework.Api.{Time, second, minute, Offer}
use system_design_homework.Json.{Object, marshal_offer, unmarshal_offer}
use system_design_homework.Redis.Calls.{Command, Reply, Payload, json, plain}

unfoldable pub key_offer : String → String
key_offer id = "offer:" ++ id

unfoldable pub key_offer_used : String → String
key_offer_used id = "offer:" ++ (id ++ ":used")

unfoldable pub key_idx_user_scooter : String → String → String
key_idx_user_scooter user scooter = "offer_idx:user:" ++ (user ++ (":scooter:" ++ scooter))

-- The first check of every method.
abbrev pub when_ready : {A : Type 0} → Bool → Proc Reply A → Proc Reply A
when_ready ready body = if ready then body else fail (message "redis client is not initialized")

abbrev pub parse_offer : Payload → Result Offer
parse_offer (json x) = context "failed to unmarshal offer" (unmarshal_offer x)
parse_offer (plain s) = context "failed to unmarshal offer" (err (message "invalid character"))

-- `GetOffer`
unfoldable pub get_offer : Bool → String → Proc Reply (Option Offer)
get_offer ready id = when_ready ready do
  found ← within "redis GET failed" (ask (Command.get (key_offer id)))
  elim found [
    | none ↦ pure none
    | some payload ↦ do offer ← ret (parse_offer payload); pure (some offer)
  ]

-- `if ttl <= 0 { ttl = 5 * time.Minute }`, where no reply counts as 0.
unfoldable pub life_span : Option ℤ → ℤ
life_span none = pos (5 * minute)
life_span (some d) = if leb_ℤ d (pos 0) then pos (5 * minute) else d

-- `MarkOfferAsUsed`
unfoldable pub mark_offer_as_used : Bool → String → Proc Reply Bool
mark_offer_as_used ready id = when_ready ready do
  left ← within "redis TTL failed" (ask (Command.ttl (key_offer id)))
  within "redis SETNX failed"
      (ask (Command.set_nx (key_offer_used id) (plain "1") (life_span left)))

-- `time.Until(offer.ExpiresAt)`, or a second where nothing is left.
unfoldable pub time_left : Time → Time → ℤ
time_left expires_at t =
    let left = sub_ℕ expires_at t in if leb_ℤ left (pos 0) then pos second else left

-- `json.Marshal` refuses a time of the year 10000 or later; a year begins so many seconds behind the
-- zero time.
abbrev pub has_json : Time → Bool
has_json t = ltb t (315537897600 * second)

abbrev pub pointer_has_json : Option Time → Bool
pointer_has_json none = true
pointer_has_json (some t) = has_json t

abbrev pub marshalled : Offer → Result Object
marshalled offer =
    if pointer_has_json offer.created_at && has_json offer.expires_at
    then ok (marshal_offer offer)
    else err (message "year outside of range [0,9999]")

-- `SaveOffer`; the offer may be nil.
unfoldable pub save_offer : Bool → Option Offer → Proc Reply (Unit {0})
save_offer ready none = when_ready ready (fail (message "invalid offer"))
save_offer ready (some offer) = when_ready ready (
    if offer.id == "" then fail (message "invalid offer") else do
      t ← reply Command.now
      if ltb offer.expires_at t then fail (message "offer already expired") else do
        t' ← reply Command.now
        payload ← within "failed to marshal offer" (ret (marshalled offer))
        within "redis SET failed"
            (ask (Command.set (key_offer offer.id) (json payload) (time_left offer.expires_at t'))))

-- The id that an index entry holds; `Result()` takes any stored string as it is.
abbrev as_id : (Object → String) → Payload → String
as_id print (json x) = print x
as_id print (plain s) = s

-- `GetOfferByUserScooter`; `print` is the text of a JSON object.
unfoldable pub get_offer_by_user_scooter :
    (Object → String) → Bool → String → String → Proc Reply (Option Offer)
unfolding get_offer
get_offer_by_user_scooter print ready user scooter = when_ready ready do
  found ← within "redis GET index failed" (ask (Command.get (key_idx_user_scooter user scooter)))
  elim found [ none ↦ pure none | some payload ↦ get_offer ready (as_id print payload) ]

-- `SetOfferByUserScooter`
unfoldable pub set_offer_by_user_scooter : Bool → String → String → String → Proc Reply (Unit {0})
set_offer_by_user_scooter ready user scooter id = when_ready ready do
  left ← within "redis TTL failed" (ask (Command.ttl (key_offer id)))
  within "redis SET index failed"
      (ask (Command.set (key_idx_user_scooter user scooter) (plain id) (life_span left)))
