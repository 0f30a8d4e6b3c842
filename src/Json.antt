-- ===== src/Json.antt =====
-- encoding/json on the structs of client/api/api.gen.go, up to the text of the values: an object is
-- the list of its members, a number, a string and a time in RFC 3339 stand for themselves. Keys are
-- compared exactly, and the first member of a name counts: the program reads back what `Marshal`
-- wrote.
pub mod RoundTrip
mod Tests
use system_design_homework.Prelude.{
  ℕ, String, Bool, Option, none, some, List, [], ◌∷◌, ◌==◌, if◌then◌else◌,
}
use system_design_homework.Prelude.Int.{ℤ, pos}
use system_design_homework.Result.{◌>>=◌, Error, Result, ok, err, message}
use system_design_homework.Api.{
  Time, Offer, Order, OrderStatus, active, cancelled, finished, payment_failed,
}

pub data Value : Type 0 where
  null : Value
  number : ℤ → Value
  text : String → Value
  stamp : Time → Value

abbrev pub Object : Type 0
Object = List (String × Value)

unfoldable pub member : String → Object → Option Value
member k [] = none
member k ((j, v) ∷ o) = if j == k then some v else member k o

-- `,omitempty` on a pointer.
abbrev pub omit_empty : {A : Type 0} → String → (A → Value) → Option A → Object → Object
omit_empty k to none rest = rest
omit_empty k to (some a) rest = (k, to a) ∷ rest

-- A nil pointer without `omitempty`.
abbrev pub nullable : {A : Type 0} → (A → Value) → Option A → Value
nullable to none = null
nullable to (some a) = to a

abbrev pub type_error : {A : Type 0} → Result A
type_error = err (message "json: cannot unmarshal")

-- A member that is missing or null leaves the zero value.
abbrev pub as_int : Option Value → Result ℤ
as_int none = ok (pos 0)
as_int (some null) = ok (pos 0)
as_int (some (number n)) = ok n
as_int (some _) = type_error

abbrev pub as_text : Option Value → Result String
as_text none = ok ""
as_text (some null) = ok ""
as_text (some (text s)) = ok s
as_text (some _) = type_error

abbrev pub as_time : Option Value → Result Time
as_time none = ok 0
as_time (some null) = ok 0
as_time (some (stamp t)) = ok t
as_time (some _) = type_error

abbrev pub as_int_pointer : Option Value → Result (Option ℤ)
as_int_pointer none = ok none
as_int_pointer (some null) = ok none
as_int_pointer (some (number n)) = ok (some n)
as_int_pointer (some _) = type_error

abbrev pub as_time_pointer : Option Value → Result (Option Time)
as_time_pointer none = ok none
as_time_pointer (some null) = ok none
as_time_pointer (some (stamp t)) = ok (some t)
as_time_pointer (some _) = type_error

-- The constants of `OrderStatus`; no other status is written.
unfoldable pub status_text : OrderStatus → String
status_text active = "ACTIVE"
status_text cancelled = "CANCELLED"
status_text finished = "FINISHED"
status_text payment_failed = "PAYMENT_FAILED"

unfoldable pub parse_status : String → Result OrderStatus
parse_status s =
    if s == "ACTIVE"
    then ok active
    else if s == "CANCELLED"
    then ok cancelled
    else if s == "FINISHED"
    then ok finished
    else if s == "PAYMENT_FAILED"
    then ok payment_failed
    else type_error

-- `json.Marshal(offer)`
unfoldable pub marshal_offer : Offer → Object
marshal_offer o = omit_empty "created_at" stamp o.created_at (
    ("deposit", number o.deposit)
    ∷ ("expires_at", stamp o.expires_at)
    ∷ ("id", text o.id)
    ∷ ("price_per_minute", number o.price_per_minute)
    ∷ ("price_unlock", number o.price_unlock)
    ∷ ("scooter_id", text o.scooter_id)
    ∷ ("user_id", text o.user_id)
    ∷ ("zone_id", text o.zone_id)
    ∷ [])

-- `json.Unmarshal(data, &offer)`
unfoldable pub unmarshal_offer : Object → Result Offer
unfolding member
unmarshal_offer x = do
  created_at ← as_time_pointer (member "created_at" x)
  deposit ← as_int (member "deposit" x)
  expires_at ← as_time (member "expires_at" x)
  id ← as_text (member "id" x)
  price_per_minute ← as_int (member "price_per_minute" x)
  price_unlock ← as_int (member "price_unlock" x)
  scooter_id ← as_text (member "scooter_id" x)
  user_id ← as_text (member "user_id" x)
  zone_id ← as_text (member "zone_id" x)
  ok (record {
    created_at = created_at;
    deposit = deposit;
    expires_at = expires_at;
    id = id;
    price_per_minute = price_per_minute;
    price_unlock = price_unlock;
    scooter_id = scooter_id;
    user_id = user_id;
    zone_id = zone_id;
  })

-- `json.Marshal(order)`
unfoldable pub marshal_order : Order → Object
unfolding status_text
marshal_order o =
    ("current_amount", nullable number o.current_amount)
    ∷ omit_empty "deposit" number o.deposit (
        ("duration_seconds", nullable number o.duration_seconds)
        ∷ ("finish_time", nullable stamp o.finish_time)
        ∷ ("id", text o.id)
        ∷ ("offer_id", text o.offer_id)
        ∷ omit_empty "price_per_minute" number o.price_per_minute (
            omit_empty "price_unlock" number o.price_unlock (
              ("scooter_id", text o.scooter_id)
              ∷ ("start_time", stamp o.start_time)
              ∷ ("status", text (status_text o.status))
              ∷ ("user_id", text o.user_id)
              ∷ [])))

-- `json.Unmarshal(data, &order)`
unfoldable pub unmarshal_order : Object → Result Order
unfolding member parse_status
unmarshal_order x = do
  current_amount ← as_int_pointer (member "current_amount" x)
  deposit ← as_int_pointer (member "deposit" x)
  duration_seconds ← as_int_pointer (member "duration_seconds" x)
  finish_time ← as_time_pointer (member "finish_time" x)
  id ← as_text (member "id" x)
  offer_id ← as_text (member "offer_id" x)
  price_per_minute ← as_int_pointer (member "price_per_minute" x)
  price_unlock ← as_int_pointer (member "price_unlock" x)
  scooter_id ← as_text (member "scooter_id" x)
  start_time ← as_time (member "start_time" x)
  status ← as_text (member "status" x) >>= parse_status
  user_id ← as_text (member "user_id" x)
  ok (record {
    current_amount = current_amount;
    deposit = deposit;
    duration_seconds = duration_seconds;
    finish_time = finish_time;
    id = id;
    offer_id = offer_id;
    price_per_minute = price_per_minute;
    price_unlock = price_unlock;
    scooter_id = scooter_id;
    start_time = start_time;
    status = status;
    user_id = user_id;
  })
