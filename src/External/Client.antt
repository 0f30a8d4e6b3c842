-- ===== src/External/Client.antt =====
-- client/internal/external/client.go: `ExternalClient`, on the parsers of api_client.gen.go. A call is
-- a request of the generated client; its reply is the error of the transport or the response.
pub mod Laws
mod Tests
use system_design_homework.Prelude.{
  ℕ, String, Bool, Option, none, some, eqb, not, ◌&&◌, if◌then◌else◌,
}
use system_design_homework.Prelude.Int.{ℤ, pos}
use system_design_homework.Result.{Result, ok, err, message, unexpected_status}
use system_design_homework.Program.{Proc, ret, ◌>>=◌, pure, fail, ask, within}
use system_design_homework.External.{
  PaymentHoldRequest, PaymentHoldResponse, DynamicConfigs, ScooterData, TariffZone, UserProfile,
}

-- What arrives: the status, whether the `Content-Type` is JSON, and what `json.Unmarshal` makes of
-- the body.
pub record Http (A : Type 0) : Type 0 where
  pub status : ℕ
  pub is_json : Bool
  pub body : Result A

pub record Response (A : Type 0) : Type 0 where
  pub status : ℕ
  pub json200 : Option A

-- `ParseGetScooterDataResponse` and its like; the three of the payments parse nothing.
abbrev pub parse_response : {A : Type 0} → Http A → Result (Response A)
parse_response http =
    if http.is_json && eqb http.status 200
    then elim http.body [
      | err e ↦ err e
      | ok a ↦ ok (record { status = http.status; json200 = some a })
    ]
    else ok (record { status = http.status; json200 = none })

-- The body of the three payment requests.
pub record MoneyBody : Type 0 where
  pub user_id : Option String
  pub order_id : Option String
  pub amount : Option ℤ

-- A value of the map of configurations: a number, or something else.
pub data ConfigValue (F : Type 0) : Type 0 where
  number : F → ConfigValue F
  other : ConfigValue F

abbrev pub ConfigMap : Type 0 → Type 0
ConfigMap F = String → Option (ConfigValue F)

pub data Request : Type 0 where
  post_hold_money_for_order : MoneyBody → Request
  post_clear_money_for_order : MoneyBody → Request
  post_unhold_money_for_order : MoneyBody → Request
  get_scooter_data_with_response : String → Request
  get_tariff_zone_data_with_response : String → Request
  get_user_profile_with_response : String → Request
  get_configs_with_response : Request

abbrev pub Reply : Type 0 → Request → Type 0
Reply F (Request.post_hold_money_for_order b) = Result (Http (String × Bool))
Reply F (Request.post_clear_money_for_order b) = Result (Http (Unit {0}))
Reply F (Request.post_unhold_money_for_order b) = Result (Http (Unit {0}))
Reply F (Request.get_scooter_data_with_response id) = Result (Http ScooterData)
Reply F (Request.get_tariff_zone_data_with_response id) = Result (Http TariffZone)
Reply F (Request.get_user_profile_with_response id) = Result (Http UserProfile)
Reply F Request.get_configs_with_response = Result (Http (ConfigMap F))

-- 404 is `nil, nil`; 200 must come with a body.
abbrev pub looked_up : {A : Type 0} → String → Response A → Result (Option A)
looked_up name resp =
    if eqb resp.status 404
    then ok none
    else if not (eqb resp.status 200)
    then err (unexpected_status name resp.status)
    else elim resp.json200 [ none ↦ err (message "empty response") | some a ↦ ok (some a) ]

-- `m["..."].(float64)`, or the default.
abbrev pub number_or : {F A : Type 0} → (F → A) → A → Option (ConfigValue F) → A
number_or f default none = default
number_or f default (some (number v)) = f v
number_or f default (some other) = default

module _ {F : Type 0} where
  -- `HoldMoneyForOrder`
  unfoldable pub hold_money_for_order : PaymentHoldRequest → Proc (Reply F) PaymentHoldResponse
  hold_money_for_order req = do
    resp ← ask (
        Request.post_hold_money_for_order (record {
          user_id = some req.user_id;
          order_id = some req.order_id;
          amount = some req.amount;
        }))
    if not (eqb resp.status 200)
        then fail (unexpected_status "hold-money-for-order" resp.status)
        else do
          (tx, success) ← within "failed to decode response" (ret resp.body)
          pure (record { transaction_id = tx; success = success })

  -- `ChargeMoneyForOrder`
  unfoldable pub charge_money_for_order : String → ℤ → Proc (Reply F) (Unit {0})
  charge_money_for_order id amount = do
    resp ← ask (
        Request.post_clear_money_for_order
          (record { user_id = some ""; order_id = some id; amount = some amount }))
    if not (eqb resp.status 200)
        then fail (unexpected_status "clear-money-for-order" resp.status)
        else pure tt

  -- `UnholdMoneyForOrder`
  unfoldable pub unhold_money_for_order : String → Proc (Reply F) (Unit {0})
  unhold_money_for_order id = do
    resp ← ask (
        Request.post_unhold_money_for_order
          (record { user_id = some ""; order_id = some id; amount = none }))
    if not (eqb resp.status 200)
        then fail (unexpected_status "unhold-money-for-order" resp.status)
        else pure tt

  -- `GetScooterData`
  unfoldable pub get_scooter_data : String → Proc (Reply F) (Option ScooterData)
  get_scooter_data id = do
    http ← ask (Request.get_scooter_data_with_response id)
    resp ← ret (parse_response http)
    ret (looked_up "scooter-data" resp)

  -- `GetTariffZoneData`
  unfoldable pub get_tariff_zone_data : String → Proc (Reply F) (Option TariffZone)
  get_tariff_zone_data id = do
    http ← ask (Request.get_tariff_zone_data_with_response id)
    resp ← ret (parse_response http)
    ret (looked_up "tariff-zone" resp)

  -- `GetUserProfile`
  unfoldable pub get_user_profile : String → Proc (Reply F) (Option UserProfile)
  get_user_profile id = do
    http ← ask (Request.get_user_profile_with_response id)
    resp ← ret (parse_response http)
    ret (looked_up "user-profile" resp)

-- `GetConfigs`. The conversion `int(v)` of a `float64` and the decimals 1.2 and 0.7 are given.
module _ {F : Type 0} (to_int : F → ℤ) (surge discount : F) where
  unfoldable pub configs_of : ConfigMap F → DynamicConfigs F
  configs_of m = record {
    surge = number_or (λ v. v) surge (m "surge");
    low_charge_discount = number_or (λ v. v) discount (m "low_charge_discount");
    low_charge_threshold_percent = number_or to_int (pos 28) (m "low_charge_threshold_percent");
    incomplete_ride_threshold_seconds =
        number_or to_int (pos 5) (m "incomplete_ride_threshold_seconds");
  }

  unfoldable pub get_configs : Proc (Reply F) (Option (DynamicConfigs F))
  unfolding configs_of
  get_configs = do
    http ← ask Request.get_configs_with_response
    resp ← ret (parse_response http)
    if not (eqb resp.status 200)
        then fail (unexpected_status "configs" resp.status)
        else elim resp.json200 [
          | none ↦ fail (message "configs: empty response")
          | some m ↦ pure (some (configs_of m))
        ]
