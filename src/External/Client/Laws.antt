-- ===== src/External/Client/Laws.antt =====
-- What the results of the external client tell of the responses.
use system_design_homework.Prelude.{
  Bool, eqb, String, ◌≡◌, ◌≢◌, ◌⊎◌, true, false, Option, none, some, arith,
}
use system_design_homework.Result.{Result, ok, err, is_ok}
use system_design_homework.Program.{run}
use system_design_homework.Prelude.Int.{ℤ, pos}
use system_design_homework.External.{DynamicConfigs, PaymentHoldRequest, PaymentHoldResponse}
use system_design_homework.External.Client.{
  ConfigValue, number, other, MoneyBody, hold_money_for_order, charge_money_for_order,
  unhold_money_for_order, Request, Reply, Http, get_scooter_data, get_tariff_zone_data,
  get_user_profile, get_configs, configs_of, ConfigMap,
}

abbrev pub IsFound : {A : Type 0} → Result (Http A) → A → Type 0
IsFound (err e) a = ⊥
IsFound (ok r) a = (r.status ≡ 200) × (r.is_json ≡ true) × (r.body ≡ ok a)

abbrev pub IsMissing : {A : Type 0} → Result (Http A) → Type 0
IsMissing (err e) = ⊥
IsMissing (ok r) = r.status ≡ 404

-- A value was found, or is known to be missing, or nothing is known.
abbrev pub Tells : {A : Type 0} → Result (Http A) → Result (Option A) → Type 0
Tells r (ok (some a)) = IsFound r a
Tells r (ok none) = IsMissing r
Tells (err e) (err e') = e ≡ e'
Tells (ok r) (err e) =
    (r.status ≢ 404) × ((r.status ≢ 200) ⊎ (r.is_json ≡ false) ⊎ (is_ok r.body ≡ false))

-- What the value under a key gives: a number as it was sent, and anything else the default.
abbrev pub Gives : {F A : Type 0} → (F → A) → A → Option (ConfigValue F) → A → Type 0
Gives f default (some (number v)) a = a ≡ f v
Gives f default (some other) a = a ≡ default
Gives f default none a = a ≡ default

-- The configuration of a map, each value as sent or its default.
abbrev pub IsRead :
    {F : Type 0} → (F → ℤ) → F → F → Result (ConfigMap F) → DynamicConfigs F → Type 0
IsRead to_int surge discount (err e) cfg = ⊥
IsRead to_int surge discount (ok m) cfg =
    Gives (λ v. v) surge (m "surge") cfg.surge
    × Gives (λ v. v) discount (m "low_charge_discount") cfg.low_charge_discount
    × Gives to_int (pos 28) (m "low_charge_threshold_percent") cfg.low_charge_threshold_percent
    × Gives to_int (pos 5) (m "incomplete_ride_threshold_seconds")
        cfg.incomplete_ride_threshold_seconds

abbrev pub TellsConfigs :
    {F : Type 0}
    → (F → ℤ)
    → F
    → F
    → Result (Http (ConfigMap F))
    → Result (Option (DynamicConfigs F))
    → Type 0
TellsConfigs to_int surge discount r (ok none) = ⊥
TellsConfigs to_int surge discount (err e) (ok (some cfg)) = ⊥
TellsConfigs to_int surge discount (ok r) (ok (some cfg)) =
    (r.status ≡ 200) × (r.is_json ≡ true) × IsRead to_int surge discount r.body cfg
TellsConfigs to_int surge discount (err e) (err e') = e ≡ e'
TellsConfigs to_int surge discount (ok r) (err e) =
    (r.status ≢ 200) ⊎ (r.is_json ≡ false) ⊎ (is_ok r.body ≡ false)

-- A hold is answered as the service has decided, or nothing is known of it.
abbrev pub Decides : Result (Http (String × Bool)) → Result PaymentHoldResponse → Type 0
Decides (ok r) (ok p) = (r.status ≡ 200) × (r.body ≡ ok (p.transaction_id, p.success))
Decides (ok r) (err e) = (r.status ≢ 200) ⊎ (is_ok r.body ≡ false)
Decides (err e) (ok p) = ⊥
Decides (err e) (err e') = e ≡ e'

abbrev pub is_accepted : Result (Http (Unit {0})) → Bool
is_accepted (ok r) = eqb r.status 200
is_accepted (err e) = false

module _ (F : Type 0) {W : Type 0} (h : (c : Request) → W → Reply F c × W) where
  get_configs-Tells :
      (to_int : F → ℤ) (surge discount : F) (w : W)
      → TellsConfigs to_int surge discount
          (h Request.get_configs_with_response w).0
          (run h (get_configs to_int surge discount) w).0
  unfolding run get_configs configs_of
  get_configs-Tells to_int surge discount w = ground arith

  -- The three lookups return a value exactly as the service sent it with status 200, nothing only
  -- for status 404, and an error for a failed request, which they pass on, and for any other
  -- response: another status, or 200 without a body that is JSON of the type asked for. The configuration is
  -- read from the map sent with status 200: "surge", "low_charge_discount",
  -- "low_charge_threshold_percent" and "incomplete_ride_threshold_seconds" as sent where they are
  -- numbers, and otherwise the two defaults given, 28 and 5. It is an error in all other cases, never nothing.
  pub lookups-Tell :
      (to_int : F → ℤ) (surge discount : F) (id : String) (w : W)
      → Tells (h (Request.get_scooter_data_with_response id) w).0 (run h (get_scooter_data id) w).0
        × Tells
            (h (Request.get_tariff_zone_data_with_response id) w).0
            (run h (get_tariff_zone_data id) w).0
        × Tells
            (h (Request.get_user_profile_with_response id) w).0
            (run h (get_user_profile id) w).0
        × TellsConfigs to_int surge discount
            (h Request.get_configs_with_response w).0
            (run h (get_configs to_int surge discount) w).0
  unfolding run get_scooter_data get_tariff_zone_data get_user_profile
  lookups-Tell to_int surge discount id w =
      (ground arith, ground arith, ground arith, get_configs-Tells to_int surge discount w)

  -- The client asks for a hold with the user, the order and the amount of the request, and passes on
  -- the transaction and the decision of an answer with status 200; any other answer, and one that
  -- cannot be decoded, is an error. A charge and a release send the order without a user, and
  -- succeed exactly if the answer has status 200.
  pub payments-Decide :
      (req : PaymentHoldRequest) (id : String) (amount : ℤ) (w : W)
      → let hold : MoneyBody = record {
        user_id = some req.user_id;
        order_id = some req.order_id;
        amount = some req.amount;
      } in
        let charge : MoneyBody = record {
          user_id = some "";
          order_id = some id;
          amount = some amount;
        } in
        let release : MoneyBody = record { user_id = some ""; order_id = some id; amount = none } in
        Decides
          (h (Request.post_hold_money_for_order hold) w).0
          (run h (hold_money_for_order req) w).0
        × (is_ok (run h (charge_money_for_order id amount) w).0
            ≡ is_accepted (h (Request.post_clear_money_for_order charge) w).0)
        × (is_ok (run h (unhold_money_for_order id) w).0
            ≡ is_accepted (h (Request.post_unhold_money_for_order release) w).0)
  unfolding run hold_money_for_order charge_money_for_order unhold_money_for_order
  payments-Decide req id amount w = (ground arith, ground arith, ground arith)
