-- ===== src/Mock.antt =====
-- external/storage.go and external/main.go: the service that stands in for the scooters, zones,
-- users, configurations and payments. A file is what reading
-- and decoding it gives, and a value sent as JSON arrives as it was.
pub mod Loaded
pub mod Client
mod Tests
use Prim.Native.String.{◌++◌}
use text.Mathlib.Text.{starts_with}
use system_design_homework.Prelude.{
  String, Bool, true, false, Option, none, some, List, [], ◌∷◌, ◌==◌, if◌then◌else◌,
}
use system_design_homework.Result.{Result, ok, err, message, context, ◌>>=◌}
use system_design_homework.External.{ScooterData, TariffZone, UserProfile}
use system_design_homework.External.Client.{Http, MoneyBody, ConfigMap, Request, Reply}

-- A Go map: an assignment hides the older entries of its key.
abbrev pub Map : Type 0 → Type 0
Map A = List (String × A)

unfoldable pub lookup : {A : Type 0} → String → Map A → Option A
lookup id [] = none
lookup id ((k, a) ∷ m) = if k == id then some a else lookup id m

-- `for i := range items { m[items[i].Id] = &items[i] }`
unfoldable pub assign_all : {A : Type 0} → (A → String) → List A → Map A → Map A
assign_all id_of [] m = m
assign_all id_of (a ∷ items) m = assign_all id_of items ((id_of a, a) ∷ m)

pub record Storage (F : Type 0) : Type 0 where
  pub scooters : Map ScooterData
  pub users : Map UserProfile
  pub zones : Map TariffZone
  pub configs : ConfigMap F

pub record Files (F : Type 0) : Type 0 where
  pub scooters : Result (List ScooterData)
  pub users : Result (List UserProfile)
  pub zones : Result (List TariffZone)
  pub configs : Result (ConfigMap F)

-- Ids of a load test stand for one fixed id.
abbrev pub real_id : String → String → String
real_id fixed id = if starts_with id "load-" then fixed else id

-- A found value as JSON, or 404 without a body.
abbrev pub found : {A : Type 0} → Option A → Http A
found none = record { status = 404; is_json = false; body = err (message "EOF") }
found (some a) = record { status = 200; is_json = true; body = ok a }

-- `PostHoldMoneyForOrder`; without an order id the handler panics, which the router answers
-- with 500.
unfoldable pub serve_hold : MoneyBody → Http (String × Bool)
serve_hold b = elim b.order_id [
  | none ↦ record { status = 500; is_json = false; body = err (message "EOF") }
  | some id ↦ record { status = 200; is_json = true; body = ok ("txn-hold-" ++ id, true) }
]

-- `PostClearMoneyForOrder` and `PostUnholdMoneyForOrder`
unfoldable pub serve_payment : MoneyBody → Http (Unit {0})
serve_payment b = record { status = 200; is_json = true; body = ok tt }

-- `json.Unmarshal` into a map keeps the entries that the text does not name.
abbrev pub merged : {F : Type 0} → ConfigMap F → ConfigMap F → ConfigMap F
merged new old k = elim (new k) [ some v ↦ some v | none ↦ old k ]

module _ {F : Type 0} where
  -- `NewStorage`
  unfoldable pub new_storage : Storage F
  new_storage = record { scooters = []; users = []; zones = []; configs = λ k. none }

  -- `LoadFromJSONFiles`, with `loadScooters` and its like.
  unfoldable pub load_from_json_files : Files F → Storage F → Result (Storage F)
  unfolding assign_all
  load_from_json_files files s = do
    scooters ← context "failed to load scooters" files.scooters
    users ← context "failed to load users" files.users
    zones ← context "failed to load zones" files.zones
    configs ← context "failed to load configs" files.configs
    ok (record {
      scooters = assign_all (λ x. x.id) scooters s.scooters;
      users = assign_all (λ x. x.id) users s.users;
      zones = assign_all (λ x. x.id) zones s.zones;
      configs = merged configs s.configs;
    })

  -- `GetScooter`, `GetUser`, `GetZone` and `GetConfigs` of the storage
  abbrev pub get_scooter : Storage F → String → Option ScooterData
  get_scooter s id = lookup id s.scooters

  abbrev pub get_user : Storage F → String → Option UserProfile
  get_user s id = lookup id s.users

  abbrev pub get_zone : Storage F → String → Option TariffZone
  get_zone s id = lookup id s.zones

  abbrev pub get_configs : Storage F → ConfigMap F
  get_configs s = s.configs

  -- `GetScooterData`
  unfoldable pub serve_scooter : Storage F → String → Http ScooterData
  serve_scooter s id = found (get_scooter s (real_id "scooter-1" id))

  -- `GetTariffZoneData`
  unfoldable pub serve_zone : Storage F → String → Http TariffZone
  serve_zone s id = found (get_zone s (real_id "zone-1" id))

  -- `GetUserProfile`
  unfoldable pub serve_profile : Storage F → String → Http UserProfile
  serve_profile s id = found (get_user s (real_id "user-1" id))

  -- `GetConfigs`
  unfoldable pub serve_configs : Storage F → Http (ConfigMap F)
  serve_configs s = record { status = 200; is_json = true; body = ok (get_configs s) }

  -- The routes. The storage does not change.
  unfoldable pub serve : (c : Request) → Storage F → Reply F c × Storage F
  unfolding serve_scooter serve_zone serve_profile serve_configs serve_hold serve_payment
  serve (Request.get_scooter_data_with_response id) s = (ok (serve_scooter s id), s)
  serve (Request.get_tariff_zone_data_with_response id) s = (ok (serve_zone s id), s)
  serve (Request.get_user_profile_with_response id) s = (ok (serve_profile s id), s)
  serve Request.get_configs_with_response s = (ok (serve_configs s), s)
  serve (Request.post_hold_money_for_order b) s = (ok (serve_hold b), s)
  serve (Request.post_clear_money_for_order b) s = (ok (serve_payment b), s)
  serve (Request.post_unhold_money_for_order b) s = (ok (serve_payment b), s)
