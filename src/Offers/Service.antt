-- ===== src/Offers/Service.antt =====
-- client/internal/domain/offers/service.go: `Service` and its methods.
use system_design_homework.Prelude.{
  ◌+◌, ◌*◌, String, Bool, false, ◌||◌, Option, none, some, List, [], ◌∷◌, ltb, eqb, ◌==◌,
  if◌then◌else◌,
}
use system_design_homework.Prelude.Int.{ℤ, pos, negsuc}
use system_design_homework.Result.{
  Result, ok, err, message, err_scooters_unavailable, err_zone_unavailable,
}
use system_design_homework.Program.{
  Prog, Proc, ret, ◌>>=◌, ◌>>◌, pure, fail, ask, reply, within, then_do, Signal, tick, stop,
}
use system_design_homework.Api.{Time, Duration, minute, Offer}
use system_design_homework.External.{ScooterData, TariffZone, UserProfile, DynamicConfigs}
use system_design_homework.Pricing.{Float64, Inputs, calculate}
use system_design_homework.Offers.Calls.{Call, Reply, ZoneCacheEntry}

pub record CreateOfferRequest : Type 0 where
  pub user_id : String
  pub scooter_id : String

-- `zoneCacheTTL`
abbrev pub zone_cache_ttl : Duration
zone_cache_ttl = 10 * minute

-- `ok && now.Before(entry.expiresAt)`, with the entry.
abbrev pub fresh_zone : Option ZoneCacheEntry → Time → Option TariffZone
fresh_zone none now = none
fresh_zone (some entry) now = if ltb now entry.expires_at then some entry.zone else none

-- `hasSub, trusted`: of the profile, or neither if it could not be had.
abbrev pub privileges : Result (Option UserProfile) → Bool × Bool
privileges (ok (some profile)) = (profile.has_subscription, profile.trusted)
privileges (ok none) = (false, false)
privileges (err e) = (false, false)

-- `isDefault`: a configuration counts as the default by its threshold alone.
abbrev pub is_default : ℤ → Bool
is_default (pos n) = eqb n 5
is_default (negsuc n) = false

module _ (f : Float64) where
  open f use {F}

  -- `getDefaultConfigs`; the decimals 1.2 and 0.7 are given.
  unfoldable pub get_default_configs : F → F → DynamicConfigs F
  get_default_configs surge low_charge_discount = record {
    surge = surge;
    low_charge_discount = low_charge_discount;
    low_charge_threshold_percent = pos 28;
    incomplete_ride_threshold_seconds = pos 5;
  }

  -- The second look, when the zone service has failed.
  unfoldable pub fall_back : String → Time → Proc (Reply F) TariffZone
  fall_back id t = do
    entry ← reply (Call.zone_cache_load id)
    elim (fresh_zone entry t) [ some zone ↦ pure zone | none ↦ fail err_zone_unavailable ]

  -- Behind a miss: ask the service; if that fails, look in the cache again, against the time read
  -- at the start; else store the zone.
  unfoldable pub fetch_zone : String → Time → Proc (Reply F) TariffZone
  unfolding fall_back
  fetch_zone id t = do
    fetched ← reply (Call.get_tariff_zone_data id)
    elim fetched [
      | ok (some zone) ↦ do
        t' ← reply Call.now
        reply (Call.zone_cache_store id (record { zone = zone; expires_at = t' + zone_cache_ttl }))
        pure zone
      | ok none ↦ fall_back id t
      | err _ ↦ fall_back id t
    ]

  -- `getZoneWithCache`
  unfoldable pub get_zone_with_cache : String → Proc (Reply F) TariffZone
  unfolding fetch_zone
  get_zone_with_cache id = do
    entry ← reply (Call.zone_cache_load id)
    t ← reply Call.now
    elim (fresh_zone entry t) [ some zone ↦ pure zone | none ↦ fetch_zone id t ]

  -- `getConfigsCached`
  unfoldable pub get_configs_cached : Proc (Reply F) (DynamicConfigs F)
  get_configs_cached = do
    cfg ← reply Call.configs_load
    if is_default cfg.incomplete_ride_threshold_seconds
        then (do
          fetched ← reply Call.get_configs
          elim fetched [
            | ok (some cfg') ↦ do reply (Call.configs_store cfg'); pure cfg'
            | ok none ↦ pure cfg
            | err _ ↦ pure cfg
          ])
        else pure cfg

  -- `updateConfigs`
  unfoldable pub update_configs : Proc (Reply F) (Unit {0})
  update_configs = do
    fetched ← reply Call.get_configs
    elim fetched [
      | ok (some cfg) ↦ do reply (Call.configs_store cfg); pure tt
      | ok none ↦ pure tt
      | err _ ↦ pure tt
    ]

  config_loop : List Signal → Prog (Reply F) (Unit {0})
  config_loop [] = ret tt
  config_loop (stop ∷ ss) = ret tt
  config_loop (tick ∷ ss) = then_do (λ _. config_loop ss) update_configs

  -- `periodicConfigUpdate`: one update at once, then one for each tick until the service is stopped.
  unfoldable pub periodic_config_update : List Signal → Prog (Reply F) (Unit {0})
  unfolding config_loop
  periodic_config_update ss = then_do (λ _. config_loop ss) update_configs

  -- The inputs of the price.
  unfoldable pub price_inputs : ScooterData → TariffZone → Bool × Bool → DynamicConfigs F → Inputs f
  price_inputs scooter zone granted cfg = record {
    zone_price_per_minute = zone.price_per_minute;
    zone_price_unlock = zone.price_unlock;
    zone_default_deposit = zone.default_deposit;
    surge = cfg.surge;
    low_charge_discount = cfg.low_charge_discount;
    low_charge_threshold_percent = cfg.low_charge_threshold_percent;
    scooter_charge_percent = scooter.charge;
    has_subscription = granted.0;
    trusted = granted.1;
  }

  -- The offer that `CreateOffer` builds.
  unfoldable pub new_offer :
      CreateOfferRequest
      → ScooterData
      → TariffZone
      → Bool × Bool
      → DynamicConfigs F
      → Time
      → String
      → Offer
  unfolding price_inputs calculate
  new_offer req scooter zone granted cfg t id =
      let out = calculate f (price_inputs scooter zone granted cfg) in
      record {
        created_at = some t;
        deposit = out.deposit;
        expires_at = t + 5 * minute;
        id = id;
        price_per_minute = out.price_per_minute;
        price_unlock = out.price_unlock;
        scooter_id = req.scooter_id;
        user_id = req.user_id;
        zone_id = scooter.zone_id;
      }

  -- `SaveOffer`, then the index.
  unfoldable pub publish : Offer → Proc (Reply F) Offer
  publish offer = do
    within "failed to save offer" (ask (Call.save_offer offer))
    within "failed to index offer"
        (ask (Call.set_offer_by_user_scooter offer.user_id offer.scooter_id offer.id))
    pure offer

  -- From the scooter on.
  unfoldable pub price_offer : CreateOfferRequest → ScooterData → Proc (Reply F) Offer
  price_offer req scooter = do
    zone ← get_zone_with_cache scooter.zone_id
    profile ← reply (Call.get_user_profile req.user_id)
    cfg ← get_configs_cached
    t ← reply Call.now
    id ← reply Call.new_uuid
    publish (new_offer req scooter zone (privileges profile) cfg t id)

  -- `CreateOffer`; the request may be nil.
  unfoldable pub create_offer : Option CreateOfferRequest → Proc (Reply F) Offer
  create_offer none = fail (message "invalid request")
  create_offer (some req) =
      if req.user_id == "" || req.scooter_id == "" then fail (message "invalid request") else do
        existing ←
            within "failed to get existing offer"
              (ask (Call.get_offer_by_user_scooter req.user_id req.scooter_id))
        elim existing [
          | some offer ↦ pure offer
          | none ↦ do
            found ← reply (Call.get_scooter_data req.scooter_id)
            elim found [
              | err _ ↦ fail err_scooters_unavailable
              | ok none ↦ fail (message "scooter not found")
              | ok (some scooter) ↦ price_offer req scooter
            ]
        ]
