-- ===== src/Offers/Calls.antt =====
-- What the offers service calls: its repository, the external services, the clock, the generator of
-- ids (github.com/google/uuid), and its own two caches, which all requests share. A read or a write
-- of a cache is one call: the code holds the cache's lock for it.
use system_design_homework.Prelude.{String, Option}
use system_design_homework.Result.{Result}
use system_design_homework.Api.{Time, Offer}
use system_design_homework.External.{ScooterData, TariffZone, UserProfile, DynamicConfigs}

-- `zoneCacheEntry`
pub record ZoneCacheEntry : Type 0 where
  pub zone : TariffZone
  pub expires_at : Time

pub data Call (F : Type 0) : Type 0 where
  now : Call F
  new_uuid : Call F
  get_offer_by_user_scooter : String → String → Call F
  save_offer : Offer → Call F
  set_offer_by_user_scooter : String → String → String → Call F
  get_scooter_data : String → Call F
  get_tariff_zone_data : String → Call F
  get_user_profile : String → Call F
  get_configs : Call F
  zone_cache_load : String → Call F
  zone_cache_store : String → ZoneCacheEntry → Call F
  configs_load : Call F
  configs_store : DynamicConfigs F → Call F

-- The service's `configs` is never nil: it starts with the defaults, and only configurations that
-- were received are stored.
abbrev pub Reply : (F : Type 0) → Call F → Type 0
Reply F Call.now = Time
Reply F Call.new_uuid = String
Reply F (Call.get_offer_by_user_scooter user scooter) = Result (Option Offer)
Reply F (Call.save_offer offer) = Result (Unit {0})
Reply F (Call.set_offer_by_user_scooter user scooter id) = Result (Unit {0})
Reply F (Call.get_scooter_data id) = Result (Option ScooterData)
Reply F (Call.get_tariff_zone_data id) = Result (Option TariffZone)
Reply F (Call.get_user_profile id) = Result (Option UserProfile)
Reply F Call.get_configs = Result (Option (DynamicConfigs F))
Reply F (Call.zone_cache_load id) = Option ZoneCacheEntry
Reply F (Call.zone_cache_store id entry) = Unit {0}
Reply F Call.configs_load = DynamicConfigs F
Reply F (Call.configs_store cfg) = Unit {0}
