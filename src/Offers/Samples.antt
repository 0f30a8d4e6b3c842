-- ===== src/Offers/Samples.antt =====
-- A sample environment for the tests: every service answers, and nothing is cached or stored.
use system_design_homework.Prelude.{ℕ, true, false, some, none}
use system_design_homework.Prelude.Int.{pos}
use system_design_homework.Result.{ok}
use system_design_homework.External.{DynamicConfigs}
use system_design_homework.Offers.Calls.{Call, Reply}
use system_design_homework.Offers.Service.{CreateOfferRequest}

abbrev pub request_1 : CreateOfferRequest
request_1 = record { user_id = "u1"; scooter_id = "s1" }

abbrev pub configs_1 : DynamicConfigs ℕ
configs_1 = record {
  surge = 120;
  low_charge_discount = 70;
  low_charge_threshold_percent = pos 28;
  incomplete_ride_threshold_seconds = pos 5;
}

abbrev pub town : (c : Call ℕ) → Unit {0} → Reply ℕ c × Unit {0}
town Call.now w = (1000, w)
town Call.new_uuid w = ("offer-1", w)
town (Call.get_offer_by_user_scooter user scooter) w = (ok none, w)
town (Call.save_offer offer) w = (ok tt, w)
town (Call.set_offer_by_user_scooter user scooter id) w = (ok tt, w)
town (Call.get_scooter_data id) w =
    (ok (some (record { charge = pos 10; id = "s1"; zone_id = "z1" })), w)
town (Call.get_tariff_zone_data id) w = (
  ok (
      some (record {
        default_deposit = pos 200;
        id = "z1";
        price_per_minute = pos 7;
        price_unlock = pos 50;
      })),
  w,
)
town (Call.get_user_profile id) w =
    (ok (some (record { has_subscription = true; id = "u1"; trusted = false })), w)
town Call.get_configs w = (ok (some configs_1), w)
town (Call.zone_cache_load id) w = (none, w)
town (Call.zone_cache_store id entry) w = (tt, w)
town Call.configs_load w = (configs_1, w)
town (Call.configs_store cfg) w = (tt, w)
