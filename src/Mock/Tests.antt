-- ===== src/Mock/Tests.antt =====
-- The theorems on the client against the service at concrete inputs.

use system_design_homework.Prelude.{ℕ, ◌≡◌, refl, none, [], ◌∷◌, List}
use system_design_homework.Prelude.Int.{pos}
use system_design_homework.Result.{ok}
use system_design_homework.Program.{run}
use system_design_homework.External.{ScooterData, TariffZone, UserProfile}
use system_design_homework.External.Client.{
  get_scooter_data, get_tariff_zone_data, get_user_profile,
}
use system_design_homework.Mock.{Storage, new_storage, load_from_json_files, assign_all, serve}
use system_design_homework.Mock.Loaded.{last_with}
use system_design_homework.Mock.Client.{lookups-loaded}

abbrev scooters : List ScooterData
scooters =
    record { charge = pos 10; id = "s1"; zone_id = "z1" }
    ∷ record { charge = pos 90; id = "s1"; zone_id = "z1" }
    ∷ []

abbrev zones : List TariffZone
zones =
    record { default_deposit = pos 200; id = "z1"; price_per_minute = pos 7; price_unlock = pos 50 }
    ∷ []

abbrev users : List UserProfile
users = []

abbrev storage : Storage ℕ
storage = record {
  scooters = assign_all (λ x. x.id) scooters [];
  users = [];
  zones = assign_all (λ x. x.id) zones [];
  configs = λ k. none;
}

loaded :
    load_from_json_files
      (record {
        scooters = ok scooters;
        users = ok users;
        zones = ok zones;
        configs = ok (λ k. none);
      })
      new_storage
    ≡ ok storage
unfolding load_from_json_files new_storage assign_all
loaded = refl

lookups-loaded_example :
    ((run serve (get_scooter_data "s1") storage).0 ≡ ok (last_with (λ x. x.id) "s1" scooters))
    × ((run serve (get_tariff_zone_data "s1") storage).0 ≡ ok (last_with (λ x. x.id) "s1" zones))
    × ((run serve (get_user_profile "s1") storage).0 ≡ ok (last_with (λ x. x.id) "s1" users))
lookups-loaded_example = lookups-loaded scooters users zones (λ k. none) storage loaded "s1" refl
