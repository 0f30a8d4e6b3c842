-- ===== src/Mock/Client.antt =====
-- The external client of client/internal/external/client.go against the service.

use text.Mathlib.Text.{starts_with}
use system_design_homework.Prelude.{String, ◌≡◌, false, List, arith}
use system_design_homework.Result.{ok}
use system_design_homework.Program.{run}
use system_design_homework.External.{ScooterData, TariffZone, UserProfile}
use system_design_homework.External.Client.{
  ConfigMap, get_scooter_data, get_tariff_zone_data, get_user_profile,
}
use system_design_homework.Mock.{Storage, new_storage, load_from_json_files, serve}
use system_design_homework.Mock.Loaded.{last_with, lookup-loaded}

module _ {F : Type 0} (scooters : List ScooterData) (users : List UserProfile)
    (zones : List TariffZone) (configs : ConfigMap F) (s : Storage F)
    (loaded : load_from_json_files
        (record {
          scooters = ok scooters;
          users = ok users;
          zones = ok zones;
          configs = ok configs;
        })
        new_storage
      ≡ ok s) where
  -- Against a service that has loaded its files, the client finds, for an id that is not of a load
  -- test, the last scooter, zone and user of that id in the files, and reports it as missing, not
  -- as an error, if there is none.
  pub lookups-loaded :
      (id : String)
      → starts_with id "load-" ≡ false
      → ((run serve (get_scooter_data id) s).0 ≡ ok (last_with (λ x. x.id) id scooters))
        × ((run serve (get_tariff_zone_data id) s).0 ≡ ok (last_with (λ x. x.id) id zones))
        × ((run serve (get_user_profile id) s).0 ≡ ok (last_with (λ x. x.id) id users))
  unfolding run serve get_scooter_data get_tariff_zone_data get_user_profile load_from_json_files
      new_storage
  lookups-loaded id plain = (
    ground (arith, lookup-loaded (λ (x : ScooterData). x.id) id scooters),
    ground (arith, lookup-loaded (λ (x : TariffZone). x.id) id zones),
    ground (arith, lookup-loaded (λ (x : UserProfile). x.id) id users),
  )
