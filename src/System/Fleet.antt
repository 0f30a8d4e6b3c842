-- ===== src/System/Fleet.antt =====
-- The offers service in the world of the orders service, as client/cmd/server/main.go puts it there:
-- on the same Redis server and external client, with its own two caches and a generator of ids.
pub mod Published
pub mod Orderable
pub mod Ordered
mod Tests
use system_design_homework.Prelude.{ℕ, String, true, some, Option, none, List, [], ◌∷◌}
use system_design_homework.Prelude.Int.{ℤ}
use system_design_homework.Program.{Prog, run, ask}
use system_design_homework.Api.{Time}
use system_design_homework.Json.{Object}
use system_design_homework.Mock.{Map, lookup}
use system_design_homework.External.{DynamicConfigs}
use system_design_homework.External.Client.{
  Request, Reply as HttpReply, get_scooter_data, get_tariff_zone_data, get_user_profile,
  get_configs,
}
use system_design_homework.Offers.Calls.{Call, Reply, ZoneCacheEntry}
use system_design_homework.Postgres.Calls.{Sql}
use system_design_homework.Redis.Calls.{Command, Reply as RedisReply}
use system_design_homework.Redis.OfferRepository.{
  get_offer_by_user_scooter, save_offer, set_offer_by_user_scooter,
}
use system_design_homework.System.{World, on_db, on_redis, on_external}

-- `G` is the state of the generator of ids.
pub record Fleet (F R P G : Type 0) : Type 0 where
  pub world : World R P
  pub zones : Map ZoneCacheEntry
  pub configs : DynamicConfigs F
  pub ids : G

-- `print` is the text of a JSON object.
module _ {F : Type 0} (to_int : F → ℤ) (surge discount : F) (at_rest tick : Time → Time)
    (print : Object → String) {R P G : Type 0} (h : (c : Command) → R → RedisReply c × R)
    (e : (c : Request) → P → HttpReply F c × P) (next_id : G → String × G) where
  abbrev in_world : {A : Type 0} → A × World R P → Fleet F R P G → A × Fleet F R P G
  in_world out w = (out.0, record w { world = out.1 })

  abbrev redis_part : {A : Type 0} → Prog RedisReply A → Fleet F R P G → A × Fleet F R P G
  redis_part p w = in_world (on_redis to_int surge discount at_rest tick h e p w.world) w

  abbrev external_part : {A : Type 0} → Prog (HttpReply F) A → Fleet F R P G → A × Fleet F R P G
  external_part p w = in_world (on_external to_int surge discount at_rest tick h e p w.world) w

  -- What the calls of the offers service run.
  unfoldable pub offers_answer : (c : Call F) → Fleet F R P G → Reply F c × Fleet F R P G
  offers_answer Call.now w =
      in_world (on_db to_int surge discount at_rest tick h e (ask Sql.now) w.world) w
  offers_answer Call.new_uuid w = let (id, ids) = next_id w.ids in (id, record w { ids = ids })
  offers_answer (Call.get_offer_by_user_scooter user scooter) w =
      redis_part (get_offer_by_user_scooter print true user scooter) w
  offers_answer (Call.save_offer offer) w = redis_part (save_offer true (some offer)) w
  offers_answer (Call.set_offer_by_user_scooter user scooter id) w =
      redis_part (set_offer_by_user_scooter true user scooter id) w
  offers_answer (Call.get_scooter_data id) w = external_part (get_scooter_data id) w
  offers_answer (Call.get_tariff_zone_data id) w = external_part (get_tariff_zone_data id) w
  offers_answer (Call.get_user_profile id) w = external_part (get_user_profile id) w
  offers_answer Call.get_configs w = external_part (get_configs to_int surge discount) w
  offers_answer (Call.zone_cache_load id) w = (lookup id w.zones, w)
  offers_answer (Call.zone_cache_store id entry) w =
      (tt, record w { zones = (id, entry) ∷ w.zones })
  offers_answer Call.configs_load w = (w.configs, w)
  offers_answer (Call.configs_store cfg) w = (tt, record w { configs = cfg })
