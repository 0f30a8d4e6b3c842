-- ===== src/Redis/Tests.antt =====
-- The theorems on the offer repository at concrete inputs.
use system_design_homework.Prelude.{String, ◌≡◌, refl, ◌⊎◌, true, none, some}
use system_design_homework.Result.{ok, is_ok}
use system_design_homework.Program.{run}
use system_design_homework.Json.{Object, marshal_offer, unmarshal_offer}
use system_design_homework.Orders.Samples.{offer_1}
use system_design_homework.Redis.OfferRepository.{
  save_offer, get_offer, set_offer_by_user_scooter, get_offer_by_user_scooter, key_idx_user_scooter,
  key_offer, life_span,
}
use system_design_homework.Redis.Server.Offers.{get-save_offer}
use system_design_homework.Redis.Server.Index.{Expired, find-publish}
use system_design_homework.Redis.Server.Memory.{Memory, memory, memory-IsRedis}

abbrev bare : Memory
bare k = none

saved : is_ok (run memory (save_offer true (some offer_1)) bare).0 ≡ true
unfolding run save_offer
saved = refl

got :
    is_ok
      (run memory (get_offer true "offer-1") (run memory (save_offer true (some offer_1)) bare).1).0
    ≡ true
unfolding run save_offer get_offer marshal_offer unmarshal_offer key_offer
got = refl

get-save_offer_example :
    let w = (run memory (save_offer true (some offer_1)) bare).1 in
    ((run memory (get_offer true "offer-1") w).0 ≡ ok (some offer_1))
    ⊎ (((run memory (get_offer true "offer-1") w).0 ≡ ok none) × (w (key_offer "offer-1") ≡ none))
get-save_offer_example = get-save_offer memory memory-IsRedis offer_1 bare saved got

abbrev indexed : Memory
indexed =
    (run memory (set_offer_by_user_scooter true "u1" "s1" "offer-1")
      (run memory (save_offer true (some offer_1)) bare).1).1

abbrev no_text : Object → String
no_text x = ""

found_1 : is_ok (run memory (get_offer_by_user_scooter no_text true "u1" "s1") indexed).0 ≡ true
unfolding run save_offer get_offer set_offer_by_user_scooter get_offer_by_user_scooter marshal_offer
    unmarshal_offer key_offer key_idx_user_scooter life_span
found_1 = refl

index_ok :
    is_ok
      (run memory
        (set_offer_by_user_scooter true "u1" "s1" "offer-1")
        (run memory (save_offer true (some offer_1)) bare).1).0
    ≡ true
unfolding run save_offer set_offer_by_user_scooter
index_ok = refl

find-publish_example :
    ((run memory (get_offer_by_user_scooter no_text true "u1" "s1") indexed).0 ≡ ok (some offer_1))
    ⊎ (((run memory (get_offer_by_user_scooter no_text true "u1" "s1") indexed).0 ≡ ok none)
        × Expired memory memory-IsRedis offer_1 "u1" "s1" indexed)
find-publish_example =
    find-publish memory memory-IsRedis no_text offer_1 bare saved index_ok found_1
