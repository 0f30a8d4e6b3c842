-- ===== src/System/Fleet/Tests.antt =====
-- The theorem on an offer and its order at a concrete input: one scooter, one zone and one user, a
-- Redis server in memory, and ids that are counted.
use system_design_homework.Prelude.{arith, ℕ, suc, String, ◌≡◌, refl, false, some, none, [], ◌∷◌}
use system_design_homework.Prelude.Int.{pos}
use system_design_homework.Result.{ok}
use system_design_homework.Program.{run}
use system_design_homework.Api.{Offer}
use system_design_homework.Json.{Object}
use system_design_homework.Mock.{Storage, lookup, serve, serve_scooter, serve_zone, serve_profile}
use system_design_homework.External.Client.{
  get_scooter_data, get_tariff_zone_data, get_user_profile,
}
use system_design_homework.Pricing.{calculate, raw_price, is_low_charge, safe_float}
use system_design_homework.Pricing.Hundredths.{hundredths}
use system_design_homework.Offers.Samples.{request_1, configs_1}
use system_design_homework.Offers.Service.{
  create_offer, price_offer, publish, new_offer, price_inputs, get_zone_with_cache, fetch_zone,
  get_configs_cached,
}
use system_design_homework.Orders.Values.{new_order, CreateOrderRequest}
use system_design_homework.Handler.{order}
use system_design_homework.Handler.Offers.{post_offers}
use system_design_homework.Handler.Orders.{post_orders}
use system_design_homework.Postgres.Samples.{as_is, one_on, db_1}
use system_design_homework.Postgres.Server
use system_design_homework.Postgres.Tables.{Tables, find_order, has_payment, is_varchar}
use system_design_homework.Redis.OfferRepository.{
  key_offer, key_offer_used, key_idx_user_scooter, get_offer_by_user_scooter, get_offer, save_offer,
  set_offer_by_user_scooter, time_left, life_span,
}
use system_design_homework.Redis.Server.Memory.{Memory, memory, memory-IsRedis}
use system_design_homework.System.{answer, main_service}
use system_design_homework.System.Lasting.{memory-Works, memory-Stores}
use system_design_homework.System.Rental.{calm}
use system_design_homework.System.Fleet.{Fleet, offers_answer}
use system_design_homework.System.Fleet.Ordered.{offer-Ordered}

abbrev text_of : Object → String
text_of x = "{}"

abbrev counted : ℕ → String × ℕ
counted n = ("offer-7", suc n)

abbrev shelf : Storage ℕ
shelf = record {
  scooters = ("s1", record { charge = pos 80; id = "s1"; zone_id = "z1" }) ∷ [];
  users = ("u1", record { has_subscription = false; id = "u1"; trusted = false }) ∷ [];
  zones =
      (
        "z1",
        record {
          default_deposit = pos 200;
          id = "z1";
          price_per_minute = pos 7;
          price_unlock = pos 50;
        },
      )
      ∷ [];
  configs = λ k. none;
}

abbrev fleet : Fleet ℕ Memory (Storage ℕ) ℕ
fleet = record {
  world = record { db = db_1; redis = λ k. none; external = shelf };
  zones = [];
  configs = record configs_1 { incomplete_ride_threshold_seconds = pos 7 };
  ids = 7;
}

abbrev made_offer : Offer
made_offer = record {
  created_at = some 3002;
  deposit = pos 200;
  expires_at = 300000003002;
  id = "offer-7";
  price_per_minute = pos 8;
  price_unlock = pos 50;
  scooter_id = "s1";
  user_id = "u1";
  zone_id = "z1";
}

abbrev no_rows : Tables
no_rows = record { orders = []; payments = [] }

abbrev with_the_offer : Memory
unfolding offers_answer post_offers
with_the_offer =
    (run (offers_answer (λ n. pos n) 12 7 as_is one_on text_of memory serve counted)
      (post_offers hundredths (ok request_1)) fleet).1.world.redis

abbrev for_it : CreateOrderRequest
for_it = record { order_id = "order-7"; offer_id = "offer-7"; user_id = "u1" }

offer-Ordered_example :
    (run
      (answer (λ n. pos n) 12 7 as_is one_on memory serve)
      (post_orders main_service (ok for_it))
      (calm no_rows 5000 with_the_offer shelf)).0
    ≡ record { status = 201; body = order (some (new_order for_it made_offer (one_on 5000))) }
unfolding offers_answer post_offers create_offer price_offer publish new_offer price_inputs
    get_zone_with_cache fetch_zone get_configs_cached calculate raw_price is_low_charge safe_float
    key_offer key_offer_used key_idx_user_scooter get_offer_by_user_scooter get_offer save_offer
    set_offer_by_user_scooter time_left life_span find_order has_payment is_varchar get_scooter_data
    get_tariff_zone_data get_user_profile serve serve_scooter serve_zone serve_profile lookup
    Server.serve run
offer-Ordered_example =
    offer-Ordered hundredths (λ n. pos n) 12 7 as_is one_on text_of memory memory-IsRedis
      memory-Stores memory-Works serve counted request_1 fleet made_offer "order-7" no_rows 5000
      shelf refl refl refl refl refl refl refl refl (refl, refl, refl, refl, refl) refl
      (omega arith) refl refl
