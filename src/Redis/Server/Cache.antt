-- ===== src/Redis/Server/Cache.antt =====
-- The order cache on a Redis server.
use system_design_homework.Prelude.{◌≡◌, ◌⊎◌, true, none, some, arith, String}
use system_design_homework.Result.{ok, is_ok}
use system_design_homework.Program.{run}
use system_design_homework.Api.{Order, Duration}
use system_design_homework.Json.{marshal_order}
use system_design_homework.Json.RoundTrip.{unmarshal-marshal_order}
use system_design_homework.Prelude.Int.{pos}
use system_design_homework.Redis.Calls.{Command, Reply, json}
use system_design_homework.Redis.OrderCache.{order_cache_key, get_order, set_order, invalidate}
use system_design_homework.Redis.Server.{IsRedis, Stays}

module _ {W : Type 0} (h : (c : Command) → W → Reply c × W) (r : IsRedis h) where
  open r use {live, get_live, set_live, del_live}

  set_order-Stays :
      (o : Order) (ttl : Duration) (w : W)
      → is_ok (run h (set_order true (some o) ttl) w).0 ≡ true
      → Stays
          (some (json (marshal_order o)))
          (live (run h (set_order true (some o) ttl) w).1 (order_cache_key o.id))
  unfolding run set_order
  set_order-Stays o ttl w done =
      ground (arith, set_live (order_cache_key o.id) (json (marshal_order o)) (pos ttl) w)

  get_order-cached :
      (o : Order) (w : W)
      → Stays (some (json (marshal_order o))) (live w (order_cache_key o.id))
      → is_ok (run h (get_order true o.id) w).0 ≡ true
      → ((run h (get_order true o.id) w).0 ≡ ok (some o))
        ⊎ (((run h (get_order true o.id) w).0 ≡ ok none) × (live w (order_cache_key o.id) ≡ none))
  unfolding run get_order
  get_order-cached o w entry got =
      ground (arith, get_live (order_cache_key o.id) w, unmarshal-marshal_order o)

  -- An order that was put in the cache is what a read right behind finds, if both succeed. The read
  -- finds nothing only where the entry of the order has expired: then the server holds nothing under
  -- its key when the read comes.
  pub get-set_order :
      (o : Order) (ttl : Duration) (w : W)
      → let kept = run h (set_order true (some o) ttl) w in
        let got = run h (get_order true o.id) kept.1 in
        is_ok kept.0 ≡ true
        → is_ok got.0 ≡ true
        → (got.0 ≡ ok (some o)) ⊎ ((got.0 ≡ ok none) × (live kept.1 (order_cache_key o.id) ≡ none))
  get-set_order o ttl w kept got = get_order-cached o _ (set_order-Stays o ttl w kept) got

  -- Behind an invalidation that succeeded, whatever the cache held, a read that does not fail finds
  -- nothing.
  get-invalidate :
      (id : String) (w : W)
      → let dropped = run h (invalidate true id) w in
        let got = run h (get_order true id) dropped.1 in
        is_ok dropped.0 ≡ true → is_ok got.0 ≡ true → got.0 ≡ ok none
  unfolding run get_order invalidate
  get-invalidate id w dropped got =
      let w1 = (h (Command.del (order_cache_key id)) w).1 in
      ground (arith, del_live (order_cache_key id) w, get_live (order_cache_key id) w1)
