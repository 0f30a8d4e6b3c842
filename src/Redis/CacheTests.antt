-- ===== src/Redis/CacheTests.antt =====
-- The theorems on the order cache at concrete inputs.
use system_design_homework.Prelude.{◌≡◌, refl, ◌⊎◌, true, none, some}
use system_design_homework.Result.{ok, is_ok}
use system_design_homework.Program.{run}
use system_design_homework.Json.{marshal_order, unmarshal_order}
use system_design_homework.Orders.Samples.{order_2}
use system_design_homework.Redis.OrderCache.{order_cache_key, get_order, set_order}
use system_design_homework.Redis.Server.Cache.{get-set_order}
use system_design_homework.Redis.Server.Memory.{Memory, memory, memory-IsRedis}

abbrev bare : Memory
bare k = none

abbrev cache_2 : Memory
cache_2 = (run memory (set_order true (some order_2) 1000) bare).1

kept_2 : is_ok (run memory (set_order true (some order_2) 1000) bare).0 ≡ true
unfolding run set_order
kept_2 = refl

read_2 : is_ok (run memory (get_order true "order-2") cache_2).0 ≡ true
unfolding run set_order get_order marshal_order unmarshal_order order_cache_key
read_2 = refl

get-set_order_example :
    ((run memory (get_order true "order-2") cache_2).0 ≡ ok (some order_2))
    ⊎ (((run memory (get_order true "order-2") cache_2).0 ≡ ok none)
        × (cache_2 (order_cache_key "order-2") ≡ none))
get-set_order_example = get-set_order memory memory-IsRedis order_2 1000 bare kept_2 read_2
