-- ===== src/System/Coherent/Cached.antt =====
-- Reads with and without the coherent cache.
use system_design_homework.Prelude.{
  ◌≡◌, refl, sym, ◌∙◌, ap, subst, ◌⊎◌, inl, inr, Bool-cases, String, true, false, Option, none,
  some, arith, ◌==◌,
}
use system_design_homework.Prelude.Int.{ℤ}
use system_design_homework.Result.{Result, ok, err, is_ok}
use system_design_homework.Program.{run}
use system_design_homework.Api.{Time, Order}
use system_design_homework.Json.RoundTrip.{unmarshal-marshal_order}
use system_design_homework.Orders.Calls.{Call, Reply}
use system_design_homework.Orders.Service.{Service, get_order, hit_or, flight_order, load_order}
use system_design_homework.Postgres.Tables.{Tables, find_order}
use system_design_homework.Postgres.OrderRepository.{scanned, get_order_by_id}
use system_design_homework.Postgres.Server.{serve}
use system_design_homework.Postgres.Server.Calm.{IsCalm, read-Calm}
use system_design_homework.Postgres.Server.Shut.{Option-cases}
use system_design_homework.Redis.Calls.{Command, Reply as RedisReply, Payload}
use system_design_homework.Redis.OrderCache
use system_design_homework.Redis.OrderCache.{order_cache_key}
use system_design_homework.Redis.Server.{IsRedis}
use system_design_homework.External.Client.{Request, Reply as HttpReply}
use system_design_homework.System.{World, answer}
use system_design_homework.System.Coherent.{rounded, Agrees, Fresh, Settled}

-- What a read replies, with the times of an order as they are stored.
abbrev pub as_stored : (Time → Time) → Result (Option Order) → Result (Option Order)
as_stored at_rest (ok (some o)) = ok (some (rounded at_rest o))
as_stored at_rest (ok none) = ok none
as_stored at_rest (err e) = err e

module _ {F : Type 0} (to_int : F → ℤ) (surge discount : F) (at_rest tick : Time → Time)
    {R P : Type 0} (h : (c : Command) → R → RedisReply c × R) (r : IsRedis h)
    (e : (c : Request) → P → HttpReply F c × P) where
  abbrev system : (c : Call) → World R P → Reply F c × World R P
  system = answer to_int surge discount at_rest tick h e

  -- What a read of the cache replies where the entry is fresh.
  abbrev Hit : String → Result (Option Order) → Tables → Type 0
  Hit id res t =
      (is_ok res ≡ false)
      ⊎ ((res ≡ ok none) ⊎ ((o : Order) × (res ≡ ok (some o)) × (o.id ≡ id) × Agrees at_rest o t))

  cache_get-Hit :
      (id : String) (w : R) (t : Tables) (p : Option Payload)
      → r.live w (order_cache_key id) ≡ p
      → Fresh at_rest id p t
      → Hit id (run h (OrderCache.get_order true id) w).0 t
  unfolding run OrderCache.get_order
  cache_get-Hit id w t none held fresh =
      elim (Bool-cases (is_ok (h (Command.get (order_cache_key id)) w).0)) [
        | inl replied ↦ inr (inl (ground (arith, r.get_live (order_cache_key id) w replied, held)))
        | inr failed ↦ inl (ground (arith, failed))
      ]
  cache_get-Hit id w t (some p) held (o, is_json, same, agrees) =
      elim (Bool-cases (is_ok (h (Command.get (order_cache_key id)) w).0)) [
        | inl replied ↦
            let entry : (run h (OrderCache.get_order true id) w).0 ≡ ok (some o) = ground (
              arith,
              r.get_live (order_cache_key id) w replied,
              held,
              is_json,
              unmarshal-marshal_order o,
            ) in
            inr (inr (o, entry, same, agrees))
        | inr failed ↦ inl (ground (arith, failed))
      ]

  -- A read behind the cache replies what is stored.
  flight_order-stored :
      (s : Service) (id : String) (w : World R P)
      → IsCalm w.db
      → (run system (flight_order s id) w).0 ≡ ok (scanned (find_order id w.db.tables.orders))
  unfolding run flight_order load_order answer get_order_by_id find_order serve
  flight_order-stored s id w calm =
      let reads = read-Calm at_rest tick id w.db calm in
      elim (Option-cases (find_order id w.db.tables.orders)) [
        | inl missing ↦ rw (reads.0, missing) refl
        | inr (row, found) ↦ elim (Bool-cases s.cache) [
          | inl given ↦ rw (reads.0, found, given) refl
          | inr without ↦ rw (reads.0, found, without) refl
        ]
      ]

  hit_or-stored :
      (s : Service) (id : String) (w : World R P) (res : Result (Option Order))
      → IsCalm w.db
      → Hit id res w.db.tables
      → as_stored at_rest (run system (hit_or (flight_order s id) res) w).0
        ≡ as_stored at_rest (ok (scanned (find_order id w.db.tables.orders)))
  unfolding run
  hit_or-stored s id w (err x) calm hit = ap (as_stored at_rest) (flight_order-stored s id w calm)
  hit_or-stored s id w (ok none) calm hit = ap (as_stored at_rest) (flight_order-stored s id w calm)
  hit_or-stored s id w (ok (some o)) calm (inl failed) = absurd (ground (arith, failed))
  hit_or-stored s id w (ok (some o)) calm (inr (inl missed)) = absurd (ground (arith, missed))
  hit_or-stored s id w (ok (some o)) calm (inr (inr (o', entry, same, (row, found, alike)))) =
      let there : find_order id w.db.tables.orders ≡ some row =
        subst (λ k. find_order k w.db.tables.orders ≡ some row) same found in
      rw there (ap (as_stored at_rest) entry ∙ ap (λ x. ok (some x)) alike)

  -- A service with the cache and one without it reply the same to a read of an order, but for the
  -- rounding of its times, where no transaction is open, no database fault is to come and the cache
  -- is coherent, whether or not the commands of the cache fail.
  pub get_order-cached :
      (s : Service) (id : String) (w : World R P)
      → Settled at_rest h r w
      → let cacheless : Service = record s { cache = false } in
        as_stored at_rest (run system (get_order s id) w).0
        ≡ as_stored at_rest (run system (get_order cacheless id) w).0
  unfolding get_order run answer
  get_order-cached s id w (calm, coherent) =
      let cacheless : Service = record s { cache = false } in
      let w1 = (system (Call.cache_get id) w).1 in
      let hit = cache_get-Hit id w.redis w.db.tables _ refl (coherent id) in
      let direct = ap (as_stored at_rest) (flight_order-stored cacheless id w calm) in
      elim (Bool-cases (id == "")) [
        | inl unnamed ↦ rw unnamed refl
        | inr named ↦ elim (Bool-cases s.cache) [
          | inl given ↦
              rw (named, given)
                (hit_or-stored s id w1 (system (Call.cache_get id) w).0 calm hit ∙ sym direct)
          | inr without ↦
              rw (named, without)
                (ap (as_stored at_rest) (flight_order-stored s id w calm) ∙ sym direct)
        ]
      ]
