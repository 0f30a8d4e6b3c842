-- ===== src/System/Marks.antt =====
-- The mark of an offer in the whole service: what Orders/Race.antt asks of the offers repository
-- holds of the one on Redis, as long as no entry expires.
use Prim.Native.String.{◌++◌}
use text.Mathlib.TextLemmas.{append_inj}
use system_design_homework.Prelude.{
  ℕ, String, ◌≡◌, refl, ◌≢◌, inl, inr, Bool, Bool-cases, true, false, Option, none, some, is_some,
  List, arith, ◌==◌, eq_iff, ◌≤◌,
}
use system_design_homework.Prelude.Int.{ℤ}
use system_design_homework.Result.{Result, ok, err}
use system_design_homework.Program.{Prog, run, watch, pure}
use system_design_homework.Program.After.{After-run}
use system_design_homework.Program.Threads.{Account, book, interleave}
use system_design_homework.Program.Steps.{Within, After-rule, Within-ret}
use system_design_homework.Api.{Time, Order, Duration}
use system_design_homework.Orders.Calls.{Call, Reply}
use system_design_homework.Orders.Events.{is_granted}
use system_design_homework.Orders.Race.{
  MarksOnce, Rivals, threads, grants, spends, holds_at_most_once,
}
use system_design_homework.Orders.Service.{Service}
use system_design_homework.Orders.Values.{CreateOrderRequest}
use system_design_homework.Redis.Calls.{Command, Reply as RedisReply, Payload, plain}
use system_design_homework.Redis.OfferRepository.{
  key_offer, key_offer_used, get_offer, mark_offer_as_used, life_span, parse_offer,
}
use system_design_homework.Redis.OrderCache.{
  order_cache_key, parse_order, get_order, set_order, invalidate, times_fit,
}
use system_design_homework.Redis.Server.{IsRedis, key_of}
use system_design_homework.External.Client.{Request, Reply as HttpReply}
use system_design_homework.System.{World, answer}

-- A server on which no entry expires.
pub record Lasts {W : Type 0} (h : (c : Command) → W → RedisReply c × W) (r : IsRedis h)
    : Type 0 where
  pub kept :
      (c : Command) (k : String) (w : W) → key_of c ≢ some k → r.live (h c w).1 k ≡ r.live w k
  pub set_nx_there :
      (k : String) (p : Payload) (d : ℤ) (w : W)
      → (h (Command.set_nx k p d) w).0 ≡ ok true
      → is_some (r.live (h (Command.set_nx k p d) w).1 k) ≡ true
  pub set_nx_kept :
      (k : String) (p : Payload) (d : ℤ) (w : W)
      → is_some (r.live w k) ≡ true
      → is_some (r.live (h (Command.set_nx k p d) w).1 k) ≡ true

pub order_key-ne-used : (id' id : String) → order_cache_key id' ≢ key_offer_used id
unfolding order_cache_key key_offer_used
order_key-ne-used id' id e =
    let heads : ◌≡◌ {A = String} "order:" "offer:" =
      (append_inj {s₁ = "order:"} {s₂ = "offer:"} {t₁ = id'} {t₂ = id ++ ":used"} e refl).0 in
    ground (arith, eq_iff "order:" "offer:", heads)

-- A command that does not overwrite or delete the key.
abbrev Spares : String → Command → Type 0
Spares k (Command.set k' p d) = k' ≢ k
Spares k (Command.del k') = k' ≢ k
Spares k _ = Unit {0}

module _ {W : Type 0} (h : (c : Command) → W → RedisReply c × W) (r : IsRedis h)
    (l : Lasts h r) where
  open r use {live, set_nx_live}
  open l use {kept, set_nx_there, set_nx_kept}

  abbrev IsHeld : String → W → Type 0
  IsHeld k w = is_some (live w k) ≡ true

  kept-IsHeld :
      (k : String) (c : Command) (w : W) → key_of c ≢ some k → IsHeld k w → IsHeld k (h c w).1
  kept-IsHeld k c w apart there = rw (kept c k w apart) there

  command-IsHeld : (k : String) (c : Command) (w : W) → Spares k c → IsHeld k w → IsHeld k (h c w).1
  command-IsHeld k Command.now w spares there =
      kept-IsHeld k Command.now w (λ e. ground (arith, e)) there
  command-IsHeld k (Command.get k') w spares there =
      kept-IsHeld k (Command.get k') w (λ e. ground (arith, e)) there
  command-IsHeld k (Command.set k' p d) w spares there =
      kept-IsHeld k (Command.set k' p d) w (λ e. spares (ground (arith, e))) there
  command-IsHeld k (Command.set_nx k' p d) w spares there = elim (Bool-cases (k' == k)) [
    | inl same ↦ let e : k' ≡ k = (eq_iff k' k).0 same in rw e (set_nx_kept k p d w there)
    | inr other ↦
        kept-IsHeld k (Command.set_nx k' p d) w (λ e. ground (arith, e, eq_iff k' k)) there
  ]
  command-IsHeld k (Command.ttl k') w spares there =
      kept-IsHeld k (Command.ttl k') w (λ e. ground (arith, e)) there
  command-IsHeld k (Command.del k') w spares there =
      kept-IsHeld k (Command.del k') w (λ e. spares (ground (arith, e))) there

  -- The methods of the two stores that an orders service calls spare the mark of an offer.
  get_offer-Within : (k id : String) → Within (Spares k) 1 (get_offer true id)
  unfolding get_offer
  get_offer-Within k id = (
    tt,
    elim [
      | err x ↦ tt
      | ok none ↦ tt
      | ok (some p) ↦ Within-ret (Spares k) 0 (parse_offer p) (λ o. pure (some o)) (λ o. tt)
    ],
  )

  mark-Within : (k id : String) → Within (Spares k) 2 (mark_offer_as_used true id)
  unfolding mark_offer_as_used
  mark-Within k id = (tt, elim [ err x ↦ tt | ok d ↦ (tt, λ r. tt) ])

  cache_get-Within : (k id : String) → Within (Spares k) 1 (get_order true id)
  unfolding get_order
  cache_get-Within k id = (
    tt,
    elim [
      | err x ↦ tt
      | ok none ↦ tt
      | ok (some p) ↦ Within-ret (Spares k) 0 (parse_order p) (λ o. pure (some o)) (λ o. tt)
    ],
  )

  cache_set-Within :
      (id : String) (o : Order) (ttl : Duration)
      → Within (Spares (key_offer_used id)) 1 (set_order true (some o) ttl)
  unfolding set_order
  cache_set-Within id o ttl = elim (Bool-cases (o.id == "")) [
    | inl e ↦ rw e tt
    | inr e ↦ rw e (elim (Bool-cases (times_fit o)) [
      | inl fit ↦ rw fit (order_key-ne-used o.id id, λ r. tt)
      | inr out_of_range ↦ rw out_of_range tt
    ])
  ]

  invalidate-Within :
      (id id' : String) → Within (Spares (key_offer_used id)) 1 (invalidate true id')
  unfolding invalidate
  invalidate-Within id id' = (order_key-ne-used id' id, λ r. tt)

  run-IsHeld :
      {A : Type 0} (k : String) (n : ℕ) (p : Prog RedisReply A) (w : W)
      → Within (Spares k) n p
      → IsHeld k w
      → IsHeld k (run h p w).1
  run-IsHeld k n p w within there =
      After-run h (λ a w'. IsHeld k w') p w
        (After-rule (Spares k) h (IsHeld k) (command-IsHeld k) n p w within there)

  mark-granted :
      (id : String) (w : W) (left : Result (Option ℤ))
      → (h (Command.ttl (key_offer id)) w).0 ≡ left
      → is_granted (run h (mark_offer_as_used true id) w).0 ≡ true
      → (is_some (live w (key_offer_used id)) ≡ false)
        × IsHeld (key_offer_used id) (run h (mark_offer_as_used true id) w).1
  unfolding run mark_offer_as_used
  mark-granted id w (ok d) e granted =
      let w1 = (h (Command.ttl (key_offer id)) w).1 in
      ground (
        arith,
        set_nx_live (key_offer_used id) (plain "1") (life_span d) w1,
        set_nx_there (key_offer_used id) (plain "1") (life_span d) w1,
        kept (Command.ttl (key_offer id)) (key_offer_used id) w,
      )
  mark-granted id w (err x) e granted = ground (arith)

module _ {F : Type 0} (to_int : F → ℤ) (surge discount : F) (at_rest tick : Time → Time)
    {R P : Type 0} (h : (c : Command) → R → RedisReply c × R) (r : IsRedis h) (l : Lasts h r)
    (e : (c : Request) → P → HttpReply F c × P) where
  abbrev system : (c : Call) → World R P → Reply F c × World R P
  system = answer to_int surge discount at_rest tick h e

  -- The mark of an offer is there.
  abbrev is_used : String → World R P → Bool
  is_used id w = is_some (r.live w.redis (key_offer_used id))

  answer-is_used :
      (id : String) (c : Call) (w : World R P)
      → is_used id w ≡ true
      → is_used id (system c w).1 ≡ true
  unfolding answer
  answer-is_used id Call.now w there = there
  answer-is_used id (Call.get_order_by_id id') w there = there
  answer-is_used id (Call.create_order order tx) w there = there
  answer-is_used id (Call.finish_order a) w there = there
  answer-is_used id (Call.get_offer id') w there =
      run-IsHeld h r l (key_offer_used id) 1 _ w.redis
        (get_offer-Within h r l (key_offer_used id) id') there
  answer-is_used id (Call.mark_offer_as_used id') w there =
      run-IsHeld h r l (key_offer_used id) 2 _ w.redis (mark-Within h r l (key_offer_used id) id')
        there
  answer-is_used id (Call.hold_money req) w there = there
  answer-is_used id (Call.unhold_money id') w there = there
  answer-is_used id (Call.charge_money id' amount) w there = there
  answer-is_used id (Call.cache_get id') w there =
      run-IsHeld h r l (key_offer_used id) 1 _ w.redis
        (cache_get-Within h r l (key_offer_used id) id') there
  answer-is_used id (Call.cache_set order ttl) w there =
      run-IsHeld h r l (key_offer_used id) 1 _ w.redis (cache_set-Within h r l id order ttl) there
  answer-is_used id (Call.cache_invalidate id') w there =
      run-IsHeld h r l (key_offer_used id) 1 _ w.redis (invalidate-Within h r l id id') there
  answer-is_used id Call.get_configs w there = there
  answer-is_used id (Call.single_flight id') w there = there

  answer-MarksOnce : (id : String) → MarksOnce F id system
  unfolding answer
  answer-MarksOnce id = record {
    used = is_used id;
    once = λ w granted. mark-granted h r l id w.redis _ refl granted;
    stays = answer-is_used id;
  }

  -- On the real repositories, however the calls of any number of `CreateOrder` requests for one offer
  -- are interleaved and whatever else fails, the external service is asked for at most one deposit
  -- hold, as long as no entry of the Redis server expires.
  pub holds_once :
      (id : String) (rs : List (Service × CreateOrderRequest)) (is : List ℕ) (w : World R P)
      → Rivals F id rs
      → let start : Account = record { granted = 0; spent = 0 } in
        let books = watch (book (grants F id) spends) system in
        (interleave books is (threads F id rs) (w, start)).1.1.spent ≤ 1
  holds_once id rs is w rivals = holds_at_most_once F id system (answer-MarksOnce id) rs is w rivals
