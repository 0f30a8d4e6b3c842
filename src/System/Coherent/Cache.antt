-- ===== src/System/Coherent/Cache.antt =====
-- What the calls of an orders service make of an entry of the order cache.

use text.Mathlib.TextLemmas.{append_inj}
use system_design_homework.Prelude.{
  ℕ, String, ◌≡◌, refl, sym, ◌≢◌, ◌⊎◌, inl, inr, Bool-cases, true, Option, none, some, arith, ◌==◌,
}
use system_design_homework.Result.{ok, err}
use system_design_homework.Program.{Prog, run, pure}
use system_design_homework.Program.After.{After-run}
use system_design_homework.Program.Steps.{Within, Within-ret, After-rule}
use system_design_homework.Api.{Order, Duration}
use system_design_homework.Json.{marshal_order}
use system_design_homework.Prelude.Int.{pos}
use system_design_homework.Redis.Calls.{Command, Reply as RedisReply, Payload, json}
use system_design_homework.Redis.OfferRepository.{
  key_offer_used, get_offer, mark_offer_as_used, parse_offer,
}
use system_design_homework.Redis.OrderCache.{
  order_cache_key, get_order, set_order, invalidate, parse_order, times_fit,
}
use system_design_homework.Redis.Server.{IsRedis, Stays, key_of}
use system_design_homework.System.Marks.{order_key-ne-used}
use system_design_homework.System.Coherent.{TakesWrites}

-- Different orders have different keys.
order_cache_key-inj : (id id' : String) → order_cache_key id ≡ order_cache_key id' → id ≡ id'
unfolding order_cache_key
order_cache_key-inj id id' e =
    (append_inj {s₁ = "order:"} {s₂ = "order:"} {t₁ = id} {t₂ = id'} e refl).1

Stays-trans : (a b c : Option Payload) → Stays a b → Stays b c → Stays a c
Stays-trans a b c h k = ground (arith)

-- A command that does not write the key.
abbrev Apart : String → Command → Type 0
Apart k c = key_of c ≢ some k

mark-Within :
    (k id : String) → key_offer_used id ≢ k → Within (Apart k) 2 (mark_offer_as_used true id)
unfolding mark_offer_as_used
mark-Within k id apart =
    (λ e. ground (arith, e), elim [ err x ↦ tt | ok d ↦ (λ e. apart (ground (arith, e)), λ r. tt) ])

get_offer-Within : (k id : String) → Within (Apart k) 1 (get_offer true id)
unfolding get_offer
get_offer-Within k id = (
  λ e. ground (arith, e),
  elim [
    | err x ↦ tt
    | ok none ↦ tt
    | ok (some p) ↦ Within-ret (Apart k) 0 (parse_offer p) (λ o. pure (some o)) (λ o. tt)
  ],
)

cache_get-Within : (k id : String) → Within (Apart k) 1 (get_order true id)
unfolding get_order
cache_get-Within k id = (
  λ e. ground (arith, e),
  elim [
    | err x ↦ tt
    | ok none ↦ tt
    | ok (some p) ↦ Within-ret (Apart k) 0 (parse_order p) (λ o. pure (some o)) (λ o. tt)
  ],
)

cache_set-Within :
    (k : String) (o : Order) (ttl : Duration)
    → order_cache_key o.id ≢ k
    → Within (Apart k) 1 (set_order true (some o) ttl)
unfolding set_order
cache_set-Within k o ttl apart = elim (Bool-cases (o.id == "")) [
  | inl e ↦ rw e tt
  | inr e ↦ rw e (elim (Bool-cases (times_fit o)) [
    | inl fit ↦ rw fit (λ e'. apart (ground (arith, e')), λ r. tt)
    | inr out_of_range ↦ rw out_of_range tt
  ])
]

invalidate-Within :
    (k id : String) → order_cache_key id ≢ k → Within (Apart k) 1 (invalidate true id)
unfolding invalidate
invalidate-Within k id apart = (λ e. apart (ground (arith, e)), λ r. tt)

module _ {W : Type 0} (h : (c : Command) → W → RedisReply c × W) (r : IsRedis h) where
  open r use {live, others, set_live, del_live}

  run-Stays :
      {A : Type 0} (k : String) (n : ℕ) (p : Prog RedisReply A) (w : W)
      → Within (Apart k) n p
      → Stays (live w k) (live (run h p w).1 k)
  run-Stays k n p w within =
      After-run h (λ a w'. Stays (live w k) (live w' k)) p w
        (After-rule (Apart k) h (λ w'. Stays (live w k) (live w' k))
          (λ c w' apart so_far. Stays-trans _ _ _ so_far (others c k w' apart)) n p w within
          (inl refl))

  pub mark-Stays :
      (id id' : String) (w : W)
      → Stays
          (live w (order_cache_key id'))
          (live (run h (mark_offer_as_used true id) w).1 (order_cache_key id'))
  mark-Stays id id' w =
      run-Stays (order_cache_key id') 2 (mark_offer_as_used true id) w
        (mark-Within (order_cache_key id') id (λ e. order_key-ne-used id' id (sym e)))

  pub get_offer-Stays :
      (id id' : String) (w : W)
      → Stays
          (live w (order_cache_key id'))
          (live (run h (get_offer true id) w).1 (order_cache_key id'))
  get_offer-Stays id id' w =
      run-Stays (order_cache_key id') 1 (get_offer true id) w
        (get_offer-Within (order_cache_key id') id)

  pub cache_get-Stays :
      (id id' : String) (w : W)
      → Stays
          (live w (order_cache_key id'))
          (live (run h (get_order true id) w).1 (order_cache_key id'))
  cache_get-Stays id id' w =
      run-Stays (order_cache_key id') 1 (get_order true id) w
        (cache_get-Within (order_cache_key id') id)

  pub cache_set-others :
      (o : Order) (ttl : Duration) (id' : String) (w : W)
      → o.id ≢ id'
      → Stays
          (live w (order_cache_key id'))
          (live (run h (set_order true (some o) ttl) w).1 (order_cache_key id'))
  cache_set-others o ttl id' w apart =
      run-Stays (order_cache_key id') 1 (set_order true (some o) ttl) w
        (cache_set-Within (order_cache_key id') o ttl (λ e. apart (order_cache_key-inj o.id id' e)))

  pub invalidate-others :
      (id id' : String) (w : W)
      → id ≢ id'
      → Stays
          (live w (order_cache_key id'))
          (live (run h (invalidate true id) w).1 (order_cache_key id'))
  invalidate-others id id' w apart =
      run-Stays (order_cache_key id') 1 (invalidate true id) w
        (invalidate-Within (order_cache_key id') id (λ e. apart (order_cache_key-inj id id' e)))

  module _ (t : TakesWrites h) where
    open t use {set_ok, del_ok}

    -- Behind a write, the entry is the order, or it is what it was (an order without an id is not
    -- written), or it has expired.
    pub cache_set-same :
        (o : Order) (ttl : Duration) (w : W)
        → Stays
            (live w (order_cache_key o.id))
            (live (run h (set_order true (some o) ttl) w).1 (order_cache_key o.id))
          ⊎ Stays
              (some (json (marshal_order o)))
              (live (run h (set_order true (some o) ttl) w).1 (order_cache_key o.id))
    unfolding run set_order
    cache_set-same o ttl w = elim (Bool-cases (o.id == "")) [
      | inl e ↦ rw e (inl (inl refl))
      | inr e ↦
          let k = order_cache_key o.id in
          let p = json (marshal_order o) in
          rw e (elim (Bool-cases (times_fit o)) [
            | inl fit ↦ rw fit (inr (set_live k p (pos ttl) w (set_ok k p (pos ttl) w)))
            | inr out_of_range ↦ rw out_of_range (inl (inl refl))
          ])
    ]

    pub invalidate-none :
        (id : String) (w : W) → live (run h (invalidate true id) w).1 (order_cache_key id) ≡ none
    unfolding run invalidate
    invalidate-none id w = del_live (order_cache_key id) w (del_ok (order_cache_key id) w)
