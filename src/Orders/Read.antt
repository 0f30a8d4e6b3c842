-- ===== src/Orders/Read.antt =====
-- `GetOrder` against every environment: where an order comes from, and what the cache is given.
use system_design_homework.Prelude.{
  ◌≡◌, refl, ◌∙◌, inl, inr, Bool, Bool-cases, ◌==◌, String, true, false, Option, none, some, List,
  [], ◌∷◌,
}
use system_design_homework.Result.{Error, Result, ok, err, wrapped}
use system_design_homework.Program.{Prog, ret, call, run, watch}
use system_design_homework.Program.Every.{Every, Every-run}
use system_design_homework.Api.{Order}
use system_design_homework.Orders.Calls.{Call, Reply}
use system_design_homework.Orders.Service.{Service, load_order, flight_order, get_order}

pub data ReadEvent : Type 0 where
  cached : String → Result (Option Order) → ReadEvent
  shared : String → Option (Result (Option Order)) → ReadEvent
  loaded : String → Result (Option Order) → ReadEvent
  kept : Order → ReadEvent

-- Newest first, each read with the id that it asked for.
abbrev pub note : (F : Type 0) (c : Call) → Reply F c → List ReadEvent → List ReadEvent
note F (Call.cache_get id) r es = cached id r ∷ es
note F (Call.single_flight id) r es = shared id r ∷ es
note F (Call.get_order_by_id id) r es = loaded id r ∷ es
note F (Call.cache_set order ttl) r es = kept order ∷ es
note F _ r es = es

-- The cache, if there is one, was asked for the order and did not have it.
abbrev pub Missed : Bool → String → List ReadEvent → Type 0
Missed b id [] = b ≡ false
Missed b id (cached i (ok (some o)) ∷ []) = ⊥
Missed b id (cached i r ∷ []) = (b ≡ true) × (i ≡ id)
Missed _ _ _ = ⊥

-- The events that go with each result for an id, with or without a cache.
abbrev pub Served : Bool → String → Result (Option Order) → List ReadEvent → Type 0
Served b id (ok (some o)) (cached i r ∷ []) = (b ≡ true) × (i ≡ id) × (r ≡ ok (some o))
Served b id out (shared i (some r) ∷ es) = (i ≡ id) × (out ≡ r) × Missed b id es
Served b id (ok (some o)) (kept o' ∷ loaded i r ∷ shared j none ∷ es) =
    (b ≡ true) × (i ≡ id) × (j ≡ id) × (o' ≡ o) × (r ≡ ok (some o)) × Missed b id es
Served b id (ok (some o)) (loaded i r ∷ shared j none ∷ es) =
    (b ≡ false) × (i ≡ id) × (j ≡ id) × (r ≡ ok (some o)) × Missed b id es
Served b id (ok none) (loaded i r ∷ shared j none ∷ es) =
    (i ≡ id) × (j ≡ id) × (r ≡ ok none) × Missed b id es
Served b id (err e) (loaded i r ∷ shared j none ∷ es) =
    (i ≡ id)
    × (j ≡ id)
    × ((x : Error) × (r ≡ err x) × (e ≡ wrapped "failed to get order" x))
    × Missed b id es
Served b id (err e) [] = id == "" ≡ true
Served _ _ _ _ = ⊥

abbrev pub is_empty : List ReadEvent → Bool
is_empty [] = true
is_empty (e ∷ es) = false

module _ (F : Type 0) where
  load_order-Served :
      (s : Service) (b : Bool) (id : String) (es : List ReadEvent)
      → s.cache ≡ b
      → Missed b id es
      → Every (note F) (Served b id) (shared id none ∷ es) (load_order s id)
  unfolding load_order
  load_order-Served s true id es e missed = elim [
    | err x ↦ (refl, refl, (x, refl, refl), missed)
    | ok none ↦ (refl, refl, refl, missed)
    | ok (some o) ↦ rw e (λ r. (refl, refl, refl, refl, refl, missed))
  ]
  load_order-Served s false id es e missed = elim [
    | err x ↦ (refl, refl, (x, refl, refl), missed)
    | ok none ↦ (refl, refl, refl, missed)
    | ok (some o) ↦ rw e (refl, refl, refl, refl, missed)
  ]

  flight_order-Served :
      (s : Service) (b : Bool) (id : String) (es : List ReadEvent)
      → s.cache ≡ b
      → Missed b id es
      → Every (note F) (Served b id) es (flight_order s id)
  unfolding flight_order
  flight_order-Served s b id es e missed = elim [
    | none ↦ load_order-Served s b id es e missed
    | some (ok (some o)) ↦ (refl, refl, missed)
    | some (ok none) ↦ (refl, refl, missed)
    | some (err x) ↦ (refl, refl, missed)
  ]

  pub get_order-Every :
      (s : Service) (b : Bool) (id : String)
      → s.cache ≡ b
      → Every (note F) (Served b id) [] (get_order s id)
  unfolding get_order
  get_order-Every s b id e = elim (Bool-cases (id == "")) [
    | inl e' ↦ rw e' e'
    | inr e' ↦ elim (Bool-cases b) [
      | inl with_cache ↦
          rw (e', e, with_cache)
            (elim [
              | ok (some o) ↦ (refl, refl, refl)
              | ok none ↦
                  flight_order-Served s true id (cached id (ok none) ∷ []) (e ∙ with_cache)
                    (refl, refl)
              | err x ↦
                  flight_order-Served s true id (cached id (err x) ∷ []) (e ∙ with_cache)
                    (refl, refl)
            ])
      | inr without ↦ rw (e', e, without) (flight_order-Served s false id [] (e ∙ without) refl)
    ]
  ]

  -- Notes stay.
  noted_still :
      {A : Type 0} (p : Prog (Reply F) A) (es : List ReadEvent)
      → is_empty es ≡ false
      → Every (note F) (λ _ es'. is_empty es' ≡ false) es p
  noted_still (ret a) es some_notes = some_notes
  noted_still (call c k) es some_notes = λ r. noted_still (k r) (note F c r es) (kept_note c r)
    where
      kept_note : (c : Call) (r : Reply F c) → is_empty (note F c r es) ≡ false
      kept_note Call.now r = some_notes
      kept_note (Call.get_order_by_id id) r = refl
      kept_note (Call.create_order o t) r = some_notes
      kept_note (Call.finish_order a) r = some_notes
      kept_note (Call.get_offer id) r = some_notes
      kept_note (Call.mark_offer_as_used id) r = some_notes
      kept_note (Call.hold_money req) r = some_notes
      kept_note (Call.unhold_money id) r = some_notes
      kept_note (Call.charge_money id n) r = some_notes
      kept_note (Call.cache_get id) r = refl
      kept_note (Call.cache_set o ttl) r = refl
      kept_note (Call.cache_invalidate id) r = some_notes
      kept_note Call.get_configs r = some_notes
      kept_note (Call.single_flight id) r = refl

  -- For an id, the first step is a call.
  pub get_order-asked :
      (s : Service) (id : String)
      → id == "" ≡ false
      → Every (note F) (λ _ es. is_empty es ≡ false) [] (get_order s id)
  unfolding get_order flight_order
  get_order-asked s id named = elim (Bool-cases s.cache) [
    | inl with_cache ↦ rw (named, with_cache) (λ r. noted_still _ (cached id r ∷ []) refl)
    | inr without ↦ rw (named, without) (λ r. noted_still _ (shared id r ∷ []) refl)
  ]

  -- Against every environment, an order that `GetOrder` returns is what the cache had under
  -- its id, or what the repository had, or what a read of the same id that was under way returns. Only an order just
  -- read from the repository is put in the cache, and it is put there whenever there is a cache. A
  -- failing cache never makes an error: an error is that of the repository, or of the read that was
  -- under way, or says that the id is empty.
  get_order-Served :
      {W : Type 0} (h : (c : Call) → W → Reply F c × W) (s : Service) (id : String) (w : W)
      → let out = run (watch (note F) h) (get_order s id) (w, []) in Served s.cache id out.0 out.1.1
  get_order-Served h s id w =
      Every-run (note F) h (Served s.cache id) (get_order s id) w []
        (get_order-Every s s.cache id refl)
