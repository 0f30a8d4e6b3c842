-- ===== src/System/Coherent/Calls.antt =====
-- Each call of an orders service against a coherent cache.
use system_design_homework.Prelude.{
  String, ◌≡◌, refl, sym, ◌∙◌, ◌≢◌, inl, inr, Bool-cases, Option, none, some, arith, ◌==◌, eq_iff,
  subst,
}
use system_design_homework.Prelude.Int.{ℤ}
use system_design_homework.Result.{Result, ok, err}
use system_design_homework.Program.{run}
use system_design_homework.Api.{Time, Order, Duration}
use system_design_homework.Orders.Calls.{Call, Reply, FinishArgs}
use system_design_homework.Postgres.Tables.{OrderRow, Tables, find_order}
use system_design_homework.Postgres.OrderRepository.{order_of_row, row_of_order}
use system_design_homework.Postgres.Server.{serve}
use system_design_homework.Postgres.Server.Calm.{
  IsCalm, read-Calm, create-Calm, finish-Calm, find-update-others,
}
use system_design_homework.Postgres.Server.Create.{with_order}
use system_design_homework.Postgres.Server.Finish.{update_of}
use system_design_homework.Postgres.Server.Shut.{Option-cases}
use system_design_homework.Redis.Calls.{Command, Reply as RedisReply}
use system_design_homework.Redis.Server.{IsRedis, Stays}
use system_design_homework.External.Client.{Request, Reply as HttpReply}
use system_design_homework.System.Coherent.Mode.{Mode, clean, stale, May, next}
use system_design_homework.System.Coherent.Entries.{
  Fresh-Stays, Fresh-tables, find-with_order, Agrees-with_order, find-id,
}
use system_design_homework.System.Coherent.Cache.{
  mark-Stays, get_offer-Stays, cache_get-Stays, cache_set-same, cache_set-others, invalidate-none,
  invalidate-others,
}
use system_design_homework.System.{World, answer}
use system_design_homework.System.Coherent.{TakesWrites, Agrees, Fresh, cached, Settled}

module _ {F : Type 0} (to_int : F → ℤ) (surge discount : F) (at_rest tick : Time → Time)
    (idem : (t : Time) → at_rest (at_rest t) ≡ at_rest t) {R P : Type 0}
    (h : (c : Command) → R → RedisReply c × R) (r : IsRedis h) (takes : TakesWrites h)
    (e : (c : Request) → P → HttpReply F c × P) where
  abbrev system : (c : Call) → World R P → Reply F c × World R P
  system = answer to_int surge discount at_rest tick h e

  abbrev pub IsKnown : Option Order → Tables → Type 0
  IsKnown none t = Unit {0}
  IsKnown (some o) t = Agrees at_rest o t

  -- The world in each mode.
  abbrev pub Fits : Mode → World R P → Type 0
  Fits (clean known) w = Settled at_rest h r w × IsKnown known w.db.tables
  Fits (stale id) w =
      IsCalm w.db
      × ((id' : String) → id ≢ id' → Fresh at_rest id' (cached at_rest h r id' w) w.db.tables)

  -- A call that changes no table and at most drops entries.
  quiet :
      (known : Option Order) (w w' : World R P)
      → IsCalm w'.db
      → w'.db.tables ≡ w.db.tables
      → ((id : String) → Stays (cached at_rest h r id w) (cached at_rest h r id w'))
      → Fits (clean known) w
      → Fits (clean known) w'
  quiet known w w' calm same stays ((calm0, coherent), knows) = (
    (calm, λ id. rw same (Fresh-Stays at_rest id _ _ w.db.tables (stays id) (coherent id))),
    rw same knows,
  )

  read-Fits :
      (known : Option Order) (id : String) (w : World R P)
      → Fits (clean known) w
      → let out = system (Call.get_order_by_id id) w in
        Fits (next F (clean known) (Call.get_order_by_id id) out.0) out.1
  unfolding answer order_of_row
  read-Fits known id w fits =
      let there : (row : OrderRow)
          → find_order id w.db.tables.orders ≡ some row
          → find_order row.id w.db.tables.orders ≡ some row =
        λ row found.
          subst (λ k. find_order k w.db.tables.orders ≡ some row)
            (sym (find-id id row w.db.tables.orders found)) found in
      let w' = (system (Call.get_order_by_id id) w).1 in
      let out = read-Calm at_rest tick id w.db fits.0.0 in
      let kept = quiet known w w' out.2 out.1 (λ id'. inl refl) fits in
      elim (Option-cases (find_order id w.db.tables.orders)) [
        | inl missing ↦ rw (out.0, missing) kept
        | inr (row, found) ↦ rw (out.0, found) (kept.0, (row, rw out.1 (there row found), refl))
      ]

  set-Fits :
      (known : Option Order) (o : Order) (ttl : Duration) (w : World R P)
      → known ≡ some o
      → Fits (clean known) w
      → Fits (clean known) (system (Call.cache_set o ttl) w).1
  unfolding answer
  set-Fits known o ttl w is_known ((calm, coherent), knows) =
      let agrees : Agrees at_rest o w.db.tables =
        subst (λ k. IsKnown k w.db.tables) is_known knows in
      let w' = (system (Call.cache_set o ttl) w).1 in
      let entry : (id : String) → Fresh at_rest id (cached at_rest h r id w') w.db.tables = λ id.
        elim (Bool-cases (o.id == id)) [
          | inl eq ↦
              let same : o.id ≡ id = (eq_iff o.id id).0 eq in
              subst (λ k. Fresh at_rest k (cached at_rest h r k w') w.db.tables) same
                (elim (cache_set-same h r takes o ttl w.redis) [
                  | inl stays ↦ Fresh-Stays at_rest o.id _ _ w.db.tables stays (coherent o.id)
                  | inr written ↦
                      Fresh-Stays at_rest o.id _ _ w.db.tables written (o, refl, refl, agrees)
                ])
          | inr other ↦
              Fresh-Stays at_rest id _ _ w.db.tables
                (cache_set-others h r o ttl id w.redis (λ p. ground (arith, p, eq_iff o.id id)))
                (coherent id)
        ] in
      ((calm, entry), knows)

  invalidate-Fits :
      (id : String) (w : World R P)
      → Fits (stale id) w
      → Fits (clean none) (system (Call.cache_invalidate id) w).1
  unfolding answer
  invalidate-Fits id w (calm, rest) =
      let w' = (system (Call.cache_invalidate id) w).1 in
      let entry : (id' : String) → Fresh at_rest id' (cached at_rest h r id' w') w.db.tables =
        λ id'. elim (Bool-cases (id == id')) [
          | inl eq ↦
              let same : id ≡ id' = (eq_iff id id').0 eq in
              subst (λ k. Fresh at_rest k (cached at_rest h r k w') w.db.tables) same
                (rw (invalidate-none h r takes id w.redis) tt)
          | inr other ↦
              let apart : id ≢ id' = λ p. ground (arith, p, eq_iff id id') in
              Fresh-Stays at_rest id' _ _ w.db.tables (invalidate-others h r id id' w.redis apart)
                (rest id' apart)
        ] in
      ((calm, entry), tt)

  create-Fits :
      (known : Option Order) (o : Order) (tx : String) (w : World R P) (res : Result (Unit {0}))
      → (system (Call.create_order o tx) w).0 ≡ res
      → ((now : Time) → order_of_row (row_of_order o now) ≡ o)
      → Fits (clean known) w
      → Fits
          (next F (clean known) (Call.create_order o tx) res)
          (system (Call.create_order o tx) w).1
  unfolding answer
  create-Fits known o tx w (err x) same whole fits =
      let out = create-Calm at_rest tick o tx w.db fits.0.0 in
      quiet known w (system (Call.create_order o tx) w).1 out.0 (out.2 (rw same refl))
        (λ id. inl refl) fits
  create-Fits known o tx w (ok u) same whole fits =
      let out = create-Calm at_rest tick o tx w.db fits.0.0 in
      let (added, fresh) = out.1 (rw same refl) in
      (
        (
          out.0,
          λ id. rw added (
              Fresh-tables at_rest id _ w.db.tables (with_order at_rest o tx w.db.clock w.db.tables)
                (λ row. find-with_order at_rest o tx w.db.clock w.db.tables id row fresh)
                (fits.0.1 id)),
        ),
        rw added (Agrees-with_order at_rest idem o tx w.db.clock w.db.tables (whole w.db.clock)),
      )

  finish-Fits :
      (known : Option Order) (a : FinishArgs) (w : World R P) (res : Result (Unit {0}))
      → (system (Call.finish_order a) w).0 ≡ res
      → Fits (clean known) w
      → Fits (next F (clean known) (Call.finish_order a) res) (system (Call.finish_order a) w).1
  unfolding answer
  finish-Fits known a w (err x) same fits =
      let out = finish-Calm at_rest tick a w.db fits.0.0 in
      quiet known w (system (Call.finish_order a) w).1 out.0 (out.2 (rw same refl)) (λ id. inl refl)
        fits
  finish-Fits known a w (ok u) same fits =
      let out = finish-Calm at_rest tick a w.db fits.0.0 in
      let w' = (system (Call.finish_order a) w).1 in
      (
        out.0,
        λ id apart.
            Fresh-tables at_rest id _ w.db.tables w'.db.tables
              (λ row found. rw (out.1 (rw same refl)) (
                find-update-others at_rest tick (update_of a w.db.clock) id w.db.tables.orders apart
                ∙ found))
              (fits.0.1 id),
      )

  -- A call that a method may make in its mode leads to the next mode.
  pub call-Fits :
      (m : Mode) (c : Call) (w : World R P)
      → May m c
      → Fits m w
      → Fits (next F m c (system c w).0) (system c w).1
  unfolding answer run serve
  call-Fits (clean k) Call.now w may fits =
      quiet k w (system Call.now w).1 fits.0.0 refl (λ id. inl refl) fits
  call-Fits (clean k) (Call.get_order_by_id id) w may fits = read-Fits k id w fits
  call-Fits (clean k) (Call.create_order o tx) w may fits = create-Fits k o tx w _ refl may fits
  call-Fits (clean k) (Call.finish_order a) w may fits = finish-Fits k a w _ refl fits
  call-Fits (clean k) (Call.get_offer id) w may fits =
      quiet k w (system (Call.get_offer id) w).1 fits.0.0 refl
        (λ id'. get_offer-Stays h r id id' w.redis) fits
  call-Fits (clean k) (Call.mark_offer_as_used id) w may fits =
      quiet k w (system (Call.mark_offer_as_used id) w).1 fits.0.0 refl
        (λ id'. mark-Stays h r id id' w.redis) fits
  call-Fits (clean k) (Call.hold_money req) w may fits = fits
  call-Fits (clean k) (Call.unhold_money id) w may fits = fits
  call-Fits (clean k) (Call.charge_money id amount) w may fits = fits
  call-Fits (clean k) (Call.cache_get id) w may fits =
      quiet k w (system (Call.cache_get id) w).1 fits.0.0 refl
        (λ id'. cache_get-Stays h r id id' w.redis) fits
  call-Fits (clean k) (Call.cache_set o ttl) w may fits = set-Fits k o ttl w may fits
  call-Fits (clean k) (Call.cache_invalidate id) w may fits = absurd may
  call-Fits (clean k) Call.get_configs w may fits = fits
  call-Fits (clean k) (Call.single_flight id) w may fits = fits
  call-Fits (stale id) (Call.cache_invalidate id') w may fits =
      subst (λ j. Fits (clean none) (system (Call.cache_invalidate j) w).1) may
        (invalidate-Fits id w fits)
  call-Fits (stale id) c w may fits = absurd may
