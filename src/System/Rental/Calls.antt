-- ===== src/System/Rental/Calls.antt =====
-- What the calls of an undisturbed rental give.
use Prim.Native.String.{◌++◌}
use text.Mathlib.TextLemmas.{append_inj, append_assoc}
use system_design_homework.Prelude.{
  String, ◌≡◌, refl, sym, true, false, Option, none, some, List, [], ◌∷◌, arith, ◌==◌, eq_iff,
  eq_refl, ap, ◌∙◌, Bool-cases, inl, inr,
}
use system_design_homework.Prelude.Int.{ℤ}
use system_design_homework.Result.{Result, ok, err, is_ok}
use system_design_homework.Program.{run}
use system_design_homework.Api.{Time, Order, Offer, Duration}
use system_design_homework.Json.{marshal_offer}
use system_design_homework.Json.RoundTrip.{unmarshal-marshal_offer}
use system_design_homework.External.{PaymentHoldRequest}
use system_design_homework.External.Client.{
  hold_money_for_order, charge_money_for_order, unhold_money_for_order, get_configs, configs_of,
}
use system_design_homework.Mock.{Storage, serve, serve_hold, serve_payment, serve_configs}
use system_design_homework.Orders.Calls.{Call, Reply, FinishArgs}
use system_design_homework.Redis.Calls.{Command, Reply as RedisReply, json, plain}
use system_design_homework.Redis.Server.{IsRedis}
use system_design_homework.Redis.OfferRepository.{
  key_offer, key_offer_used, get_offer, mark_offer_as_used, life_span,
}
use system_design_homework.Redis.OrderCache.{set_order, invalidate}
use system_design_homework.Postgres.Tables.{
  Tables, OrderRow, find_order, has_order, has_payment, fits_order, fits_payment, is_integer,
  insert_order, insert_payment, update_orders,
}
use system_design_homework.Postgres.OrderRepository.{
  get_order_by_id, create_order, finish_order, row_of_order, hold_row, clear_row, refund_row,
  scanned,
}
use system_design_homework.Postgres.Server
use system_design_homework.Postgres.Server.{updated}
use system_design_homework.Postgres.Server.Create.{with_order}
use system_design_homework.Postgres.Server.Finish.{with_finish, update_of, find-update}
use system_design_homework.System.{World, answer}
use system_design_homework.System.Rental.{Works, calm, step, run-ret}

pair_eta {ℓ κ} : {A : Type ℓ} {B : Type κ} {p : A × B} {a : A} → p.0 ≡ a → p ≡ (a, p.1)
pair_eta {p} e = ap (λ x. (x, p.1)) e

clear-ne-refund : (id : String) → "txn-clear-" ++ id == "txn-refund-" ++ id ≡ false
clear-ne-refund id = elim (Bool-cases ("txn-clear-" ++ id == "txn-refund-" ++ id)) [
  | inr e ↦ e
  | inl e ↦
      let heads : ◌≡◌ {A = String} "txn-c" "txn-r" =
        (append_inj {s₁ = "txn-c"} {s₂ = "txn-r"} {t₁ = "lear-" ++ id} {t₂ = "efund-" ++ id}
          (sym (append_assoc "txn-c" "lear-" id)
            ∙ (eq_iff ("txn-clear-" ++ id) ("txn-refund-" ++ id)).0 e
            ∙ append_assoc "txn-r" "efund-" id)
          refl).0 in
      absurd (ground (arith, eq_iff "txn-c" "txn-r", heads))
]

has-update :
    (at_rest : Time → Time) (a : FinishArgs) (now : Time) (o : OrderRow) (os : List OrderRow)
    → find_order a.order_id os ≡ some o
    → has_order a.order_id (update_orders a.order_id (updated at_rest (update_of a now)) os) ≡ true
unfolding find_order has_order update_orders
has-update at_rest a now o [] found = cc
has-update at_rest a now o (p ∷ ps) found = ground (arith, has-update at_rest a now o ps)

module _ {F : Type 0} (to_int : F → ℤ) (surge discount : F) (at_rest tick : Time → Time)
    {R : Type 0} (h : (c : Command) → R → RedisReply c × R) (r : IsRedis h) (works : Works h r)
    (t : Tables) (clock : Time) (redis : R) (shelf : Storage F) where
  abbrev system : (c : Call) → World R (Storage F) → Reply F c × World R (Storage F)
  system = answer to_int surge discount at_rest tick h serve

  abbrev here : World R (Storage F)
  here = calm t clock redis shelf

  pub now-calm : system Call.now here ≡ (clock, calm t (tick clock) redis shelf)
  unfolding answer run Server.serve
  now-calm = refl

  pub read-calm :
      (id : String)
      → system (Call.get_order_by_id id) here ≡ (ok (scanned (find_order id t.orders)), here)
  unfolding answer run Server.serve get_order_by_id
  read-calm id = refl

  found_offer :
      (id : String) (offer : Offer)
      → r.live redis (key_offer id) ≡ some (json (marshal_offer offer))
      → run h (get_offer true id) redis
        ≡ (ok (some offer), (h (Command.get (key_offer id)) redis).1)
  unfolding get_offer
  found_offer id offer there =
      let replied : (h (Command.get (key_offer id)) redis).0
          ≡ ok (some (json (marshal_offer offer))) =
        r.get_live (key_offer id) redis (works.get_ok (key_offer id) redis) ∙ ap ok there in
      step h (Command.get (key_offer id)) _ redis (ok (some (json (marshal_offer offer))))
        (h (Command.get (key_offer id)) redis).1 _ (pair_eta replied)
        (rw (unmarshal-marshal_offer offer) (run-ret h _ _))

  pub get_offer-calm :
      (id : String) (offer : Offer)
      → r.live redis (key_offer id) ≡ some (json (marshal_offer offer))
      → system (Call.get_offer id) here
        ≡ (ok (some offer), calm t clock (h (Command.get (key_offer id)) redis).1 shelf)
  unfolding answer
  get_offer-calm id offer there =
      ap (λ out. (out.0, calm t clock out.1 shelf)) (found_offer id offer there)

  pub hold-calm :
      (req : PaymentHoldRequest)
      → system (Call.hold_money req) here
        ≡ (ok (record { transaction_id = "txn-hold-" ++ req.order_id; success = true }), here)
  unfolding answer run hold_money_for_order serve serve_hold
  hold-calm req = refl

  pub cache_set-calm :
      (order : Order) (ttl : Duration)
      → let out = run h (set_order true (some order) ttl) redis in
        system (Call.cache_set order ttl) here ≡ (out.0, calm t clock out.1 shelf)
  unfolding answer
  cache_set-calm order ttl = refl

  pub invalidate-calm :
      (id : String)
      → let out = run h (invalidate true id) redis in
        system (Call.cache_invalidate id) here ≡ (out.0, calm t clock out.1 shelf)
  unfolding answer
  invalidate-calm id = refl

  pub charge-calm :
      (id : String) (amount : ℤ) → system (Call.charge_money id amount) here ≡ (ok tt, here)
  unfolding answer run charge_money_for_order serve serve_payment
  charge-calm id amount = refl

  pub unhold-calm : (id : String) → system (Call.unhold_money id) here ≡ (ok tt, here)
  unfolding answer run unhold_money_for_order serve serve_payment
  unhold-calm id = refl

  pub configs-calm :
      system Call.get_configs here
      ≡ (ok (some (configs_of to_int surge discount shelf.configs)), here)
  unfolding answer run get_configs serve serve_configs configs_of
  configs-calm = refl

  mark_new :
      (id : String)
      → r.live redis (key_offer_used id) ≡ none
      → (redis' : R) × (run h (mark_offer_as_used true id) redis ≡ (ok true, redis'))
  unfolding mark_offer_as_used
  mark_new id free = marked (h (Command.ttl (key_offer id)) redis).0 refl
    where
      before : R
      before = (h (Command.ttl (key_offer id)) redis).1

      still : r.live before (key_offer_used id) ≡ none
      still =
          works.lasts.kept (Command.ttl (key_offer id)) (key_offer_used id) redis
            (λ e. ground (arith, e))
          ∙ free

      marked :
          (left : Result (Option ℤ))
          → (h (Command.ttl (key_offer id)) redis).0 ≡ left
          → (redis' : R) × (run h (mark_offer_as_used true id) redis ≡ (ok true, redis'))
      marked (err x) e = absurd (ground (arith, works.ttl_ok (key_offer id) redis, ap is_ok e))
      marked (ok left) e = (
        (h (Command.set_nx (key_offer_used id) (plain "1") (life_span left)) before).1,
        step h (Command.ttl (key_offer id)) _ redis (ok left) before
            (
              ok true,
              (h (Command.set_nx (key_offer_used id) (plain "1") (life_span left)) before).1,
            )
            (pair_eta e)
            (step h (Command.set_nx (key_offer_used id) (plain "1") (life_span left)) _ before
              (ok true)
              (h (Command.set_nx (key_offer_used id) (plain "1") (life_span left)) before).1
              (
                ok true,
                (h (Command.set_nx (key_offer_used id) (plain "1") (life_span left)) before).1,
              )
              (pair_eta
                (works.set_nx_new (key_offer_used id) (plain "1") (life_span left) before still))
              (run-ret h _ _)),
      )

  pub mark-calm :
      (id : String)
      → r.live redis (key_offer_used id) ≡ none
      → (redis' : R) × (system (Call.mark_offer_as_used id) here
          ≡ (ok true, calm t clock redis' shelf))
  unfolding answer
  mark-calm id free =
      let (redis', marked) = mark_new id free in
      (redis', ap (λ out. (out.0, calm t clock out.1 shelf)) marked)

  pub create-calm :
      (order : Order) (tx : String)
      → has_order order.id t.orders ≡ false
      → fits_order (row_of_order order clock) ≡ true
      → fits_payment (hold_row order tx clock) ≡ true
      → has_payment (hold_row order tx clock).id t.payments ≡ false
      → system (Call.create_order order tx) here
        ≡ (ok tt, calm (with_order at_rest order tx clock t) (tick clock) redis shelf)
  unfolding answer run create_order Server.serve insert_order insert_payment fits_order fits_payment
      row_of_order hold_row has_order
  create-calm order tx new fits pays unpaid = ground (arith, eq_refl order.id)

  pub finish-calm :
      (a : FinishArgs) (o : OrderRow)
      → find_order a.order_id t.orders ≡ some o
      → is_integer a.total_amount ≡ true
      → is_integer a.duration_seconds ≡ true
      → fits_payment (clear_row a o.user_id clock) ≡ true
      → fits_payment (refund_row a o.user_id o.deposit clock) ≡ true
      → has_payment ("txn-clear-" ++ a.order_id) t.payments ≡ false
      → has_payment ("txn-refund-" ++ a.order_id) t.payments ≡ false
      → system (Call.finish_order a) here
        ≡ (ok tt, calm (with_finish at_rest a o clock t) (tick clock) redis shelf)
  unfolding answer run finish_order Server.serve insert_payment fits_payment clear_row refund_row
      has_payment
  finish-calm a o found total seconds clears refunds no_clear no_refund = ground (
    arith,
    clear-ne-refund a.order_id,
    has-update at_rest a clock o t.orders,
    find-update at_rest a clock a.order_id t.orders,
  )
