-- ===== src/Orders/Finish.antt =====
-- `FinishOrder` against every environment.
use system_design_homework.Prelude.{
  ◌≡◌, refl, inl, inr, Bool, Bool-cases, String, true, false, Option, none, some, is_some, List, [],
  ◌∷◌, arith,
}
use system_design_homework.Prelude.Int.{ℤ}
use system_design_homework.Result.{Error, Result, ok, err, wrapped, is_ok}
use system_design_homework.Program.{Proc, ret, call, run, watch}
use system_design_homework.Program.Every.{Every, Every-run, Every-bind}
use system_design_homework.Api.{Time, Order, finished, payment_failed}
use system_design_homework.Orders.Calls.{Call, Reply}
use system_design_homework.Orders.Service.{
  Service, Returned, returned, ride_threshold, settle, record_ride, finish_active, finish_order,
}
use system_design_homework.Orders.Values.{is_active, finish_args, ride_seconds, ride_total}
use system_design_homework.Orders.Events.{
  Event, released, charged, closed, note, Every-cached_set, Every-cached_invalidate,
}

-- The events, newest first, of a run of `FinishOrder`: none, or one charge, then the release of
-- the deposit if the charge went through, then one update that records just that.
abbrev pub Fits : String → Returned → List Event → Type 0
Fits id out [] = is_some out.1 ≡ true
Fits id out (closed a b ∷ charged id' amount c ∷ []) =
    (c ≡ false)
    × (b ≡ false → is_some out.1 ≡ true)
    × (id' ≡ id)
    × (a.order_id ≡ id)
    × (a.total_amount ≡ amount)
    × (a.final_status ≡ payment_failed)
    × (a.charge_success ≡ false)
    × (a.unhold_success ≡ false)
Fits id out (closed a b ∷ released id'' d ∷ charged id' amount c ∷ []) =
    (c ≡ true)
    × (b ≡ false → is_some out.1 ≡ true)
    × (id' ≡ id)
    × (id'' ≡ id)
    × (a.order_id ≡ id)
    × (a.total_amount ≡ amount)
    × (a.final_status ≡ finished)
    × (a.charge_success ≡ true)
    × (a.unhold_success ≡ d)
Fits _ _ _ = ⊥

-- After `settle`: one charge, and one release if it went through.
abbrev Settled : String → ℤ → Result (Bool × Bool) → List Event → Type 0
Settled id total (ok b) (charged id' amount c ∷ []) =
    (c ≡ false) × (id' ≡ id) × (amount ≡ total) × (b.0 ≡ false) × (b.1 ≡ false)
Settled id total (ok b) (released id'' d ∷ charged id' amount c ∷ []) =
    (c ≡ true) × (id' ≡ id) × (id'' ≡ id) × (amount ≡ total) × (b.0 ≡ true) × (b.1 ≡ d)
Settled _ _ _ _ = ⊥

-- What `finish_active` returns, before it is paired up.
abbrev Finishes : String → Result (Option Order) → List Event → Type 0
Finishes id (ok o) es = Fits id (o, none) es
Finishes id (err e) es = Fits id (none, some e) es

settle_ok : (id : String) (total : ℤ) (e : Error) (es : List Event) → ¬ Settled id total (err e) es
settle_ok id total e [] h = h
settle_ok id total e (x ∷ es) h = h

closed-Finishes :
    (id : String) (t : Time) (seconds total : ℤ) (b : Bool × Bool) (es : List Event)
    → Settled id total (ok b) es
    → (r : Result (Option Order)) (u : Bool) → (u ≡ false → is_ok r ≡ false)
    → Finishes id r (closed (finish_args id t seconds total b) u ∷ es)
closed-Finishes id t seconds total b (charged id' amount c ∷ []) h (ok o) u e = ground arith
closed-Finishes id t seconds total b (charged id' amount c ∷ []) h (err x) u e = ground arith
closed-Finishes id t seconds total b (released id'' d ∷ charged id' amount c ∷ []) h (ok o) u e =
    ground arith
closed-Finishes id t seconds total b (released id'' d ∷ charged id' amount c ∷ []) h (err x) u e =
    ground arith
closed-Finishes id t seconds total b _ h r u e = absurd h

module _ (F : Type 0) where
  settle-Settled :
      (id : String) (total : ℤ) → Every (note F) (Settled id total) [] (settle id total)
  unfolding settle
  settle-Settled id total = elim [
    | err e ↦ (refl, refl, refl, refl, refl)
    | ok u ↦ elim [
      | err e ↦ (refl, refl, refl, refl, refl, refl)
      | ok u' ↦ (refl, refl, refl, refl, refl, refl)
    ]
  ]

  ride_threshold-quiet :
      (b : Bool) → Every (note F) (λ r es. (es ≡ []) × (is_ok r ≡ true)) [] (ride_threshold b)
  unfolding ride_threshold
  ride_threshold-quiet false = (refl, refl)
  ride_threshold-quiet true = elim [
    | ok (some cfg) ↦ (refl, refl)
    | ok none ↦ (refl, refl)
    | err e ↦ (refl, refl)
  ]

  record_ride-Finishes :
      (s : Service) (id : String) (t : Time) (seconds total : ℤ) (b : Bool × Bool) (es : List Event)
      → Settled id total (ok b) es
      → Every (note F) (Finishes id) es (record_ride s (finish_args id t seconds total b))
  unfolding record_ride
  record_ride-Finishes s id t seconds total b es h =
      let recorded = closed-Finishes id t seconds total b es h in
      elim [
        | err x ↦ recorded (err (wrapped "failed to finish order" x)) false (λ _. refl)
        | ok u ↦ Every-cached_invalidate _ _ s.cache id _ (elim [
          | err x ↦ recorded (err (wrapped "failed to reload order" x)) true (λ e. refl)
          | ok none ↦ recorded (ok none) true (λ e. cc)
          | ok (some o) ↦ Every-cached_set _ _ s.cache o _ (recorded (ok (some o)) true (λ e. cc))
        ])
      ]

  finish_active-Finishes :
      (s : Service) (id : String) (order : Order)
      → Every (note F) (Finishes id) [] (finish_active s id order)
  unfolding finish_active
  finish_active-Finishes s id order = λ t.
      Every-bind (note F) _ _ (ride_threshold s.configs_provider) _ []
        (ride_threshold-quiet s.configs_provider)
        (λ threshold es quiet. rw quiet.0 (
          Every-bind (note F) _ _ (settle id _) _ [] (settle-Settled id _)
            (λ b es' settled. record_ride-Finishes s id t _ _ b es' settled)
            (λ e es' bad. absurd (
              settle_ok id (ride_total order threshold (ride_seconds order.start_time t)) e es'
                bad))))
        (λ e es quiet. cc)

  returned-Every :
      (id : String) (p : Proc (Reply F) (Option Order)) (es : List Event)
      → Every (note F) (Finishes id) es p
      → Every (note F) (Fits id) es (returned p)
  returned-Every id (ret (ok o)) es e = e
  returned-Every id (ret (err x)) es e = e
  returned-Every id (call c k) es e = λ r. returned-Every id (k r) (note F c r es) (e r)

  pub finish_order-Every :
      (s : Service) (id : String) → Every (note F) (Fits id) [] (finish_order s id)
  unfolding finish_order
  finish_order-Every s id = elim [
    | err e ↦ refl
    | ok none ↦ refl
    | ok (some order) ↦ elim (Bool-cases (is_active order.status)) [
      | inl e ↦
          rw e (returned-Every id (finish_active s id order) [] (finish_active-Finishes s id order))
      | inr e ↦ rw e refl
    ]
  ]

  -- Against every environment, a run of `FinishOrder` makes no payment and no update and returns an
  -- error, or charges the order once. The release of the deposit is requested exactly if the charge
  -- went through, and the one update records the amount charged, `finished` or `payment_failed`, and
  -- both outcomes. If the update fails, an error is returned.
  pub finish_order-Fits :
      {W : Type 0} (h : (c : Call) → W → Reply F c × W) (s : Service) (id : String) (w : W)
      → let out = run (watch (note F) h) (finish_order s id) (w, []) in Fits id out.0 out.1.1
  finish_order-Fits h s id w =
      Every-run (note F) h (Fits id) (finish_order s id) w [] (finish_order-Every s id)
