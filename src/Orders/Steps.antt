-- ===== src/Orders/Steps.antt =====
-- How many calls a method of the orders service makes at most, and with what its repository is asked
-- to finish an order.
use system_design_homework.Prelude.{
  ℕ, zero, suc, ◌≡◌, refl, String, Bool, true, false, Bool-cases, inl, inr, none, some, arith, ◌==◌,
  ltb, Option,
}
use system_design_homework.Prelude.Int.{ℤ}
use system_design_homework.Result.{ok, err}
use system_design_homework.Program.{Proc, ret, call, ◌>>◌}
use system_design_homework.Program.Steps.{Within, Within-mono, Within-bind}
use system_design_homework.Api.{Time, Order, Offer}
use system_design_homework.Orders.Calls.{Call, Reply, FinishArgs}
use system_design_homework.Orders.Values.{
  CreateOrderRequest, is_active, finish_args, ride_seconds, ride_total,
}
use system_design_homework.Orders.Service.{
  Service, returned, cached_set, cached_invalidate, order_from_offer, create_order, load_order,
  flight_order, get_order, ride_threshold, settle, record_ride, finish_active, finish_order,
}

-- An order is never finished with the status of an active one.
abbrev pub Lawful : Call → Type 0
Lawful (Call.finish_order a) = is_active a.final_status ≡ false
Lawful _ = Unit {0}

pub finish_args-Lawful :
    (id : String) (t : Time) (seconds total : ℤ) (settled : Bool × Bool)
    → Lawful (Call.finish_order (finish_args id t seconds total settled))
finish_args-Lawful id t seconds total (true, b) = refl
finish_args-Lawful id t seconds total (false, b) = refl

module _ {F : Type 0} where
  cached_set-Within :
      {A : Type 0} (b : Bool) (o : Order) (n : ℕ) (k : Proc (Reply F) A)
      → Within Lawful n k
      → Within Lawful (suc n) (cached_set b o >> k)
  cached_set-Within true o n k h = (tt, λ r. h)
  cached_set-Within false o n k h = Within-mono Lawful n (suc n) k (omega arith) h

  cached_invalidate-Within :
      {A : Type 0} (b : Bool) (id : String) (n : ℕ) (k : Proc (Reply F) A)
      → Within Lawful n k
      → Within Lawful (suc n) (cached_invalidate b id >> k)
  cached_invalidate-Within true id n k h = (tt, λ r. h)
  cached_invalidate-Within false id n k h = Within-mono Lawful n (suc n) k (omega arith) h

module _ (F : Type 0) where
  order_from_offer-Within :
      (s : Service) (req : CreateOrderRequest) (offer : Offer)
      → Within {R = Reply F} Lawful 6 (order_from_offer s req offer)
  unfolding order_from_offer
  order_from_offer-Within s req offer = (
    tt,
    λ t. elim (Bool-cases (ltb offer.expires_at t)) [
      | inl e ↦ rw e tt
      | inr e ↦ rw e (elim (Bool-cases (offer.user_id == req.user_id)) [
        | inl e' ↦ rw e' (
          tt,
          elim [
            | err x ↦ tt
            | ok false ↦ tt
            | ok true ↦ (
              tt,
              elim [
                | err x ↦ tt
                | ok resp ↦ elim (Bool-cases resp.success) [
                  | inl granted ↦ rw granted (
                    tt,
                    λ start. (
                      tt,
                      elim [ err x ↦ (tt, λ r. tt) | ok u ↦ cached_set-Within s.cache _ 0 _ tt ],
                    ),
                  )
                  | inr refused ↦ rw refused tt
                ]
              ],
            )
          ],
        )
        | inr e' ↦ rw e' tt
      ])
    ],
  )

  pub create_order-Within :
      (s : Service) (req : CreateOrderRequest) → Within {R = Reply F} Lawful 8 (create_order s req)
  unfolding create_order
  create_order-Within s req = elim (Bool-cases (req.order_id == "")) [
    | inl e ↦ rw e tt
    | inr e ↦ rw e (
      tt,
      elim [
        | err x ↦ tt
        | ok (some o) ↦ tt
        | ok none ↦ (
          tt,
          elim [
            | err x ↦ tt
            | ok none ↦ tt
            | ok (some offer) ↦ order_from_offer-Within s req offer
          ],
        )
      ],
    )
  ]

  load_order-Within : (s : Service) (id : String) → Within {R = Reply F} Lawful 2 (load_order s id)
  unfolding load_order
  load_order-Within s id =
      (tt, elim [ err x ↦ tt | ok none ↦ tt | ok (some o) ↦ cached_set-Within s.cache o 0 _ tt ])

  flight_order-Within :
      (s : Service) (id : String) → Within {R = Reply F} Lawful 3 (flight_order s id)
  unfolding flight_order
  flight_order-Within s id = (tt, elim [ none ↦ load_order-Within s id | some r ↦ tt ])

  pub get_order-Within :
      (s : Service) (id : String) → Within {R = Reply F} Lawful 4 (get_order s id)
  unfolding get_order
  get_order-Within s id = elim (Bool-cases (id == "")) [
    | inl e ↦ rw e tt
    | inr e ↦ elim (Bool-cases s.cache) [
      | inl with_cache ↦
          rw (e, with_cache)
            (
              tt,
              elim [
                | ok (some o) ↦ tt
                | ok none ↦ flight_order-Within s id
                | err x ↦ flight_order-Within s id
              ],
            )
      | inr without ↦
          rw (e, without)
            (Within-mono Lawful 3 4 (flight_order s id) (omega arith) (flight_order-Within s id))
    ]
  ]

  ride_threshold-Within : (b : Bool) → Within {R = Reply F} Lawful 1 (ride_threshold b)
  unfolding ride_threshold
  ride_threshold-Within false = tt
  ride_threshold-Within true = (tt, elim [ ok (some cfg) ↦ tt | ok none ↦ tt | err e ↦ tt ])

  settle-Within : (id : String) (total : ℤ) → Within {R = Reply F} Lawful 2 (settle id total)
  unfolding settle
  settle-Within id total = (tt, elim [ err e ↦ tt | ok u ↦ (tt, λ r. tt) ])

  pub record_ride-Within :
      (s : Service) (a : FinishArgs)
      → Lawful (Call.finish_order a)
      → Within {R = Reply F} Lawful 4 (record_ride s a)
  unfolding record_ride
  record_ride-Within s a lawful = (
    lawful,
    elim [
      | err x ↦ tt
      | ok u ↦ cached_invalidate-Within s.cache a.order_id 2 _ (
        tt,
        elim [ err x ↦ tt | ok none ↦ tt | ok (some o) ↦ cached_set-Within s.cache o 0 _ tt ],
      )
    ],
  )

  finish_active-Within :
      (s : Service) (id : String) (order : Order)
      → Within {R = Reply F} Lawful 8 (finish_active s id order)
  unfolding finish_active
  finish_active-Within s id order = (
    tt,
    λ t.
        Within-bind Lawful 1 6 7 (ride_threshold s.configs_provider) _ (omega arith)
          (ride_threshold-Within s.configs_provider)
          (λ threshold.
            Within-bind Lawful 2 4 6 (settle id _) _ (omega arith) (settle-Within id _) (λ settled.
              record_ride-Within s _ (
                finish_args-Lawful id t (ride_seconds order.start_time t)
                  (ride_total order threshold (ride_seconds order.start_time t)) settled))),
  )

  returned-Within :
      (n : ℕ) (p : Proc (Reply F) (Option Order)) → Within Lawful n p → Within Lawful n (returned p)
  returned-Within n (ret (ok o)) h = tt
  returned-Within n (ret (err e)) h = tt
  returned-Within zero (call c k) h = absurd h
  returned-Within (suc n) (call c k) h = (h.0, λ r. returned-Within n (k r) (h.1 r))

  pub finish_order-Within :
      (s : Service) (id : String) → Within {R = Reply F} Lawful 9 (finish_order s id)
  unfolding finish_order
  finish_order-Within s id = (
    tt,
    elim [
      | err e ↦ tt
      | ok none ↦ tt
      | ok (some order) ↦ elim (Bool-cases (is_active order.status)) [
        | inl e ↦
            rw e (returned-Within 8 (finish_active s id order) (finish_active-Within s id order))
        | inr e ↦ rw e tt
      ]
    ],
  )
