-- ===== src/System/Coherent/Methods.antt =====
-- The methods of the orders service keep the cache coherent.
use system_design_homework.Prelude.{
  ◌≡◌, refl, inl, inr, Bool-cases, String, Bool, true, false, Option, none, some, arith, ◌==◌, ltb,
}
use system_design_homework.Prelude.Int.{ℤ}
use system_design_homework.Result.{Error, Result, ok, err}
use system_design_homework.Program.{Prog, Proc, ret, call, ◌>>=◌, ◌>>◌, then_do}
use system_design_homework.Api.{Order, Offer}
use system_design_homework.Orders.Calls.{Reply, FinishArgs}
use system_design_homework.Orders.Values.{CreateOrderRequest, is_active, new_order}
use system_design_homework.Orders.Service.{
  Service, returned, cached_set, cached_invalidate, order_from_offer, create_order, load_order,
  flight_order, get_order, ride_threshold, settle, record_ride, finish_active, finish_order,
}
use system_design_homework.Postgres.OrderRepository.{order_of_row, row_of_order, initial_amount}
use system_design_homework.System.Coherent.Mode.{Mode, clean, stale, May, next}

-- The entry of no order is out of date.
abbrev pub IsClean : Mode → Type 0
IsClean (clean known) = Unit {0}
IsClean (stale id) = ⊥

module _ (F : Type 0) where
  -- A method asks only for what it may, whatever is replied, and ends as `Q` says.
  abbrev pub Careful : {A : Type 0} → (A → Mode → Type 0) → Mode → Prog (Reply F) A → Type 0
  Careful Q m (ret a) = Q a m
  Careful Q m (call c k) = May m c × ((r : Reply F c) → Careful Q (next F m c r) (k r))

  -- It ends with a clean cache.
  abbrev pub Tidy : {A : Type 0} → Mode → Prog (Reply F) A → Type 0
  Tidy m p = Careful (λ a m'. IsClean m') m p

  Careful-bind :
      {A B : Type 0} (Q : Result B → Mode → Type 0) (m : Mode) (p : Proc (Reply F) B)
      (f : B → Proc (Reply F) A)
      → Careful Q m p
      → ((b : B) (m' : Mode) → Q (ok b) m' → Tidy m' (f b))
      → ((e : Error) (m' : Mode) → Q (err e) m' → IsClean m')
      → Tidy m (p >>= f)
  Careful-bind Q m (ret (ok b)) f c good bad = good b m c
  Careful-bind Q m (ret (err e)) f c good bad = bad e m c
  Careful-bind Q m (call c k) f (may, later) good bad =
      (may, λ r. Careful-bind Q (next F m c r) (k r) f (later r) good bad)

  pub Tidy-then_do :
      {A B : Type 0} (m : Mode) (p : Prog (Reply F) A) (f : A → B)
      → Tidy m p
      → Tidy m (then_do (λ a. ret (f a)) p)
  Tidy-then_do m (ret a) f c = c
  Tidy-then_do m (call c k) f (may, later) =
      (may, λ r. Tidy-then_do (next F m c r) (k r) f (later r))

  Tidy-cached_set :
      (b : Bool) (o : Order) {A : Type 0} (k : Proc (Reply F) A)
      → Tidy (clean (some o)) k
      → Tidy (clean (some o)) (cached_set b o >> k)
  Tidy-cached_set true o k c = (refl, λ r. c)
  Tidy-cached_set false o k c = c

  Tidy-invalidate :
      (b : Bool) (id : String) {A : Type 0} (k : Proc (Reply F) A)
      → b ≡ true
      → Tidy (clean none) k
      → Tidy (stale id) (cached_invalidate b id >> k)
  Tidy-invalidate true id k given c = (refl, λ r. c)
  Tidy-invalidate false id k given c = absurd (ground (arith, given))

  order_from_offer-Tidy :
      (s : Service) (req : CreateOrderRequest) (offer : Offer)
      → Tidy (clean none) (order_from_offer s req offer)
  unfolding order_from_offer order_of_row row_of_order initial_amount new_order
  order_from_offer-Tidy s req offer = (
    tt,
    λ t. elim (Bool-cases (ltb offer.expires_at t)) [
      | inl e ↦ rw e tt
      | inr e ↦ rw e (elim (Bool-cases (offer.user_id == req.user_id)) [
        | inl e' ↦ rw e' (
          tt,
          elim [
            | err x ↦ tt
            | ok false ↦ tt
            | ok true ↦ (
              tt,
              elim [
                | err x ↦ tt
                | ok resp ↦ elim (Bool-cases resp.success) [
                  | inl granted ↦ rw granted (
                    tt,
                    λ start. (
                      λ now. refl,
                      elim [ err x ↦ (tt, λ r. tt) | ok u ↦ Tidy-cached_set s.cache _ _ tt ],
                    ),
                  )
                  | inr refused ↦ rw refused tt
                ]
              ],
            )
          ],
        )
        | inr e' ↦ rw e' tt
      ])
    ],
  )

  pub create_order-Tidy :
      (s : Service) (req : CreateOrderRequest) → Tidy (clean none) (create_order s req)
  unfolding create_order
  create_order-Tidy s req = elim (Bool-cases (req.order_id == "")) [
    | inl e ↦ rw e tt
    | inr e ↦ rw e (
      tt,
      elim [
        | err x ↦ tt
        | ok (some o) ↦ tt
        | ok none ↦ (
          tt,
          elim [ err x ↦ tt | ok none ↦ tt | ok (some offer) ↦ order_from_offer-Tidy s req offer ],
        )
      ],
    )
  ]

  load_order-Tidy : (s : Service) (id : String) → Tidy (clean none) (load_order s id)
  unfolding load_order
  load_order-Tidy s id =
      (tt, elim [ err x ↦ tt | ok none ↦ tt | ok (some o) ↦ Tidy-cached_set s.cache o _ tt ])

  flight_order-Tidy : (s : Service) (id : String) → Tidy (clean none) (flight_order s id)
  unfolding flight_order
  flight_order-Tidy s id = (tt, elim [ none ↦ load_order-Tidy s id | some r ↦ tt ])

  pub get_order-Tidy : (s : Service) (id : String) → Tidy (clean none) (get_order s id)
  unfolding get_order
  get_order-Tidy s id = elim (Bool-cases (id == "")) [
    | inl e ↦ rw e tt
    | inr e ↦ elim (Bool-cases s.cache) [
      | inl with_cache ↦
          rw (e, with_cache)
            (
              tt,
              elim [
                | ok (some o) ↦ tt
                | ok none ↦ flight_order-Tidy s id
                | err x ↦ flight_order-Tidy s id
              ],
            )
      | inr without ↦ rw (e, without) (flight_order-Tidy s id)
    ]
  ]

  ride_threshold-Careful :
      (b : Bool) (m : Option Order) → Careful (λ r m'. m' ≡ clean m) (clean m) (ride_threshold b)
  unfolding ride_threshold
  ride_threshold-Careful false m = refl
  ride_threshold-Careful true m =
      (tt, elim [ ok (some cfg) ↦ refl | ok none ↦ refl | err e ↦ refl ])

  settle-Careful :
      (id : String) (total : ℤ) (m : Option Order)
      → Careful (λ r m'. m' ≡ clean m) (clean m) (settle id total)
  unfolding settle
  settle-Careful id total m = (tt, elim [ err e ↦ refl | ok u ↦ (tt, λ r. refl) ])

  record_ride-Tidy :
      (s : Service) (a : FinishArgs) (m : Option Order)
      → s.cache ≡ true
      → Tidy (clean m) (record_ride s a)
  unfolding record_ride
  record_ride-Tidy s a m with_cache = (
    tt,
    elim [
      | err x ↦ tt
      | ok u ↦
          Tidy-invalidate s.cache a.order_id _ with_cache
            (tt, elim [ err x ↦ tt | ok none ↦ tt | ok (some o) ↦ Tidy-cached_set s.cache o _ tt ])
    ],
  )

  finish_active-Tidy :
      (s : Service) (id : String) (order : Order) (m : Option Order)
      → s.cache ≡ true
      → Tidy (clean m) (finish_active s id order)
  unfolding finish_active
  finish_active-Tidy s id order m with_cache = (
    tt,
    λ t.
        Careful-bind (λ r m'. m' ≡ clean m) (clean m) (ride_threshold s.configs_provider) _
          (ride_threshold-Careful s.configs_provider m)
          (λ threshold m' same. rw same (
            Careful-bind (λ r m''. m'' ≡ clean m) (clean m) (settle id _) _ (settle-Careful id _ m)
              (λ settled m'' same'. rw same' (record_ride-Tidy s _ m with_cache))
              (λ e m'' same'. rw same' tt)))
          (λ e m' same. rw same tt),
  )

  returned-Tidy : (m : Mode) (p : Proc (Reply F) (Option Order)) → Tidy m p → Tidy m (returned p)
  returned-Tidy m (ret (ok o)) c = c
  returned-Tidy m (ret (err e)) c = c
  returned-Tidy m (call c k) (may, later) = (may, λ r. returned-Tidy (next F m c r) (k r) (later r))

  pub finish_order-Tidy :
      (s : Service) (id : String) → s.cache ≡ true → Tidy (clean none) (finish_order s id)
  unfolding finish_order
  finish_order-Tidy s id with_cache = (
    tt,
    elim [
      | err e ↦ tt
      | ok none ↦ tt
      | ok (some order) ↦ elim (Bool-cases (is_active order.status)) [
        | inl e ↦ rw e (
            returned-Tidy (clean (some order)) (finish_active s id order)
              (finish_active-Tidy s id order (some order) with_cache))
        | inr e ↦ rw e tt
      ]
    ],
  )
