-- ===== src/System/Rental/Completes.antt =====
-- An undisturbed rental from its order to its end, as the client sees it.
use Prim.Native.String.{◌++◌, count}
use text.Mathlib.TextLemmas.{append_assoc, append_cancel_left, length-append}
use system_design_homework.Prelude.{
  String, ◌≡◌, refl, ap, ◌∙◌, true, false, some, List, ◌∷◌, arith, ◌==◌, eq_iff, eq_refl,
  Bool-cases, inl, inr, ◌<◌, ◌≤◌, subst,
}
use system_design_homework.Prelude.Int.{ℤ}
use system_design_homework.Result.{ok}
use system_design_homework.Program.{run}
use system_design_homework.Api.{Time, Order, Offer, active, finished}
use system_design_homework.External.Client.{configs_of}
use system_design_homework.Mock.{Storage, serve}
use system_design_homework.Orders.Calls.{Call, Reply}
use system_design_homework.Orders.Values.{CreateOrderRequest, new_order, ride_seconds, ride_total}
use system_design_homework.Orders.Service.{create_order, finish_order}
use system_design_homework.Handler.{order}
use system_design_homework.Handler.Orders.{
  post_orders, post_orders_order_id_finish, created, finished as ended,
}
use system_design_homework.Redis.Calls.{Command, Reply as RedisReply}
use system_design_homework.Redis.Server.{IsRedis}
use system_design_homework.Postgres.Tables.{
  Tables, OrderRow, PaymentRow, find_order, has_payment, is_integer, is_varchar,
}
use system_design_homework.Postgres.OrderRepository.{
  row_of_order, hold_row, order_of_row, initial_amount,
}
use system_design_homework.Postgres.Server.{kept_order, kept_payment}
use system_design_homework.System.{World, answer, main_service}
use system_design_homework.System.Rental.{Works, calm, run-then_do}
use system_design_homework.System.Rental.Created.{Offered, with_ride, held_as, create_order-Created}
use system_design_homework.System.Rental.Ended.{ended_row, Rides, finish_order-Ended}

-- The HOLD transaction has another id than those of the end.
longer : (more id : String) → 0 < count more → "txn-" ++ id == ("txn-" ++ more) ++ id ≡ false
longer more id long = elim (Bool-cases ("txn-" ++ id == ("txn-" ++ more) ++ id)) [
  | inr e ↦ e
  | inl e ↦
      let same : id ≡ more ++ id =
        append_cancel_left "txn-" id (more ++ id)
          ((eq_iff ("txn-" ++ id) (("txn-" ++ more) ++ id)).0 e ∙ append_assoc "txn-" more id) in
      absurd (omega (arith, ap count same, length-append more id))
]

module _ (at_rest : Time → Time) (order : Order) (tx : String) (now : Time)
    (ps : List PaymentRow) where
  not_held :
      (more : String)
      → 0 < count more
      → has_payment (("txn-" ++ more) ++ order.id) ps ≡ false
      → has_payment
          (("txn-" ++ more) ++ order.id)
          (kept_payment at_rest (hold_row order tx now) ∷ ps)
        ≡ false
  unfolding has_payment hold_row
  not_held more long free = rw (longer more order.id long) free

module _ {F : Type 0} (to_int : F → ℤ) (surge discount : F) (at_rest tick : Time → Time)
    {R : Type 0} (h : (c : Command) → R → RedisReply c × R) (r : IsRedis h) (works : Works h r)
    (shelf : Storage F) (req : CreateOrderRequest) (offer : Offer) (clock later : Time) where
  abbrev system : (c : Call) → World R (Storage F) → Reply F c × World R (Storage F)
  system = answer to_int surge discount at_rest tick h serve

  -- The new order, and the row that holds it.
  abbrev pub started : Order
  started = new_order req offer (tick clock)

  abbrev row : OrderRow
  row = kept_order at_rest (row_of_order started (tick (tick clock)))

  -- The length of the ride in seconds, and its price.
  abbrev pub ridden : ℤ
  ridden = ride_seconds (at_rest (tick clock)) later

  abbrev pub price : ℤ
  price =
      ride_total started
        (configs_of to_int surge discount shelf.configs).incomplete_ride_threshold_seconds ridden

  -- The order behind its ride.
  abbrev pub closed : Order
  closed = record started {
    current_amount = some price;
    duration_seconds = some ridden;
    finish_time = some (at_rest later);
    start_time = at_rest (tick clock);
    status = finished;
  }

  is_started : row.status ≡ active
  unfolding row_of_order new_order
  is_started = refl

  is_first : (t : Tables) → find_order req.order_id (row ∷ t.orders) ≡ some row
  unfolding find_order row_of_order new_order
  is_first t = rw (eq_refl req.order_id) refl

  is_closed :
      order_of_row
        (ended_row to_int surge discount at_rest tick h r works shelf req.order_id row later)
      ≡ closed
  unfolding order_of_row row_of_order new_order initial_amount ride_total
  is_closed = refl

  rides :
      (t : Tables)
      → is_integer price ≡ true
      → is_integer ridden ≡ true
      → is_integer offer.deposit ≡ true
      → is_varchar req.user_id ≡ true
      → count req.order_id ≤ 244
      → has_payment ("txn-clear-" ++ req.order_id) t.payments ≡ false
      → has_payment ("txn-refund-" ++ req.order_id) t.payments ≡ false
      → Rides to_int surge discount at_rest tick h r works shelf req.order_id row later
          (with_ride to_int surge discount at_rest tick h r works shelf req offer t clock)
  unfolding order_of_row row_of_order new_order initial_amount ride_total
  rides t price_fits ridden_fits deposit_fits user_fits id_short no_clear no_refund = record {
    found = is_first t;
    under_way = is_started;
    total_fits = price_fits;
    seconds_fit = ridden_fits;
    deposit_fits = deposit_fits;
    user_fits = user_fits;
    id_short = id_short;
    no_clear =
        not_held at_rest started (held_as req.order_id) (tick (tick clock)) t.payments "clear-"
          (omega arith) no_clear;
    no_refund =
        not_held at_rest started (held_as req.order_id) (tick (tick clock)) t.payments "refund-"
          (omega arith) no_refund;
  }

  -- A rental that nothing disturbs completes: the service as `main` wires it, with the stand-in
  -- service of external/, where no statement, command or request fails, no entry of Redis expires
  -- amounts fit INTEGER columns and texts VARCHAR(255) columns, the id of the order with room for
  -- 11 more characters.
  -- The order of a new id for an offer that Redis has for the user, and that has not expired and is
  -- not used, is answered with 201 and the order. If that order is finished at any later time, from
  -- any contents of Redis, the answer is 200 and the closed order with the length of the ride and
  -- its price, as long as the order has no CLEAR and no REFUND transaction yet.
  pub rental-Completes :
      (t : Tables) (redis redis2 : R)
      → req.offer_id == "" ≡ false
      → req.user_id == "" ≡ false
      → Offered to_int surge discount at_rest tick h r works shelf req offer t clock redis
      → is_integer price ≡ true
      → is_integer ridden ≡ true
      → has_payment ("txn-clear-" ++ req.order_id) t.payments ≡ false
      → has_payment ("txn-refund-" ++ req.order_id) t.payments ≡ false
      → let ride = with_ride to_int surge discount at_rest tick h r works shelf req offer t clock in
        let start = run system (post_orders main_service (ok req)) (calm t clock redis shelf) in
        let stop =
          run system
            (post_orders_order_id_finish main_service req.order_id)
            (calm ride later redis2 shelf) in
        (start.0 ≡ record { status = 201; body = order (some started) })
        × (start.1.db ≡ (calm ride (tick (tick (tick clock))) redis shelf).db)
        × (stop.0 ≡ record { status = 200; body = order (some closed) })
  unfolding post_orders post_orders_order_id_finish
  rental-Completes t redis redis2 offer_named user_named o price_fits ridden_fits no_clear
        no_refund =
      let (redis1, begun) =
        create_order-Created to_int surge discount at_rest tick h r works shelf req offer t clock
          redis o in
      let start =
        run-then_do system created (create_order main_service req) (calm t clock redis shelf) _ _
          begun in
      let stop = run-then_do system ended (finish_order main_service req.order_id) _ _ _ (
        finish_order-Ended to_int surge discount at_rest tick h r works shelf req.order_id row later
          (with_ride to_int surge discount at_rest tick h r works shelf req offer t clock) redis2
          (rides t price_fits ridden_fits o.fits.2
            (subst (λ u. is_varchar u ≡ true) ((eq_iff offer.user_id req.user_id).0 o.owned)
              o.fits.3)
            o.id_short no_clear no_refund)) in
      rw (o.named, offer_named, user_named)
        (
          ap (λ out. out.0) start,
          ap (λ out. out.1.db) start,
          ap (λ out. out.0) stop
              ∙ ap (λ c. record { status = 200; body = order (some c) }) is_closed,
        )
