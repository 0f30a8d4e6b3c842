-- ===== src/Orders/Service.antt =====
-- client/internal/domain/orders/service.go: `Service` and its three methods.
use system_design_homework.Prelude.{
  String, Bool, true, false, Option, none, some, ltb, ◌==◌, if◌then◌else◌, not,
}
use system_design_homework.Prelude.Int.{ℤ, pos}
use system_design_homework.Result.{
  Error, Result, ok, err, message, wrapped, is_ok, err_offer_not_found, err_offer_expired,
  err_offer_already_used, err_invalid_user, err_order_not_active, err_no_such_order,
}
use system_design_homework.Program.{
  Prog, Proc, ret, call, ◌>>=◌, ◌>>◌, pure, fail, ask, reply, within,
}
use system_design_homework.Api.{Offer, Order}
use system_design_homework.Orders.Calls.{Call, Reply, FinishArgs}
use system_design_homework.Orders.Values.{
  CreateOrderRequest, order_ttl, new_order, ride_seconds, ride_total, is_active, finish_args,
}

-- Whether the optional collaborators of `NewServiceWithCache` are given (not nil).
pub record Service : Type 0 where
  pub cache : Bool
  pub configs_provider : Bool

-- A pair of Go results; `ErrOrderNotActive` comes with the order.
abbrev pub Returned : Type 0
Returned = Option Order × Option Error

module _ {F : Type 0} where
  -- `if s.cache != nil { _ = s.cache.… }`: an error of the cache is dropped.
  abbrev pub cached_set : Bool → Order → Proc (Reply F) (Unit {0})
  cached_set true order = reply (Call.cache_set order order_ttl) >>= λ _. pure tt
  cached_set false order = pure tt

  abbrev pub cached_invalidate : Bool → String → Proc (Reply F) (Unit {0})
  cached_invalidate true id = reply (Call.cache_invalidate id) >>= λ _. pure tt
  cached_invalidate false id = pure tt

  -- From the offer on: the guards, the mark, the hold.
  unfoldable pub order_from_offer : Service → CreateOrderRequest → Offer → Proc (Reply F) Order
  unfolding new_order
  order_from_offer s req offer = do
    t ← reply Call.now
    if ltb offer.expires_at t
        then fail err_offer_expired
        else if not (offer.user_id == req.user_id)
        then fail err_invalid_user
        else do
          marked ←
              within "failed to mark offer as used" (ask (Call.mark_offer_as_used req.offer_id))
          if not marked then fail err_offer_already_used else do
            held ← within "failed to hold deposit" (
                ask (
                  Call.hold_money (record {
                    user_id = req.user_id;
                    order_id = req.order_id;
                    amount = offer.deposit;
                  })))
            if not held.success then fail (message "payment hold failed") else do
              start ← reply Call.now
              let order = new_order req offer start
              created ← reply (Call.create_order order held.transaction_id)
              elim created [
                | err e ↦ do
                  reply (Call.unhold_money req.order_id)
                  within "failed to create order" (ret (err e))
                | ok _ ↦ do cached_set s.cache order; pure order
              ]

  -- `CreateOrder`
  unfoldable pub create_order : Service → CreateOrderRequest → Proc (Reply F) Order
  unfolding order_from_offer
  create_order s req = if req.order_id == "" then fail (message "order_id is required") else do
    existing ← within "failed to check existing order" (ask (Call.get_order_by_id req.order_id))
    elim existing [
      | some order ↦ pure order
      | none ↦ do
        found ← within "failed to get offer" (ask (Call.get_offer req.offer_id))
        elim found [ none ↦ fail err_offer_not_found | some offer ↦ order_from_offer s req offer ]
    ]

  -- The function that `GetOrder` hands to the single flight.
  unfoldable pub load_order : Service → String → Proc (Reply F) (Option Order)
  load_order s id = do
    found ← within "failed to get order" (ask (Call.get_order_by_id id))
    elim found [ none ↦ pure none | some order ↦ do cached_set s.cache order; pure (some order) ]

  -- Behind the cache: run the function, or take the result of the run that is under way.
  unfoldable pub flight_order : Service → String → Proc (Reply F) (Option Order)
  unfolding load_order
  flight_order s id = do
    shared ← reply (Call.single_flight id)
    elim shared [ none ↦ load_order s id | some result ↦ ret result ]

  -- Behind a read of the cache: its order, or else the flight.
  abbrev pub hit_or :
      Proc (Reply F) (Option Order) → Result (Option Order) → Proc (Reply F) (Option Order)
  hit_or flight (ok (some order)) = pure (some order)
  hit_or flight (ok none) = flight
  hit_or flight (err _) = flight

  -- `GetOrder`
  unfoldable pub get_order : Service → String → Proc (Reply F) (Option Order)
  unfolding flight_order
  get_order s id =
      if id == ""
      then fail (message "order_id is required")
      else if s.cache
      then (do cached ← reply (Call.cache_get id); hit_or (flight_order s id) cached)
      else flight_order s id

  -- `incompleteRideThreshold`: 5, unless the configuration says otherwise.
  unfoldable pub ride_threshold : Bool → Proc (Reply F) ℤ
  ride_threshold false = pure (pos 5)
  ride_threshold true = do
    configs ← reply Call.get_configs
    elim configs [
      | ok (some cfg) ↦ pure cfg.incomplete_ride_threshold_seconds
      | ok none ↦ pure (pos 5)
      | err _ ↦ pure (pos 5)
    ]

  -- The deposit is released only after a charge that went through.
  unfoldable pub settle : String → ℤ → Proc (Reply F) (Bool × Bool)
  settle id total = do
    charged ← reply (Call.charge_money id total)
    if is_ok charged
        then (do released ← reply (Call.unhold_money id); pure (true, is_ok released))
        else pure (false, false)

  -- Drop the cached order, and reload it.
  abbrev pub reloaded : Service → String → Proc (Reply F) (Option Order)
  reloaded s id = do
    cached_invalidate s.cache id
    updated ← within "failed to reload order" (ask (Call.get_order_by_id id))
    elim updated [ none ↦ pure none | some after ↦ do cached_set s.cache after; pure (some after) ]

  -- Behind the charge: store the end of the ride, and reload the order.
  unfoldable pub record_ride : Service → FinishArgs → Proc (Reply F) (Option Order)
  record_ride s a = do
    within "failed to finish order" (ask (Call.finish_order a))
    reloaded s a.order_id

  -- From the guards of `FinishOrder` on.
  unfoldable pub finish_active : Service → String → Order → Proc (Reply F) (Option Order)
  finish_active s id order = do
    t ← reply Call.now
    let seconds = ride_seconds order.start_time t
    threshold ← ride_threshold s.configs_provider
    let total = ride_total order threshold seconds
    settled ← settle id total
    record_ride s (finish_args id t seconds total settled)

  abbrev pub returned : Prog (Reply F) (Result (Option Order)) → Prog (Reply F) Returned
  returned (ret (ok order)) = ret (order, none)
  returned (ret (err e)) = ret (none, some e)
  returned (call c k) = call c (λ r. returned (k r))

  -- `FinishOrder`, from what the repository finds.
  abbrev pub finish_found : Service → String → Result (Option Order) → Prog (Reply F) Returned
  finish_found s id (err e) = ret (none, some (wrapped "failed to get order" e))
  finish_found s id (ok none) = ret (none, some err_no_such_order)
  finish_found s id (ok (some order)) =
      if is_active order.status
      then returned (finish_active s id order)
      else ret (some order, some err_order_not_active)

  -- `FinishOrder`
  unfoldable pub finish_order : Service → String → Prog (Reply F) Returned
  finish_order s id = call (Call.get_order_by_id id) (finish_found s id)
