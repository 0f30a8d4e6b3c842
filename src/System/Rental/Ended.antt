-- ===== src/System/Rental/Ended.antt =====
-- `FinishOrder` of an undisturbed rental.
use mathlib.Core.Option
use Prim.Native.String.{◌++◌, count}
use system_design_homework.Prelude.{String, ◌≡◌, refl, true, false, none, some, ◌∙◌, ◌≤◌, ap, arith}
use system_design_homework.Prelude.Int.{ℤ}
use system_design_homework.Result.{Result, ok}
use system_design_homework.Program.{run}
use system_design_homework.Api.{Time, active}
use system_design_homework.External.Client.{configs_of}
use system_design_homework.Mock.{Storage, serve}
use system_design_homework.Orders.Calls.{Call, Reply, FinishArgs}
use system_design_homework.Orders.Values.{
  finish_args, ride_seconds, ride_total, order_ttl, is_active,
}
use system_design_homework.Orders.Service.{
  finish_order, finish_active, ride_threshold, settle, record_ride,
}
use system_design_homework.Redis.Calls.{Command, Reply as RedisReply}
use system_design_homework.Redis.Server.{IsRedis}
use system_design_homework.Redis.OrderCache.{set_order, invalidate}
use system_design_homework.Postgres.Tables.{
  Tables, OrderRow, find_order, has_payment, is_integer, is_varchar, fits_payment,
}
use system_design_homework.Postgres.Lengths.{prefixed-is_varchar, short-is_varchar}
use system_design_homework.Postgres.OrderRepository.{clear_row, refund_row, order_of_row, scanned}
use system_design_homework.Postgres.Server.{updated}
use system_design_homework.Postgres.Server.Finish.{with_finish, update_of, find-update}
use system_design_homework.System.{World, answer, main_service}
use system_design_homework.System.Rental.{Works, calm, step, run-ret}
use system_design_homework.System.Rental.Calls.{
  now-calm, read-calm, configs-calm, charge-calm, unhold-calm, finish-calm, invalidate-calm,
  cache_set-calm,
}

status_of_row : (row : OrderRow) → (order_of_row row).status ≡ row.status
unfolding order_of_row
status_of_row row = refl

module _ {F : Type 0} (to_int : F → ℤ) (surge discount : F) (at_rest tick : Time → Time)
    {R : Type 0} (h : (c : Command) → R → RedisReply c × R) (r : IsRedis h) (works : Works h r)
    (shelf : Storage F) (id : String) where
  abbrev system : (c : Call) → World R (Storage F) → Reply F c × World R (Storage F)
  system = answer to_int surge discount at_rest tick h serve

  -- The threshold that the stand-in service has, in seconds, or 5.
  abbrev pub threshold : ℤ
  threshold = (configs_of to_int surge discount shelf.configs).incomplete_ride_threshold_seconds

  module _ (row : OrderRow) (clock : Time) where
    abbrev pub seconds : ℤ
    seconds = ride_seconds row.start_time clock

    abbrev pub total : ℤ
    total = ride_total (order_of_row row) threshold seconds

    abbrev pub ending : FinishArgs
    ending = finish_args id clock seconds total (true, true)

    -- The row of the order behind its ride.
    abbrev pub ended_row : OrderRow
    ended_row = updated at_rest (update_of ending (tick clock)) row

    -- The order is under way and has no payments of an end, and the amounts and
    -- texts fit their columns.
    pub record Rides (t : Tables) : Type 0 where
      pub found : find_order id t.orders ≡ some row
      pub under_way : row.status ≡ active
      pub total_fits : is_integer total ≡ true
      pub seconds_fit : is_integer seconds ≡ true
      pub deposit_fits : is_integer row.deposit ≡ true
      pub user_fits : is_varchar row.user_id ≡ true
      pub id_short : count id ≤ 244
      pub no_clear : has_payment ("txn-clear-" ++ id) t.payments ≡ false
      pub no_refund : has_payment ("txn-refund-" ++ id) t.payments ≡ false

    clears :
        (t : Tables) → Rides t → fits_payment (clear_row ending row.user_id (tick clock)) ≡ true
    unfolding fits_payment clear_row
    clears t rides =
        let whole = short-is_varchar id rides.id_short in
        let tx = prefixed-is_varchar "txn-clear-" id (omega arith) rides.id_short in
        let none_given = short-is_varchar "" (omega arith) in
        ground (arith, rides.user_fits, rides.total_fits)

    refunds :
        (t : Tables)
        → Rides t
        → fits_payment (refund_row ending row.user_id row.deposit (tick clock)) ≡ true
    unfolding fits_payment refund_row
    refunds t rides =
        let whole = short-is_varchar id rides.id_short in
        let tx = prefixed-is_varchar "txn-refund-" id (omega arith) rides.id_short in
        let none_given = short-is_varchar "" (omega arith) in
        ground (arith, rides.user_fits, rides.deposit_fits)

    module _ (t : Tables) (redis : R) (rides : Rides t) where
      abbrev after : Tables
      after = with_finish at_rest ending row (tick clock) t

      reread : find_order id after.orders ≡ some ended_row
      reread =
          find-update at_rest ending (tick clock) id t.orders
          ∙ ap (Option.map (updated at_rest (update_of ending (tick clock)))) rides.found

      abbrev dropped : Result (Unit {0}) × R
      dropped = run h (invalidate true id) redis

      abbrev last : Result (Unit {0}) × R
      last = run h (set_order true (some (order_of_row ended_row)) order_ttl) dropped.1

      -- A ride that is under way is charged, and its order closed.
      pub finish_order-Ended :
          run system (finish_order main_service id) (calm t clock redis shelf)
          ≡ ((some (order_of_row ended_row), none), calm after (tick (tick clock)) last.1 shelf)
      unfolding finish_order finish_active ride_threshold settle record_ride main_service
          order_of_row
      finish_order-Ended =
          let at_read =
            read-calm to_int surge discount at_rest tick h r works t clock redis shelf id in
          let at_now = now-calm to_int surge discount at_rest tick h r works t clock redis shelf in
          let at_configs =
            configs-calm to_int surge discount at_rest tick h r works t (tick clock) redis shelf in
          let at_charge =
            charge-calm to_int surge discount at_rest tick h r works t (tick clock) redis shelf id
              total in
          let at_unhold =
            unhold-calm to_int surge discount at_rest tick h r works t (tick clock) redis shelf
              id in
          let at_finish =
            finish-calm to_int surge discount at_rest tick h r works t (tick clock) redis shelf
              ending row rides.found rides.total_fits rides.seconds_fit (clears t rides)
              (refunds t rides) rides.no_clear rides.no_refund in
          let at_drop =
            invalidate-calm to_int surge discount at_rest tick h r works after (tick (tick clock))
              redis shelf id in
          let at_reload =
            read-calm to_int surge discount at_rest tick h r works after (tick (tick clock))
              dropped.1 shelf id in
          let at_cache =
            cache_set-calm to_int surge discount at_rest tick h r works after (tick (tick clock))
              dropped.1 shelf (order_of_row ended_row) order_ttl in
          let active_row : is_active (order_of_row row).status ≡ true =
            ap is_active (status_of_row row) ∙ ap is_active rides.under_way in
          step system (Call.get_order_by_id id) _ _ (ok (some (order_of_row row))) _ _
            (at_read ∙ ap (λ o. (ok (scanned o), calm t clock redis shelf)) rides.found)
            (rw active_row (
              step system Call.now _ _ clock _ _ at_now (
                step system Call.get_configs _ _ _ _ _ at_configs (
                  step system (Call.charge_money id total) _ _ (ok tt) _ _ at_charge (
                    step system (Call.unhold_money id) _ _ (ok tt) _ _ at_unhold (
                      step system (Call.finish_order ending) _ _ (ok tt) _ _ at_finish (
                        step system (Call.cache_invalidate id) _ _ dropped.0 _ _ at_drop (
                          step system (Call.get_order_by_id id) _ _
                            (ok (some (order_of_row ended_row))) _ _
                            (at_reload
                              ∙ ap
                                  (λ o. (
                                    ok (scanned o),
                                    calm after (tick (tick clock)) dropped.1 shelf,
                                  ))
                                  reread)
                            (step system (Call.cache_set _ _) _ _ last.0 _ _ at_cache
                              (run-ret system _ _))))))))))
