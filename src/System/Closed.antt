-- ===== src/System/Closed.antt =====
-- A finished order in the whole service: it stays closed, and it is never charged again.
use system_design_homework.Prelude.{
  ℕ, String, ◌≡◌, refl, inl, inr, Bool-cases, true, Option, none, some, is_some, List, map, arith,
}
use system_design_homework.Prelude.Int.{ℤ}
use system_design_homework.Result.{Result, ok, err, is_ok, context}
use system_design_homework.Program.{Proc, ret, call, run, ◌>>=◌}
use system_design_homework.Program.After.{
  After, After-run, After-bind, After-call, After-keeps, After-mono,
}
use system_design_homework.Program.Threads.{interleave}
use system_design_homework.Program.Steps.{interleave-rule, After-rule}
use system_design_homework.Api.{Time, Order}
use system_design_homework.Orders.Calls.{Call, Reply, FinishArgs}
use system_design_homework.Orders.Values.{is_active, ride_seconds, ride_total}
use system_design_homework.Orders.Service.{
  Service, Returned, returned, ride_threshold, settle, reloaded, record_ride, finish_active,
  finish_found, finish_order,
}
use system_design_homework.Orders.Steps.{Lawful, finish_args-Lawful, record_ride-Within}
use system_design_homework.Postgres.Server.Shut.{
  Shut, Shut-read, IsInactive, create_order-Shut, finish_order-Shut, finish_order-closes,
  finish_order-idle, get_order_by_id-reads,
}
use system_design_homework.Postgres.Server.{serve}
use system_design_homework.Postgres.Server.Create.{create_order_atomic}
use system_design_homework.Redis.Calls.{Command, Reply as RedisReply}
use system_design_homework.External.Client.{Request, Reply as HttpReply}
use system_design_homework.Handler.Pool.{Request as Asked, handle, pool-AllWithin}
use system_design_homework.System.{World, answer}

module _ {F : Type 0} (to_int : F → ℤ) (surge discount : F) (at_rest tick : Time → Time)
    {R P : Type 0} (h : (c : Command) → R → RedisReply c × R)
    (e : (c : Request) → P → HttpReply F c × P) where
  abbrev system : (c : Call) → World R P → Reply F c × World R P
  system = answer to_int surge discount at_rest tick h e

  -- The order is stored, and is not active.
  abbrev pub Closed : String → World R P → Type 0
  Closed id w = Shut id w.db

  answer-Closed :
      (id : String) (c : Call) (w : World R P) → Lawful c → Closed id w → Closed id (system c w).1
  unfolding answer run serve
  answer-Closed id Call.now w lawful shut = shut
  answer-Closed id (Call.get_order_by_id id') w lawful shut =
      let out = get_order_by_id-reads at_rest tick id' w.db in rw (out.1, out.2) shut
  answer-Closed id (Call.create_order order tx) w lawful shut =
      create_order-Shut at_rest tick id order tx w.db shut
  answer-Closed id (Call.finish_order a) w lawful shut =
      finish_order-Shut at_rest tick id a w.db lawful shut
  answer-Closed id (Call.get_offer id') w lawful shut = shut
  answer-Closed id (Call.mark_offer_as_used id') w lawful shut = shut
  answer-Closed id (Call.hold_money req) w lawful shut = shut
  answer-Closed id (Call.unhold_money id') w lawful shut = shut
  answer-Closed id (Call.charge_money id' amount) w lawful shut = shut
  answer-Closed id (Call.cache_get id') w lawful shut = shut
  answer-Closed id (Call.cache_set order ttl) w lawful shut = shut
  answer-Closed id (Call.cache_invalidate id') w lawful shut = shut
  answer-Closed id Call.get_configs w lawful shut = shut
  answer-Closed id (Call.single_flight id') w lawful shut = shut

  -- However the calls of any requests are interleaved and whatever fails, a closed order stays
  -- closed.
  requests-Closed :
      (id : String) (s : Service) (reqs : List Asked) (is : List ℕ) (w : World R P)
      → Closed id w
      → Closed id (interleave system is (map (handle s) reqs) w).1
  requests-Closed id s reqs is w shut =
      interleave-rule Lawful system (Closed id) (answer-Closed id) 9 is (map (handle s) reqs) w
        (pool-AllWithin F s reqs) shut

  abbrev Idle : World R P → Type 0
  Idle w = w.db.pending ≡ none

  answer-Idle : (c : Call) (w : World R P) → Idle w → Idle (system c w).1
  unfolding answer run serve
  answer-Idle Call.now w idle = idle
  answer-Idle (Call.get_order_by_id id) w idle =
      rw (get_order_by_id-reads at_rest tick id w.db).2 idle
  answer-Idle (Call.create_order order tx) w idle =
      (create_order_atomic at_rest tick order tx w.db idle).0
  answer-Idle (Call.finish_order a) w idle = finish_order-idle at_rest tick a w.db idle
  answer-Idle (Call.get_offer id) w idle = idle
  answer-Idle (Call.mark_offer_as_used id) w idle = idle
  answer-Idle (Call.hold_money req) w idle = idle
  answer-Idle (Call.unhold_money id) w idle = idle
  answer-Idle (Call.charge_money id amount) w idle = idle
  answer-Idle (Call.cache_get id) w idle = idle
  answer-Idle (Call.cache_set order ttl) w idle = idle
  answer-Idle (Call.cache_invalidate id) w idle = idle
  answer-Idle Call.get_configs w idle = idle
  answer-Idle (Call.single_flight id) w idle = idle

  -- What a result means for the order: behind a success it is closed.
  abbrev Closes : {A : Type 0} → String → Result A → World R P → Type 0
  Closes id r w = is_ok r ≡ true → Closed id w

  record_ride-Closes :
      (s : Service) (a : FinishArgs) (w : World R P)
      → Lawful (Call.finish_order a)
      → Idle w
      → After system (Closes a.order_id) (record_ride s a) w
  unfolding record_ride answer
  record_ride-Closes s a w lawful idle =
      After-call system (Closes a.order_id) (Call.finish_order a)
        (λ r. ret (context "failed to finish order" r) >>= λ x. reloaded s a.order_id) w
        (elim [
          | err x ↦ λ same done. absurd (ground arith)
          | ok u ↦ λ same.
              let shut =
                finish_order-closes at_rest tick a w.db idle lawful (ground (arith, same)) in
              let w1 = (system (Call.finish_order a) w).1 in
              After-mono system (λ r w'. Closed a.order_id w') (Closes a.order_id)
                (reloaded s a.order_id) w1 (λ r w' kept done. kept)
                (After-rule Lawful system (Closed a.order_id) (answer-Closed a.order_id) 3
                  (reloaded s a.order_id) w1 ((record_ride-Within F s a lawful).1 (ok u)) shut)
        ])

  finish_active-Closes :
      (s : Service) (id : String) (order : Order) (w : World R P)
      → Idle w
      → After system (Closes id) (finish_active s id order) w
  unfolding finish_active
  finish_active-Closes s id order w idle =
      let t = (system Call.now w).0 in
      let w1 = (system Call.now w).1 in
      After-bind system (λ r w'. Idle w') (Closes id) (ride_threshold s.configs_provider) _ w1
        (After-keeps system Idle answer-Idle (ride_threshold s.configs_provider) w1
          (answer-Idle Call.now w idle))
        (λ threshold w2 idle2.
          After-bind system (λ r w'. Idle w') (Closes id)
            (settle id (ride_total order threshold (ride_seconds order.start_time t))) _ w2
            (After-keeps system Idle answer-Idle
              (settle id (ride_total order threshold (ride_seconds order.start_time t))) w2 idle2)
            (λ settled w3 idle3.
              record_ride-Closes s _ w3
                (finish_args-Lawful id t (ride_seconds order.start_time t)
                  (ride_total order threshold (ride_seconds order.start_time t)) settled)
                idle3)
            (λ x w3 idle3 done. absurd (ground arith)))
        (λ x w2 idle2 done. absurd (ground arith))

  -- A pair that holds no error closes the order.
  abbrev PairCloses : String → Returned → World R P → Type 0
  PairCloses id out w = out.1 ≡ none → Closed id w

  returned-Closes :
      (id : String) (p : Proc (Reply F) (Option Order)) (w : World R P)
      → After system (Closes id) p w
      → After system (PairCloses id) (returned p) w
  returned-Closes id (ret (ok o)) w f = λ none_there. f refl
  returned-Closes id (ret (err x)) w f = λ none_there. absurd (ground arith)
  returned-Closes id (call c k) w f = returned-Closes id (k (system c w).0) (system c w).1 f

  finish_order-Closes :
      (s : Service) (id : String) (w : World R P)
      → Idle w
      → After system (PairCloses id) (finish_order s id) w
  unfolding finish_order
  finish_order-Closes s id w idle =
      let w1 = (system (Call.get_order_by_id id) w).1 in
      let idle1 = answer-Idle (Call.get_order_by_id id) w idle in
      After-call system (PairCloses id) (Call.get_order_by_id id) (finish_found s id) w (elim [
        | err x ↦ λ same none_there. absurd (ground arith)
        | ok none ↦ λ same none_there. absurd (ground arith)
        | ok (some order) ↦ λ same. elim (Bool-cases (is_active order.status)) [
          | inl on ↦ rw on (
              returned-Closes id (finish_active s id order) w1
                (finish_active-Closes s id order w1 idle1))
          | inr off ↦ rw off (λ none_there. absurd (ground arith))
        ]
      ])

  -- The order is refused, and the external service is not called.
  abbrev Refused : P → Returned → World R P → Type 0
  Refused p out w = (is_some out.1 ≡ true) × (w.external ≡ p)

  found-Refused :
      (s : Service) (id : String) (found : Result (Option Order)) (w : World R P)
      → IsInactive found
      → After system (Refused w.external) (finish_found s id found) w
  found-Refused s id (err x) w off = (refl, refl)
  found-Refused s id (ok none) w off = absurd off
  found-Refused s id (ok (some order)) w off = rw off (refl, refl)

  finish_order-Refused :
      (s : Service) (id : String) (w : World R P)
      → Closed id w
      → After system (Refused w.external) (finish_order s id) w
  unfolding finish_order answer run
  finish_order-Refused s id w shut =
      found-Refused s id (system (Call.get_order_by_id id) w).0
        (system (Call.get_order_by_id id) w).1 (Shut-read at_rest tick id w.db shut)

  -- Behind a `FinishOrder` that returned no error, and whatever requests to create, read and finish
  -- orders are then handled, with their calls in any order and any statement, command or external
  -- request failing: a `FinishOrder` of the same order returns an error and does not call the
  -- external service, so the order is not charged again. It is assumed that no transaction is open
  -- at the start.
  pub finish_order-once :
      (s : Service) (id : String) (reqs : List Asked) (is : List ℕ) (w : World R P)
      → w.db.pending ≡ none
      → let first = run system (finish_order s id) w in
        let between = (interleave system is (map (handle s) reqs) first.1).1 in
        let again = run system (finish_order s id) between in
        first.0.1 ≡ none → (is_some again.0.1 ≡ true) × (again.1.external ≡ between.external)
  finish_order-once s id reqs is w idle done =
      let shut =
        After-run system (PairCloses id) (finish_order s id) w (finish_order-Closes s id w idle)
          done in
      let between =
        (interleave system is (map (handle s) reqs) (run system (finish_order s id) w).1).1 in
      After-run system (Refused between.external) (finish_order s id) between
        (finish_order-Refused s id between (requests-Closed id s reqs is _ shut))
