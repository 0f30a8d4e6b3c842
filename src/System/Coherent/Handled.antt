-- ===== src/System/Coherent/Handled.antt =====
-- Requests that are handled one after the other keep the cache coherent.
use system_design_homework.Prelude.{◌≡◌, inl, inr, Bool-cases, true, none, List, [], ◌∷◌, ◌==◌}
use system_design_homework.Prelude.Int.{ℤ}
use system_design_homework.Result.{ok, err}
use system_design_homework.Program.{Prog, ret, call, run}
use system_design_homework.Api.{Time}
use system_design_homework.Orders.Calls.{Call, Reply}
use system_design_homework.Orders.Service.{Service, get_order, create_order, finish_order}
use system_design_homework.Handler.Orders.{
  post_orders, get_orders_order_id, post_orders_order_id_finish, created, loaded, finished,
}
use system_design_homework.Handler.Pool.{Request as Asked, handle}
use system_design_homework.Redis.Calls.{Command, Reply as RedisReply}
use system_design_homework.Redis.Server.{IsRedis}
use system_design_homework.External.Client.{Request, Reply as HttpReply}
use system_design_homework.System.{World, answer}
use system_design_homework.System.Coherent.{TakesWrites, Settled}
use system_design_homework.System.Coherent.Mode.{Mode, clean, stale, next}
use system_design_homework.System.Coherent.Calls.{Fits, call-Fits}
use system_design_homework.System.Coherent.Methods.{
  Tidy, Tidy-then_do, create_order-Tidy, get_order-Tidy, finish_order-Tidy,
}

handle-Tidy :
    (F : Type 0) (s : Service) (req : Asked) → s.cache ≡ true → Tidy F (clean none) (handle s req)
unfolding post_orders get_orders_order_id post_orders_order_id_finish
handle-Tidy F s (Asked.create (err x)) c = tt
handle-Tidy F s (Asked.create (ok req)) c = elim (Bool-cases (req.order_id == "")) [
  | inl e ↦ rw e tt
  | inr e ↦ rw e (elim (Bool-cases (req.offer_id == "")) [
    | inl e' ↦ rw e' tt
    | inr e' ↦ rw e' (elim (Bool-cases (req.user_id == "")) [
      | inl e'' ↦ rw e'' tt
      | inr e'' ↦
          rw e''
            (Tidy-then_do F (clean none) (create_order s req) created (create_order-Tidy F s req))
    ])
  ])
]
handle-Tidy F s (Asked.read id) c = elim (Bool-cases (id == "")) [
  | inl e ↦ rw e tt
  | inr e ↦ rw e (Tidy-then_do F (clean none) (get_order s id) loaded (get_order-Tidy F s id))
]
handle-Tidy F s (Asked.finish id) c = elim (Bool-cases (id == "")) [
  | inl e ↦ rw e tt
  | inr e ↦
      rw e (Tidy-then_do F (clean none) (finish_order s id) finished (finish_order-Tidy F s id c))
]

module _ {F : Type 0} (to_int : F → ℤ) (surge discount : F) (at_rest tick : Time → Time)
    (idem : (t : Time) → at_rest (at_rest t) ≡ at_rest t) {R P : Type 0}
    (h : (c : Command) → R → RedisReply c × R) (r : IsRedis h) (takes : TakesWrites h)
    (e : (c : Request) → P → HttpReply F c × P) where
  abbrev system : (c : Call) → World R P → Reply F c × World R P
  system = answer to_int surge discount at_rest tick h e

  Tidy-Settled :
      {A : Type 0} (m : Mode) (p : Prog (Reply F) A) (w : World R P)
      → Tidy F m p
      → Fits to_int surge discount at_rest tick idem h r takes e m w
      → Settled at_rest h r (run system p w).1
  unfolding run
  Tidy-Settled (clean known) (ret a) w c fits = fits.0
  Tidy-Settled (stale id) (ret a) w c fits = absurd c
  Tidy-Settled m (call c k) w (may, later) fits =
      Tidy-Settled (next F m c (system c w).0) (k (system c w).0) (system c w).1
        (later (system c w).0)
        (call-Fits to_int surge discount at_rest tick idem h r takes e m c w may fits)

  -- Requests that are handled one after the other.
  abbrev pub handled : Service → List Asked → World R P → World R P
  handled s [] w = w
  handled s (req ∷ reqs) w = handled s reqs (run system (handle s req) w).1

  -- A service with the cache keeps it coherent: if no transaction is open, no database fault is to
  -- come, no write of the cache fails and the cache is coherent, then, behind any requests to
  -- create, read and finish orders that are handled one after the other, this is so again. A time
  -- that a TIMESTAMP column has rounded is not changed by rounding it again.
  pub handled-Settled :
      (s : Service) (reqs : List Asked) (w : World R P)
      → s.cache ≡ true
      → Settled at_rest h r w
      → Settled at_rest h r (handled s reqs w)
  handled-Settled s [] w given settled = settled
  handled-Settled s (req ∷ reqs) w given settled =
      handled-Settled s reqs (run system (handle s req) w).1 given
        (Tidy-Settled (clean none) (handle s req) w (handle-Tidy F s req given) (settled, tt))
