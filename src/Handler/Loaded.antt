-- ===== src/Handler/Loaded.antt =====
-- `GetOrdersOrderId` against every environment.
use system_design_homework.Prelude.{
  ◌≡◌, refl, ◌⊎◌, inl, inr, Bool, Bool-cases, ◌==◌, String, true, false, Option, none, some, List,
  [],
}
use system_design_homework.Result.{Error, Result, ok, err}
use system_design_homework.Program.{run, watch}
use system_design_homework.Program.Every.{Every, Every-run, Every-then_do, Every-mono, Every-and}
use system_design_homework.Api.{Order}
use system_design_homework.Orders.Calls.{Call, Reply}
use system_design_homework.Orders.Service.{Service, get_order}
use system_design_homework.Orders.Read.{
  ReadEvent, note, Served, is_empty, get_order-Every, get_order-asked,
}
use system_design_homework.Handler.{Response, order}
use system_design_homework.Handler.Orders.{loaded, get_orders_order_id}

-- The response to a request, with the events; the flag tells whether there is a cache.
abbrev pub Answers : Bool → String → Response → List ReadEvent → Type 0
Answers b id resp es =
    ((resp.status ≡ 200)
      × ((o : Order) × ((resp.body ≡ order (some o)) × Served b id (ok (some o)) es)))
    ⊎ (((resp.status ≡ 404) × Served b id (ok none) es)
        ⊎ (((resp.status ≡ 500) × ((is_empty es ≡ false) × ((x : Error) × Served b id (err x) es)))
            ⊎ ((resp.status ≡ 400) × ((id == "" ≡ true) × (es ≡ [])))))

answered :
    (b : Bool) (id : String) (r : Result (Option Order)) (es : List ReadEvent)
    → Served b id r es × (is_empty es ≡ false)
    → Answers b id (loaded r) es
answered b id (ok (some o)) es (served, asked) = inl (refl, (o, (refl, served)))
answered b id (ok none) es (served, asked) = inr (inl (refl, served))
answered b id (err x) es (served, asked) = inr (inr (inl (refl, (asked, (x, served)))))

module _ (F : Type 0) where
  get_orders-Every :
      (s : Service) (id : String)
      → Every (note F) (Answers s.cache id) [] (get_orders_order_id s id)
  unfolding get_orders_order_id
  get_orders-Every s id = elim (Bool-cases (id == "")) [
    | inl e ↦ rw e (inr (inr (inr (refl, (e, refl)))))
    | inr e ↦ rw e (
        Every-then_do (note F) (Answers s.cache id) _ (get_order s id) [] (
          Every-mono (note F) (λ r es. Served s.cache id r es × (is_empty es ≡ false)) _
            (get_order s id) [] (answered s.cache id)
            (Every-and (note F) (Served s.cache id) (λ _ es. is_empty es ≡ false) (get_order s id)
              [] (get_order-Every F s s.cache id refl) (get_order-asked F s id e))))
  ]

  -- Against every environment, `GetOrdersOrderId` answers 200 only with an order that the cache had,
  -- or that the repository had, or that a read of the same id that was under way returns; 404
  -- only if the repository or that read had none; 500 only with an error of one of these, never for
  -- a failing cache; and 400 only for the empty id, where nothing is asked. Only an order just read
  -- from the repository is put in the cache, and it is put there whenever there is a cache.
  pub get_orders-Answers :
      {W : Type 0} (h : (c : Call) → W → Reply F c × W) (s : Service) (id : String) (w : W)
      → let out = run (watch (note F) h) (get_orders_order_id s id) (w, []) in
        Answers s.cache id out.0 out.1.1
  get_orders-Answers h s id w =
      Every-run (note F) h (Answers s.cache id) (get_orders_order_id s id) w []
        (get_orders-Every s id)
