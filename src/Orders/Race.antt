-- ===== src/Orders/Race.antt =====
-- `CreateOrder` requests that run at the same time, their calls interleaved in any order.
use system_design_homework.Prelude.{
  ℕ, ◌+◌, ◌≤◌, ◌<◌, ◌≡◌, refl, sym, subst, inl, inr, Bool-cases, String, Bool, true, false, none,
  some, List, [], ◌∷◌, ltb, ◌==◌, arith, eq_iff, if◌then◌else◌,
}
use system_design_homework.Result.{Result, ok, err}
use system_design_homework.Program.{Prog, watch, ◌>>◌, pure}
use system_design_homework.Program.Threads.{
  Account, interleave, interleave-keeps, interleave-Balanced, book, Solvent, Covered,
}
use system_design_homework.Api.{Offer, Order}
use system_design_homework.Orders.Calls.{Call, Reply}
use system_design_homework.Orders.Service.{Service, order_from_offer, create_order, cached_set}
use system_design_homework.Orders.Values.{CreateOrderRequest}
use system_design_homework.Orders.Events.{is_granted}

-- A grant is a successful mark of the offer `id`, and a hold spends one.
abbrev pub grants : (F : Type 0) → String → (c : Call) → Reply F c → ℕ
grants F id (Call.mark_offer_as_used id') r = if is_granted r then if id' == id then 1 else 0 else 0
grants F id _ r = 0

abbrev pub spends : Call → ℕ
spends (Call.hold_money req) = 1
spends _ = 0

module _ (F : Type 0) (id : String) where
  cached_set-Solvent :
      (b : Bool) (o : Order) (n : ℕ) → Solvent (grants F id) spends n (cached_set b o >> pure o)
  cached_set-Solvent true o n = λ r. (omega arith, tt)
  cached_set-Solvent false o n = tt

  from_offer-Solvent :
      (s : Service) (req : CreateOrderRequest) (offer : Offer)
      → req.offer_id ≡ id
      → Solvent (grants F id) spends 0 (order_from_offer s req offer)
  unfolding order_from_offer
  from_offer-Solvent s req offer same = λ t. (
    omega arith,
    elim (Bool-cases (ltb offer.expires_at t)) [
      | inl e ↦ rw e tt
      | inr e ↦ rw e (elim (Bool-cases (offer.user_id == req.user_id)) [
        | inl e' ↦ rw e' (elim [
          | err x ↦ (omega arith, tt)
          | ok false ↦ (omega arith, tt)
          | ok true ↦
              let paid : 1 ≤ 0 + (if req.offer_id == id then 1 else 0) =
                ground (arith, eq_iff req.offer_id id) in
              (
                omega arith,
                elim [
                  | err x ↦ (paid, tt)
                  | ok resp ↦ (
                    paid,
                    elim (Bool-cases resp.success) [
                      | inl yes_held ↦ rw yes_held (λ start. (
                        omega arith,
                        elim [
                          | err x ↦ (omega arith, λ r. (omega arith, tt))
                          | ok u ↦ (omega arith, cached_set-Solvent s.cache _ _)
                        ],
                      ))
                      | inr not_held ↦ rw not_held tt
                    ],
                  )
                ],
              )
        ])
        | inr e' ↦ rw e' tt
      ])
    ],
  )

  create_order-Solvent :
      (s : Service) (req : CreateOrderRequest)
      → req.offer_id ≡ id
      → Solvent (grants F id) spends 0 (create_order s req)
  unfolding create_order
  create_order-Solvent s req same = elim (Bool-cases (req.order_id == "")) [
    | inl e ↦ rw e tt
    | inr e ↦ rw e (elim [
      | err x ↦ (omega arith, tt)
      | ok (some o) ↦ (omega arith, tt)
      | ok none ↦ (
        omega arith,
        elim [
          | err x ↦ (omega arith, tt)
          | ok none ↦ (omega arith, tt)
          | ok (some offer) ↦ (omega arith, from_offer-Solvent s req offer same)
        ],
      )
    ])
  ]

  -- Requests for one offer, each with a service of its own configuration.
  abbrev pub Rivals : List (Service × CreateOrderRequest) → Type 0
  Rivals [] = Unit {0}
  Rivals ((s, req) ∷ rs) = (req.offer_id ≡ id) × Rivals rs

  abbrev pub threads : List (Service × CreateOrderRequest) → List (Prog (Reply F) (Result Order))
  threads [] = []
  threads ((s, req) ∷ rs) = create_order s req ∷ threads rs

  threads-Covered :
      (rs : List (Service × CreateOrderRequest))
      → Rivals rs
      → Covered (grants F id) spends 0 (threads rs)
  threads-Covered [] h = tt
  threads-Covered ((s, req) ∷ rs) h =
      (0, omega arith, create_order-Solvent s req h.0, threads-Covered rs h.1)

  -- What SETNX on the key of an offer gives: it succeeds only while the key is not set, and the key
  -- is then set and stays so (while it does not expire).
  pub record MarksOnce {W : Type 0} (h : (c : Call) → W → Reply F c × W) : Type 0 where
    pub used : W → Bool
    pub once :
        (w : W)
        → is_granted (h (Call.mark_offer_as_used id) w).0 ≡ true
        → (used w ≡ false) × (used (h (Call.mark_offer_as_used id) w).1 ≡ true)
    pub stays : (c : Call) (w : W) → used w ≡ true → used (h c w).1 ≡ true

  module _ {W : Type 0} (h : (c : Call) → W → Reply F c × W) (m : MarksOnce h) where
    open m use {used, once, stays}

    -- At most one mark was granted, and then the key is set.
    abbrev MarkedOnce : W × Account → Type 0
    MarkedOnce (w, a) = (a.granted ≤ 1) × (0 < a.granted → used w ≡ true)

    abbrev pub books : (c : Call) → W × Account → Reply F c × (W × Account)
    books = watch (book (grants F id) spends) h

    mark-MarkedOnce :
        (w : W) (a : Account)
        → MarkedOnce (w, a)
        → MarkedOnce (books (Call.mark_offer_as_used id) (w, a)).1
    mark-MarkedOnce w a k =
        ground (arith, once w, stays (Call.mark_offer_as_used id) w, eq_iff id id)

    unmarked-MarkedOnce :
        (c : Call) (w : W) (a : Account)
        → grants F id c (h c w).0 ≡ 0
        → MarkedOnce (w, a)
        → MarkedOnce (books c (w, a)).1
    unmarked-MarkedOnce c w a e k = ground (arith, stays c w)

    call-MarkedOnce : (c : Call) (x : W × Account) → MarkedOnce x → MarkedOnce (books c x).1
    call-MarkedOnce (Call.mark_offer_as_used id') (w, a) k = elim (Bool-cases (id' == id)) [
      | inl e ↦
          subst (λ (j : String). MarkedOnce (books (Call.mark_offer_as_used j) (w, a)).1)
            (sym ((eq_iff id' id).0 e)) (mark-MarkedOnce w a k)
      | inr e ↦ unmarked-MarkedOnce (Call.mark_offer_as_used id') w a (ground arith) k
    ]
    call-MarkedOnce Call.now (w, a) k = unmarked-MarkedOnce Call.now w a refl k
    call-MarkedOnce c (w, a) k = unmarked-MarkedOnce c w a refl k

    -- However the calls of any number of `CreateOrder` requests for one offer are interleaved, at
    -- most one deposit hold is asked for, as long as a successful mark of the offer is not given
    -- twice.
    pub holds_at_most_once :
        (rs : List (Service × CreateOrderRequest)) (is : List ℕ) (w : W)
        → Rivals rs
        → (interleave books is (threads rs) (w, record { granted = 0; spent = 0 })).1.1.spent ≤ 1
    holds_at_most_once rs is w rivals =
        let start : Account = record { granted = 0; spent = 0 } in
        let balance =
          interleave-Balanced (grants F id) spends h is (threads rs) w start
            (omega arith, threads-Covered rs rivals) in
        let marks =
          interleave-keeps books MarkedOnce call-MarkedOnce is (threads rs) (w, start)
            (omega arith, λ pos. absurd (omega arith)) in
        omega (arith, balance.0, marks.0)
