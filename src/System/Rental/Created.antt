-- ===== src/System/Rental/Created.antt =====
-- `CreateOrder` of an undisturbed rental.
use Prim.Native.String.{◌++◌, count}
use system_design_homework.Prelude.{
  String, ◌≡◌, refl, true, false, none, some, List, [], ◌∷◌, arith, ◌==◌, ltb, ◌∙◌, ◌≤◌, eq_iff,
  subst,
}
use system_design_homework.Prelude.Int.{ℤ}
use system_design_homework.Result.{ok}
use system_design_homework.Program.{run}
use system_design_homework.Api.{Time, Order, Offer}
use system_design_homework.Json.{marshal_offer}
use system_design_homework.Mock.{Storage, serve}
use system_design_homework.Orders.Calls.{Call, Reply}
use system_design_homework.Orders.Values.{CreateOrderRequest, new_order, order_ttl}
use system_design_homework.Orders.Service.{create_order, order_from_offer}
use system_design_homework.Redis.Calls.{Command, Reply as RedisReply, json}
use system_design_homework.Redis.Server.{IsRedis}
use system_design_homework.Redis.OfferRepository.{key_offer, key_offer_used}
use system_design_homework.Redis.OrderCache.{set_order}
use system_design_homework.Postgres.Tables.{
  Tables, OrderRow, find_order, has_order, has_payment, fits_order, fits_payment, is_integer,
  is_varchar,
}
use system_design_homework.Postgres.Lengths.{prefixed-is_varchar, short-is_varchar}
use system_design_homework.Postgres.OrderRepository.{row_of_order, hold_row}
use system_design_homework.Postgres.Server.Create.{with_order}
use system_design_homework.System.{World, answer, main_service}
use system_design_homework.System.Rental.{Works, calm, step, run-ret}
use system_design_homework.System.Rental.Calls.{
  now-calm, read-calm, get_offer-calm, mark-calm, hold-calm, create-calm, cache_set-calm,
}

find-has : (id : String) (os : List OrderRow) → find_order id os ≡ none → has_order id os ≡ false
unfolding find_order has_order
find-has id [] e = refl
find-has id (o ∷ os) e = ground (arith, find-has id os)

-- The amounts of an offer fit the INTEGER columns, and its user and scooter the VARCHAR columns.
abbrev pub Fits : Offer → Type 0
Fits offer =
    (is_integer offer.price_per_minute ≡ true)
    × (is_integer offer.price_unlock ≡ true)
    × (is_integer offer.deposit ≡ true)
    × (is_varchar offer.user_id ≡ true)
    × (is_varchar offer.scooter_id ≡ true)

abbrev pub held_as : String → String
held_as id = "txn-hold-" ++ id

module _ {F : Type 0} (to_int : F → ℤ) (surge discount : F) (at_rest tick : Time → Time)
    {R : Type 0} (h : (c : Command) → R → RedisReply c × R) (r : IsRedis h) (works : Works h r)
    (shelf : Storage F) (req : CreateOrderRequest) (offer : Offer) where
  abbrev system : (c : Call) → World R (Storage F) → Reply F c × World R (Storage F)
  system = answer to_int surge discount at_rest tick h serve

  -- The request is for this offer, which Redis has for its user, which has not expired and is not
  -- used; its amounts and texts fit; and the order is new, with an id
  -- of at most 244 characters, so that the ids of its transactions fit.
  pub record Offered (t : Tables) (clock : Time) (redis : R) : Type 0 where
    pub named : req.order_id == "" ≡ false
    pub there : r.live redis (key_offer req.offer_id) ≡ some (json (marshal_offer offer))
    pub unused : r.live redis (key_offer_used req.offer_id) ≡ none
    pub owned : offer.user_id == req.user_id ≡ true
    pub in_time : ltb offer.expires_at clock ≡ false
    pub fits : Fits offer
    pub offer_short : is_varchar req.offer_id ≡ true
    pub id_short : count req.order_id ≤ 244
    pub new : find_order req.order_id t.orders ≡ none
    pub unpaid : has_payment ("txn-" ++ req.order_id) t.payments ≡ false

  abbrev pub ordered : Time → Order
  ordered clock = new_order req offer (tick clock)

  abbrev pub with_ride : Tables → Time → Tables
  with_ride t clock =
      with_order at_rest (ordered clock) (held_as req.order_id) (tick (tick clock)) t

  module _ (t : Tables) (clock : Time) where
    Fits-fits_order :
        (now now' : Time)
        → Fits offer
        → is_varchar req.user_id ≡ true
        → is_varchar req.offer_id ≡ true
        → count req.order_id ≤ 244
        → fits_order (row_of_order (new_order req offer now) now') ≡ true
    unfolding fits_order row_of_order new_order
    Fits-fits_order now now' fits user named short =
        let id_fits = short-is_varchar req.order_id short in ground arith

    Fits-fits_payment :
        (now now' : Time)
        → Fits offer
        → is_varchar req.user_id ≡ true
        → count req.order_id ≤ 244
        → fits_payment (hold_row (new_order req offer now) (held_as req.order_id) now') ≡ true
    unfolding fits_payment hold_row new_order
    Fits-fits_payment now now' fits user short =
        let id_fits = short-is_varchar req.order_id short in
        let tx_fits = prefixed-is_varchar "txn-" req.order_id (omega arith) short in
        let held_fits = prefixed-is_varchar "txn-hold-" req.order_id (omega arith) short in
        ground arith

    from_offer-Created :
        (redis : R)
        → Offered t clock redis
        → (redis' : R) × (run system
              (order_from_offer main_service req offer)
              (calm t clock redis shelf)
            ≡ (
              ok (ordered clock),
              calm (with_ride t clock) (tick (tick (tick clock))) redis' shelf,
            ))
    unfolding order_from_offer main_service hold_row new_order
    from_offer-Created redis o =
        let (redis', marked) =
          mark-calm to_int surge discount at_rest tick h r works t (tick clock) redis shelf
            req.offer_id o.unused in
        let at_hold =
          hold-calm to_int surge discount at_rest tick h r works t (tick clock) redis' shelf in
        let at_start =
          now-calm to_int surge discount at_rest tick h r works t (tick clock) redis' shelf in
        let same_user : offer.user_id ≡ req.user_id =
          (eq_iff offer.user_id req.user_id).0 o.owned in
        let user = subst (λ u. is_varchar u ≡ true) same_user o.fits.3 in
        let at_create =
          create-calm to_int surge discount at_rest tick h r works t (tick (tick clock)) redis'
            shelf (ordered clock) (held_as req.order_id) (find-has req.order_id t.orders o.new)
            (Fits-fits_order (tick clock) (tick (tick clock)) o.fits user o.offer_short o.id_short)
            (Fits-fits_payment (tick clock) (tick (tick clock)) o.fits user o.id_short) o.unpaid in
        let at_cache =
          cache_set-calm to_int surge discount at_rest tick h r works (with_ride t clock)
            (tick (tick (tick clock))) redis' shelf (ordered clock) order_ttl in
        let last = run h (set_order true (some (ordered clock)) order_ttl) redis' in
        (
          last.1,
          step system Call.now _ _ clock _ _
              (now-calm to_int surge discount at_rest tick h r works t clock redis shelf)
              (rw (o.in_time, o.owned)
                (step system (Call.mark_offer_as_used req.offer_id) _ _ (ok true) _ _ marked (
                  step system (Call.hold_money _) _ _ _ _ _ (at_hold _) (
                    step system Call.now _ _ (tick clock) _ _ at_start (
                      step system (Call.create_order _ _) _ _ (ok tt) _ _ at_create (
                        step system (Call.cache_set _ _) _ _ last.0 _ _ at_cache
                          (run-ret system _ _))))))),
        )

    -- An order for an offer that is there is created.
    pub create_order-Created :
        (redis : R)
        → Offered t clock redis
        → (redis' : R) × (run system (create_order main_service req) (calm t clock redis shelf) ≡ (
          ok (ordered clock),
          calm (with_ride t clock) (tick (tick (tick clock))) redis' shelf,
        ))
    unfolding create_order
    create_order-Created redis o =
        let redis1 : R = (h (Command.get (key_offer req.offer_id)) redis).1 in
        let kept = works.lasts.kept (Command.get (key_offer req.offer_id)) in
        let later : Offered t clock redis1 = record {
          named = o.named;
          there = kept (key_offer req.offer_id) redis (λ e. ground (arith, e)) ∙ o.there;
          unused = kept (key_offer_used req.offer_id) redis (λ e. ground (arith, e)) ∙ o.unused;
          owned = o.owned;
          in_time = o.in_time;
          fits = o.fits;
          offer_short = o.offer_short;
          id_short = o.id_short;
          new = o.new;
          unpaid = o.unpaid;
        } in
        let (redis', done) = from_offer-Created redis1 later in
        (
          redis',
          rw o.named (
              step system (Call.get_order_by_id req.order_id) _ _ (ok none) _ _
                (read-calm to_int surge discount at_rest tick h r works t clock redis shelf
                    req.order_id
                  ∙ rw o.new refl)
                (step system (Call.get_offer req.offer_id) _ _ (ok (some offer)) _ _
                  (get_offer-calm to_int surge discount at_rest tick h r works t clock redis shelf
                    req.offer_id offer o.there)
                  done)),
        )
