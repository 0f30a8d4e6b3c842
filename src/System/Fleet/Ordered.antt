-- ===== src/System/Fleet/Ordered.antt =====
-- From an offer to its order, as the client sees it.
use Prim.Native.String.{◌++◌, count}
use system_design_homework.Prelude.{
  String, ◌≡◌, refl, sym, ap, ◌∙◌, ◌≤◌, true, false, Option, none, some, arith, ◌==◌, eq_iff, subst,
  ltb,
}
use system_design_homework.Prelude.Int.{ℤ}
use system_design_homework.Result.{
  Error, Result, ok, err, err_scooters_unavailable, err_zone_unavailable,
}
use system_design_homework.Program.{run}
use system_design_homework.Program.After.{After-run}
use system_design_homework.Api.{Time, Offer}
use system_design_homework.Json.{Object}
use system_design_homework.Pricing.{Float64}
use system_design_homework.External.Client.{Request, Reply as HttpReply}
use system_design_homework.Mock.{Storage, serve}
use system_design_homework.Offers.Calls.{Call, Reply}
use system_design_homework.Orders.Calls.{Call as OrdersCall, Reply as OrdersReply}
use system_design_homework.Offers.Service.{CreateOfferRequest, create_offer}
use system_design_homework.Orders.Values.{CreateOrderRequest, new_order}
use system_design_homework.Orders.Service.{create_order}
use system_design_homework.Handler.{Response, Body, offer, order}
use system_design_homework.Handler.Offers.{post_offers, offered, offer_error}
use system_design_homework.Handler.Orders.{post_orders, created}
use system_design_homework.Redis.Calls.{Command, Reply as RedisReply}
use system_design_homework.Redis.Server.{IsRedis}
use system_design_homework.Redis.OfferRepository.{key_offer_used}
use system_design_homework.Postgres.Tables.{Tables, find_order, has_payment, is_varchar}
use system_design_homework.System.{World, answer, main_service}
use system_design_homework.System.Rental.{Works, calm, run-then_do}
use system_design_homework.System.Rental.Created.{Offered, Fits, create_order-Created}
use system_design_homework.System.Fleet.{Fleet}
use system_design_homework.System.Fleet.Published.{Stores, Holds}
use system_design_homework.System.Fleet.Orderable.{Made, market, create_offer-Made}

abbrev offer_of : Body → Option Offer
offer_of (offer o) = some o
offer_of _ = none

refused : (x : Error) → offer_of (offer_error x).body ≡ none
refused err_scooters_unavailable = refl
refused err_zone_unavailable = refl
refused _ = refl

-- Only an offer that was made is answered with.
offered-ok :
    (o : Offer) (made : Result Offer)
    → offered made ≡ record { status = 201; body = offer o }
    → made ≡ ok o
offered-ok o (ok o') same =
    let inside : some o' ≡ some o = ap (λ a. offer_of a.body) same in ground (arith, inside)
offered-ok o (err x) same =
    let inside : none ≡ some o = sym (refused x) ∙ ap (λ a. offer_of a.body) same in
    absurd (ground (arith, inside))

module _ (f : Float64) (to_int : f.F → ℤ) (surge discount : f.F) (at_rest tick : Time → Time)
    (print : Object → String) {R P G : Type 0} (h : (c : Command) → R → RedisReply c × R)
    (r : IsRedis h) (stores : Stores h r) (works : Works h r)
    (e : (c : Request) → P → HttpReply f.F c × P) (next_id : G → String × G)
    (req : CreateOfferRequest) (w : Fleet f.F R P G) (o : Offer) where
  abbrev offers : (c : Call f.F) → Fleet f.F R P G → Reply f.F c × Fleet f.F R P G
  offers = market f to_int surge discount at_rest tick print h r stores e next_id

  abbrev system :
      (c : OrdersCall) → World R (Storage f.F) → OrdersReply f.F c × World R (Storage f.F)
  system = answer to_int surge discount at_rest tick h serve

  -- The request for an offer, and the Redis server behind it.
  abbrev asked : Response × Fleet f.F R P G
  asked = run offers (post_offers f (ok req)) w

  abbrev redis : R
  redis = asked.1.world.redis

  abbrev made : Result Offer × Fleet f.F R P G
  made = run offers (create_offer f (some req)) w

  asked-made :
      req.user_id == "" ≡ false → req.scooter_id == "" ≡ false → asked ≡ (offered made.0, made.1)
  unfolding post_offers
  asked-made user_named scooter_named =
      rw (user_named, scooter_named)
        (run-then_do offers offered (create_offer f (some req)) w made.0 made.1 refl)

  there :
      req.user_id == "" ≡ false
      → req.scooter_id == "" ≡ false
      → (offers (Call.get_offer_by_user_scooter req.user_id req.scooter_id) w).0 ≡ ok none
      → asked.0 ≡ record { status = 201; body = offer o }
      → (o.user_id ≡ req.user_id) × Holds h r stores o redis
  there user_named scooter_named first answered =
      let same = asked-made user_named scooter_named in
      let is_made : made.0 ≡ ok o = offered-ok o made.0 (sym (ap (λ a. a.0) same) ∙ answered) in
      let about =
        After-run offers (Made f to_int surge discount at_rest tick print h r stores e next_id req)
          (create_offer f (some req)) w
          (create_offer-Made f to_int surge discount at_rest tick print h r stores e next_id req w
            first) in
      let here : (o.user_id ≡ req.user_id) × Holds h r stores o made.1.world.redis =
        subst
          (λ a. Made f to_int surge discount at_rest tick print h r stores e next_id req a made.1)
          is_made about in
      (here.0, subst (λ a. Holds h r stores o a.1.world.redis) (sym same) here.1)

  -- An offer that a user has just been given can be ordered, on one Redis server for both services,
  -- where no entry expires and no read, no TTL and no new mark fails. If the index had no offer for
  -- the user and the scooter, and `PostOffers` answers 201 with an offer, whatever its other requests
  -- and writes give, then `PostOrders` of a new order for this offer by this user answers 201 and the
  -- order at the prices of the offer. This is so at any contents of the database, if no statement
  -- fails and the stand-in service of external/ answers, as long as the offer has not been used and
  -- has not expired, its amounts fit INTEGER columns and its texts VARCHAR(255) columns, and the order has an
  -- id of at most 244 characters and no HOLD transaction yet.
  pub offer-Ordered :
      (order_id : String) (t : Tables) (clock : Time) (shelf : Storage f.F)
      → req.user_id == "" ≡ false
      → req.scooter_id == "" ≡ false
      → (offers (Call.get_offer_by_user_scooter req.user_id req.scooter_id) w).0 ≡ ok none
      → asked.0 ≡ record { status = 201; body = offer o }
      → order_id == "" ≡ false
      → o.id == "" ≡ false
      → r.live redis (key_offer_used o.id) ≡ none
      → ltb o.expires_at clock ≡ false
      → Fits o
      → is_varchar o.id ≡ true
      → count order_id ≤ 244
      → find_order order_id t.orders ≡ none
      → has_payment ("txn-" ++ order_id) t.payments ≡ false
      → let for_it : CreateOrderRequest = record {
        order_id = order_id;
        offer_id = o.id;
        user_id = req.user_id;
      } in
        (run system (post_orders main_service (ok for_it)) (calm t clock redis shelf)).0
        ≡ record { status = 201; body = order (some (new_order for_it o (tick clock))) }
  unfolding post_orders
  offer-Ordered order_id t clock shelf user_named scooter_named first answered named offer_named
        unused in_time fits offer_short id_short new unpaid =
      let for_it : CreateOrderRequest = record {
        order_id = order_id;
        offer_id = o.id;
        user_id = req.user_id;
      } in
      let (owned, holds) = there user_named scooter_named first answered in
      let offered_now : Offered to_int surge discount at_rest tick h r works shelf for_it o t clock
          redis =
        record {
          named = named;
          there = holds;
          unused = unused;
          owned = (eq_iff o.user_id req.user_id).1 owned;
          in_time = in_time;
          fits = fits;
          offer_short = offer_short;
          id_short = id_short;
          new = new;
          unpaid = unpaid;
        } in
      let (redis', begun) =
        create_order-Created to_int surge discount at_rest tick h r works shelf for_it o t clock
          redis offered_now in
      rw (named, offer_named, user_named)
        (ap (λ out. out.0)
          (run-then_do system created (create_order main_service for_it) (calm t clock redis shelf)
            _ _ begun))
