-- ===== src/System/Fleet/Orderable.antt =====
-- An offer that `CreateOffer` makes is in Redis.
use system_design_homework.Prelude.{
  String, ◌≡◌, refl, ap, Bool, Bool-cases, true, inl, inr, Option, none, some, arith, ◌==◌, ◌||◌,
}
use system_design_homework.Prelude.Int.{ℤ}
use system_design_homework.Result.{
  Result, ok, err, is_ok, context, message, err_scooters_unavailable,
}
use system_design_homework.Program.{Prog, Proc, ret, call, ◌>>=◌, pure, fail}
use system_design_homework.Program.After.{After, After-call, After-bind, After-keeps}
use system_design_homework.Api.{Time, Offer}
use system_design_homework.Json.{Object}
use system_design_homework.Pricing.{Float64}
use system_design_homework.External.{ScooterData, TariffZone, DynamicConfigs}
use system_design_homework.External.Client.{Request, Reply as HttpReply}
use system_design_homework.Offers.Calls.{Call, Reply}
use system_design_homework.Offers.Service.{
  CreateOfferRequest, create_offer, price_offer, publish, new_offer, get_zone_with_cache,
  get_configs_cached, privileges,
}
use system_design_homework.Redis.Calls.{Command, Reply as RedisReply}
use system_design_homework.Redis.Server.{IsRedis}
use system_design_homework.System.Fleet.{Fleet, offers_answer}
use system_design_homework.System.Fleet.Published.{Stores, Holds, save_offer-Holds, index-Holds}

module _ (f : Float64) (to_int : f.F → ℤ) (surge discount : f.F) (at_rest tick : Time → Time)
    (print : Object → String) {R P G : Type 0} (h : (c : Command) → R → RedisReply c × R)
    (r : IsRedis h) (stores : Stores h r) (e : (c : Request) → P → HttpReply f.F c × P)
    (next_id : G → String × G) where
  abbrev pub market : (c : Call f.F) → Fleet f.F R P G → Reply f.F c × Fleet f.F R P G
  market = offers_answer to_int surge discount at_rest tick print h e next_id

  -- The Redis part of the world.
  stored :
      (o : Offer) (w : Fleet f.F R P G)
      → is_ok (market (Call.save_offer o) w).0 ≡ true
      → Holds h r stores o (market (Call.save_offer o) w).1.world.redis
  unfolding offers_answer
  stored o w went = save_offer-Holds h r stores o w.world.redis went

  in_redis :
      (o : Offer) (w : Fleet f.F R P G)
      → Holds h r stores o w.world.redis
      → Holds h r stores o
          (market (Call.set_offer_by_user_scooter o.user_id o.scooter_id o.id) w).1.world.redis
  unfolding offers_answer
  in_redis o w there = index-Holds h r stores o o.user_id o.scooter_id w.world.redis there

  for_user :
      (req : CreateOfferRequest) (scooter : ScooterData) (zone : TariffZone) (granted : Bool × Bool)
      (cfg : DynamicConfigs f.F) (t : Time) (id : String)
      → (new_offer f req scooter zone granted cfg t id).user_id ≡ req.user_id
  unfolding new_offer
  for_user req scooter zone granted cfg t id = refl

  -- A new offer for the request is in Redis.
  abbrev pub Made : CreateOfferRequest → Result Offer → Fleet f.F R P G → Type 0
  Made req (err x) w = Unit {0}
  Made req (ok o) w = (o.user_id ≡ req.user_id) × Holds h r stores o w.world.redis

  -- The steps of `publish` and of `create_offer`, from each reply on.
  abbrev indexed : Offer → Result (Unit {0}) → Proc (Reply f.F) Offer
  indexed o reply = ret (context "failed to index offer" reply) >>= λ _. pure o

  abbrev saved : Offer → Result (Unit {0}) → Proc (Reply f.F) Offer
  saved o reply = ret (context "failed to save offer" reply) >>= λ _.
      call (Call.set_offer_by_user_scooter o.user_id o.scooter_id o.id) (indexed o)

  publish-Made :
      (req : CreateOfferRequest) (o : Offer) (w : Fleet f.F R P G)
      → o.user_id ≡ req.user_id
      → After market (Made req) (publish f o) w
  unfolding publish
  publish-Made req o w owned =
      After-call market (Made req) (Call.save_offer o) (saved o) w after_save
    where
      w1 : Fleet f.F R P G
      w1 = (market (Call.save_offer o) w).1

      after_index :
          Holds h r stores o w1.world.redis
          → (reply : Result (Unit {0}))
          → (market (Call.set_offer_by_user_scooter o.user_id o.scooter_id o.id) w1).0 ≡ reply
          → After market
              (Made req)
              (indexed o reply)
              (market (Call.set_offer_by_user_scooter o.user_id o.scooter_id o.id) w1).1
      after_index there (err x) e = tt
      after_index there (ok u) e = (owned, in_redis o w1 there)

      after_save :
          (reply : Result (Unit {0}))
          → (market (Call.save_offer o) w).0 ≡ reply
          → After market (Made req) (saved o reply) w1
      after_save (err x) e = tt
      after_save (ok u) e =
          After-call market (Made req) (Call.set_offer_by_user_scooter o.user_id o.scooter_id o.id)
            (indexed o) w1 (after_index (stored o w (ap is_ok e)))

  anything :
      {A : Type 0} (p : Prog (Reply f.F) A) (w : Fleet f.F R P G)
      → After market (λ a w'. Unit {0}) p w
  anything p w = After-keeps market (λ w'. Unit {0}) (λ c w' u. tt) p w tt

  price_offer-Made :
      (req : CreateOfferRequest) (scooter : ScooterData) (w : Fleet f.F R P G)
      → After market (Made req) (price_offer f req scooter) w
  unfolding price_offer
  price_offer-Made req scooter w =
      After-bind market (λ a w'. Unit {0}) (Made req) (get_zone_with_cache f scooter.zone_id) _ w
        (anything (get_zone_with_cache f scooter.zone_id) w)
        (λ zone w1 u.
          let w2 = (market (Call.get_user_profile req.user_id) w1).1 in
          let profile = (market (Call.get_user_profile req.user_id) w1).0 in
          After-bind market (λ a w'. Unit {0}) (Made req) (get_configs_cached f) _ w2
            (anything (get_configs_cached f) w2)
            (λ cfg w3 u'.
              let t = (market Call.now w3).0 in
              let w4 = (market Call.now w3).1 in
              let id = (market Call.new_uuid w4).0 in
              let o = new_offer f req scooter zone (privileges profile) cfg t id in
              publish-Made req o (market Call.new_uuid w4).1
                (for_user req scooter zone (privileges profile) cfg t id))
            (λ x w3 u'. tt))
        (λ x w1 u. tt)

  -- From the scooter's reply, and from the lookup of an offer on.
  abbrev with_scooter : CreateOfferRequest → Result (Option ScooterData) → Proc (Reply f.F) Offer
  with_scooter req found = elim found [
    | err _ ↦ fail err_scooters_unavailable
    | ok none ↦ fail (message "scooter not found")
    | ok (some scooter) ↦ price_offer f req scooter
  ]

  abbrev with_lookup : CreateOfferRequest → Result (Option Offer) → Proc (Reply f.F) Offer
  with_lookup req replied = ret (context "failed to get existing offer" replied) >>= λ existing.
      elim existing [
        | some offer ↦ pure offer
        | none ↦ call (Call.get_scooter_data req.scooter_id) (with_scooter req)
      ]

  with_scooter-Made :
      (req : CreateOfferRequest) (found : Result (Option ScooterData)) (w : Fleet f.F R P G)
      → After market (Made req) (with_scooter req found) w
  with_scooter-Made req (err x) w = tt
  with_scooter-Made req (ok none) w = tt
  with_scooter-Made req (ok (some scooter)) w = price_offer-Made req scooter w

  with_lookup-Made :
      (req : CreateOfferRequest) (replied : Result (Option Offer)) (w : Fleet f.F R P G)
      → replied ≡ ok none
      → After market (Made req) (with_lookup req replied) w
  with_lookup-Made req (err x) w nothing = tt
  with_lookup-Made req (ok (some o)) w nothing = absurd (ground (arith, nothing))
  with_lookup-Made req (ok none) w nothing =
      with_scooter-Made req (market (Call.get_scooter_data req.scooter_id) w).0
        (market (Call.get_scooter_data req.scooter_id) w).1

  pub create_offer-Made :
      (req : CreateOfferRequest) (w : Fleet f.F R P G)
      → (market (Call.get_offer_by_user_scooter req.user_id req.scooter_id) w).0 ≡ ok none
      → After market (Made req) (create_offer f (some req)) w
  unfolding create_offer
  create_offer-Made req w nothing = elim (Bool-cases (req.user_id == "" || req.scooter_id == "")) [
    | inl b ↦ rw b tt
    | inr b ↦ rw b (
        with_lookup-Made req
          (market (Call.get_offer_by_user_scooter req.user_id req.scooter_id) w).0
          (market (Call.get_offer_by_user_scooter req.user_id req.scooter_id) w).1 nothing)
  ]
