-- ===== src/Offers/Create.antt =====
-- `CreateOffer` against every environment.
use system_design_homework.Prelude.{
  ◌+◌, ◌*◌, String, ◌≡◌, refl, ◌==◌, ◌||◌, inl, inr, Bool, Bool-cases, true, false, Option,
  Option-cases, none, some, List, [], ◌∷◌, arith,
}
use system_design_homework.Prelude.Int.{pos, ◌≤ℤ◌}
use system_design_homework.Result.{Result, ok, err, is_ok}
use system_design_homework.Program.Every.{Every, Every-bind}
use system_design_homework.Api.{Time, minute, Offer}
use system_design_homework.External.{ScooterData, TariffZone, UserProfile, DynamicConfigs}
use system_design_homework.Pricing.{Float64}
use system_design_homework.Offers.Calls.{Call, Reply}
use system_design_homework.Offers.Service.{
  CreateOfferRequest, privileges, fresh_zone, fall_back, get_zone_with_cache, is_default,
  get_configs_cached, new_offer, publish, price_offer, create_offer,
}

pub data Event : Type 0 where
  profiled : Result (Option UserProfile) → Event
  saved : Offer → Bool → Event
  indexed : String → String → String → Bool → Event
  -- The offer of a user and a scooter that the repository had.
  existing : String → String → Offer → Event

-- Newest first; the last field of a write says whether it succeeded.
abbrev pub note : (F : Type 0) (c : Call F) → Reply F c → List Event → List Event
note F (Call.get_offer_by_user_scooter user scooter) (ok (some o)) es = existing user scooter o ∷ es
note F (Call.get_user_profile id) r es = profiled r ∷ es
note F (Call.save_offer offer) r es = saved offer (is_ok r) ∷ es
note F (Call.set_offer_by_user_scooter user scooter id) r es =
    indexed user scooter id (is_ok r) ∷ es
note F _ r es = es

abbrev pub LastsFrom : Option Time → Time → Type 0
LastsFrom none t = ⊥
LastsFrom (some created) t = t ≡ created + 5 * minute

-- What a profile grants.
abbrev pub Granted : Result (Option UserProfile) → Offer → Type 0
Granted (ok (some p)) o =
    (p.trusted ≡ true → o.deposit ≡ pos 0) × (p.has_subscription ≡ true → o.price_unlock ≡ pos 0)
Granted _ o = Unit {0}

-- A new offer for the request: for five minutes, with no negative amount.
abbrev pub IsNew : CreateOfferRequest → Result (Option UserProfile) → Offer → Type 0
IsNew req r o =
    (o.user_id ≡ req.user_id)
    × (o.scooter_id ≡ req.scooter_id)
    × LastsFrom o.created_at o.expires_at
    × (pos 0 ≤ℤ o.price_per_minute)
    × (pos 0 ≤ℤ o.price_unlock)
    × (pos 0 ≤ℤ o.deposit)
    × Granted r o

abbrev pub Fits : CreateOfferRequest → Result Offer → List Event → Type 0
Fits req (ok o) (existing u s o' ∷ []) = (o ≡ o') × (u ≡ req.user_id) × (s ≡ req.scooter_id)
Fits req (ok o) (indexed u s id b ∷ saved o' c ∷ profiled r ∷ []) =
    (b ≡ true)
    × (c ≡ true)
    × (o ≡ o')
    × (u ≡ req.user_id)
    × (s ≡ req.scooter_id)
    × (id ≡ o.id)
    × IsNew req r o
Fits req (err e) [] = Unit {0}
Fits req (err e) (saved o c ∷ profiled r ∷ []) = (c ≡ false) × IsNew req r o
Fits req (err e) (indexed u s id b ∷ saved o c ∷ profiled r ∷ []) =
    (b ≡ false) × (c ≡ true) × IsNew req r o
Fits _ _ _ = ⊥

module _ (f : Float64) where
  -- The zone and the configuration are had without an event.
  fall_back-quiet :
      (id : String) (t : Time) → Every (note f.F) (λ r es. es ≡ []) [] (fall_back f id t)
  unfolding fall_back
  fall_back-quiet id t = λ e. elim (Option-cases (fresh_zone e t)) [
    | inl miss ↦ rw miss refl
    | inr (zone, hit) ↦ rw hit refl
  ]

  zone-quiet : (id : String) → Every (note f.F) (λ r es. es ≡ []) [] (get_zone_with_cache f id)
  unfolding get_zone_with_cache
  zone-quiet id = λ e t. elim (Option-cases (fresh_zone e t)) [
    | inl miss ↦ rw miss (elim [
      | ok (some zone) ↦ λ t' u. refl
      | ok none ↦ fall_back-quiet id t
      | err x ↦ fall_back-quiet id t
    ])
    | inr (zone, hit) ↦ rw hit refl
  ]

  configs-quiet :
      (es : List Event)
      → Every (note f.F) (λ r es'. (es' ≡ es) × (is_ok r ≡ true)) es (get_configs_cached f)
  unfolding get_configs_cached
  configs-quiet es = λ cfg. elim (Bool-cases (is_default cfg.incomplete_ride_threshold_seconds)) [
    | inl d ↦ rw d (elim [
      | ok (some cfg') ↦ λ u. (refl, refl)
      | ok none ↦ (refl, refl)
      | err x ↦ (refl, refl)
    ])
    | inr d ↦ rw d (refl, refl)
  ]

  new_offer-IsNew :
      (req : CreateOfferRequest) (scooter : ScooterData) (zone : TariffZone)
      (r : Result (Option UserProfile)) (cfg : DynamicConfigs f.F) (t : Time) (id : String)
      → IsNew req r (new_offer f req scooter zone (privileges r) cfg t id)
  unfolding new_offer
  new_offer-IsNew req scooter zone r cfg t id = ground arith

  publish-Fits :
      (req : CreateOfferRequest) (r : Result (Option UserProfile)) (o : Offer)
      → IsNew req r o
      → Every (note f.F) (Fits req) (profiled r ∷ []) (publish f o)
  unfolding publish
  publish-Fits req r o new = elim [
    | err x ↦ (refl, new)
    | ok u ↦ elim [
      | err x ↦ (refl, refl, new)
      | ok u' ↦ (refl, refl, refl, new.0, new.1, refl, new)
    ]
  ]

  price_offer-Fits :
      (req : CreateOfferRequest) (scooter : ScooterData)
      → Every (note f.F) (Fits req) [] (price_offer f req scooter)
  unfolding price_offer
  price_offer-Fits req scooter =
      Every-bind (note f.F) (λ r es. es ≡ []) (Fits req) (get_zone_with_cache f scooter.zone_id) _
        [] (zone-quiet scooter.zone_id)
        (λ zone es quiet. rw quiet (λ r.
          Every-bind (note f.F) (λ r' es'. (es' ≡ profiled r ∷ []) × (is_ok r' ≡ true)) (Fits req)
            (get_configs_cached f) _ (profiled r ∷ []) (configs-quiet (profiled r ∷ []))
            (λ cfg es' same.
              rw same.0
                (λ t id. publish-Fits req r _ (new_offer-IsNew req scooter zone r cfg t id)))
            (λ x es' bad. cc)))
        (λ x es quiet. rw quiet tt)

  pub create_offer-Every :
      (req : CreateOfferRequest) → Every (note f.F) (Fits req) [] (create_offer f (some req))
  unfolding create_offer
  create_offer-Every req = elim (Bool-cases (req.user_id == "" || req.scooter_id == "")) [
    | inl e ↦ rw e tt
    | inr e ↦ rw e (elim [
      | err x ↦ tt
      | ok (some o) ↦ (refl, refl, refl)
      | ok none ↦ elim [
        | err x ↦ tt
        | ok none ↦ tt
        | ok (some scooter) ↦ price_offer-Fits req scooter
      ]
    ])
  ]
