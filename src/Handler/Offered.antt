-- ===== src/Handler/Offered.antt =====
-- `PostOffers` against every environment.
use system_design_homework.Prelude.{◌≡◌, refl, ◌⊎◌, inl, inr, Bool-cases, ◌==◌, some, List, []}
use system_design_homework.Result.{
  Error, Result, ok, err, message, wrapped, unexpected_status, err_offer_not_found,
  err_offer_expired, err_offer_already_used, err_invalid_user, err_order_not_active,
  err_no_such_order, err_scooters_unavailable, err_zone_unavailable,
}
use system_design_homework.Program.{run, watch}
use system_design_homework.Program.Every.{Every, Every-run, Every-then_do, Every-mono}
use system_design_homework.Api.{Offer}
use system_design_homework.Pricing.{Float64}
use system_design_homework.Offers.Calls.{Call, Reply}
use system_design_homework.Offers.Service.{CreateOfferRequest, create_offer}
use system_design_homework.Offers.Create.{Event, note, Fits, create_offer-Every}
use system_design_homework.Handler.{Response, offer}
use system_design_homework.Handler.Offers.{offered, offer_error, post_offers}

-- 503 names the two services that an offer cannot do without.
abbrev pub Refuses : Error → Response → Type 0
Refuses err_scooters_unavailable resp = resp.status ≡ 503
Refuses err_zone_unavailable resp = resp.status ≡ 503
Refuses e resp = resp.status ≡ 400

-- The response to a request, with the events.
abbrev pub Answers : CreateOfferRequest → Response → List Event → Type 0
Answers req resp es =
    ((resp.status ≡ 201) × ((o : Offer) × (resp.body ≡ offer o) × Fits req (ok o) es))
    ⊎ ((e : Error) × Refuses e resp × Fits req (err e) es)
    ⊎ ((resp.status ≡ 400) × (es ≡ []))

offer_error-Refuses : (e : Error) → Refuses e (offer_error e)
offer_error-Refuses err_scooters_unavailable = refl
offer_error-Refuses err_zone_unavailable = refl
offer_error-Refuses (message m) = refl
offer_error-Refuses (wrapped m e) = refl
offer_error-Refuses (unexpected_status m n) = refl
offer_error-Refuses err_offer_not_found = refl
offer_error-Refuses err_offer_expired = refl
offer_error-Refuses err_offer_already_used = refl
offer_error-Refuses err_invalid_user = refl
offer_error-Refuses err_order_not_active = refl
offer_error-Refuses err_no_such_order = refl

answered :
    (req : CreateOfferRequest) (r : Result Offer) (es : List Event)
    → Fits req r es
    → Answers req (offered r) es
answered req (ok o) es h = inl (refl, (o, refl, h))
answered req (err e) es h = inr (inl (e, offer_error-Refuses e, h))

module _ (f : Float64) where
  post_offers-Every :
      (req : CreateOfferRequest) → Every (note f.F) (Answers req) [] (post_offers f (ok req))
  unfolding post_offers
  post_offers-Every req = elim (Bool-cases (req.user_id == "")) [
    | inl e ↦ rw e (inr (inr (refl, refl)))
    | inr e ↦ rw e (elim (Bool-cases (req.scooter_id == "")) [
      | inl e' ↦ rw e' (inr (inr (refl, refl)))
      | inr e' ↦ rw e' (
          Every-then_do (note f.F) (Answers req) _ (create_offer f (some req)) [] (
            Every-mono (note f.F) (Fits req) _ (create_offer f (some req)) [] (answered req)
              (create_offer-Every f req)))
    ])
  ]

  pub post_offers-Answers :
      {W : Type 0} (h : (c : Call f.F) → W → Reply f.F c × W) (req : CreateOfferRequest) (w : W)
      → let out = run (watch (note f.F) h) (post_offers f (ok req)) (w, []) in
        Answers req out.0 out.1.1
  post_offers-Answers h req w =
      Every-run (note f.F) h (Answers req) (post_offers f (ok req)) w [] (post_offers-Every req)
