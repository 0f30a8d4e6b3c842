-- ===== src/Handler/Offers.antt =====
-- client/internal/handler/offers.go: `OffersHandler`.
use system_design_homework.Prelude.{some, ◌==◌, if◌then◌else◌}
use system_design_homework.Result.{
  Error, Result, ok, err, err_scooters_unavailable, err_zone_unavailable,
}
use system_design_homework.Program.{Prog, ret, then_do}
use system_design_homework.Api.{Offer}
use system_design_homework.Pricing.{Float64}
use system_design_homework.Offers.Calls.{Reply}
use system_design_homework.Offers.Service.{CreateOfferRequest, create_offer}
use system_design_homework.Handler.{Response, respond, offer}

-- The `switch err` of `PostOffers`.
abbrev pub offer_error : Error → Response
offer_error err_scooters_unavailable = respond 503 "External scooters service unavailable"
offer_error err_zone_unavailable =
    respond 503 "External zone service unavailable for long period of time"
offer_error _ = respond 400 "Unable to create offer"

abbrev pub offered : Result Offer → Response
offered (ok o) = record { status = 201; body = offer o }
offered (err e) = offer_error e

-- `PostOffers`; the request is what the JSON decoder makes of the body.
unfoldable pub post_offers : (f : Float64) → Result CreateOfferRequest → Prog (Reply f.F) Response
post_offers f (err e) = ret (respond 400 "Invalid request body")
post_offers f (ok req) =
    if req.user_id == ""
    then ret (respond 400 "user_id is required")
    else if req.scooter_id == ""
    then ret (respond 400 "scooter_id is required")
    else then_do (λ r. ret (offered r)) (create_offer f (some req))
