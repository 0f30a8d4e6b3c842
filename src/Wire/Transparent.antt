-- ===== src/Wire/Transparent.antt =====
-- The generated client against the generated server: over HTTP, the external client sees the external
-- service as it is.

use system_design_homework.Prelude.{
  String, ◌≡◌, refl, ap, Bool, true, false, not, List, [], ◌∷◌, ◌==◌, arith,
}
use system_design_homework.Result.{ok, err, unexpected_status}
use system_design_homework.Program.{run}
use system_design_homework.External.Client.{
  MoneyBody, Request, get_scooter_data, get_tariff_zone_data, get_user_profile,
}
use system_design_homework.Mock.{
  Storage, found, lookup, real_id, serve, serve_hold, serve_scooter, serve_zone, serve_profile,
  serve_payment, serve_configs,
}
use system_design_homework.Generated.{
  Route, param_error_text, required_param, with_middlewares, Texts,
}
use system_design_homework.Wire.{get, Arrived, Packages}
use system_design_homework.Wire.Client.{Client, new_client, build}
use system_design_homework.Wire.Server.{
  Answer, http_error, with_query_id, hold, done, decoded, written, handler_from_mux, server_of,
}
use system_design_homework.Wire.Sent.{
  posted, looked_up, plain_get, post-exchange, get-exchange, configs-exchange,
}
use system_design_homework.Wire.Network.{
  clear_op, configs_op, hold_op, scooter_op, zone_op, unhold_op, user_op, IsSite, IsMux, matching,
  served, answered, exchange, scooter-read, zone-read, profile-read, hold-read,
}

-- A lookup asks for an id that is not empty.
abbrev pub has_id : Request → Bool
has_id (Request.get_scooter_data_with_response id) = not (id == "")
has_id (Request.get_tariff_zone_data_with_response id) = not (id == "")
has_id (Request.get_user_profile_with_response id) = not (id == "")
has_id _ = true

module _ {U F : Type 0} (pk : Packages U) (print : Texts)
    (mux : List (Route Arrived (Answer F)) → Arrived → Answer F) (is_mux : IsMux mux)
    (base : String) (client : Client U) (is_site : IsSite pk client.server)
    (made : new_client base [] ≡ ok client) where
  open is_site use {bind_id}

  -- The handler that the router finds for each.
  served-by :
      (s : Storage F) (r : Arrived) (h : Arrived → Answer F)
      → matching r.method r.path (handler_from_mux print pk.bind_param (server_of s)) ≡ h ∷ []
      → served pk print mux s r ≡ h r
  unfolding handler_from_mux
  served-by s r h found = is_mux _ r h refl found

  hold-same :
      (b : MoneyBody) (s : Storage F)
      → exchange pk print mux client (Request.post_hold_money_for_order b) s
        ≡ serve (Request.post_hold_money_for_order b) s
  unfolding build serve handler_from_mux server_of
  hold-same b s =
      rw
        (
          post-exchange pk print mux base client is_site made (Request.post_hold_money_for_order b)
              hold_op b s refl,
          served-by s (posted hold_op b) (decoded (λ b'. written hold (serve_hold b'))) refl,
          hold-read F b,
        )
        refl

  clear-same :
      (b : MoneyBody) (s : Storage F)
      → exchange pk print mux client (Request.post_clear_money_for_order b) s
        ≡ serve (Request.post_clear_money_for_order b) s
  unfolding build serve handler_from_mux server_of serve_payment
  clear-same b s =
      rw
        (
          post-exchange pk print mux base client is_site made (Request.post_clear_money_for_order b)
              clear_op b s refl,
          served-by s (posted clear_op b) (decoded (λ b'. written (λ u. done) (serve_payment b')))
              refl,
        )
        refl

  unhold-same :
      (b : MoneyBody) (s : Storage F)
      → exchange pk print mux client (Request.post_unhold_money_for_order b) s
        ≡ serve (Request.post_unhold_money_for_order b) s
  unfolding build serve handler_from_mux server_of serve_payment
  unhold-same b s =
      rw
        (
          post-exchange pk print mux base client is_site made
              (Request.post_unhold_money_for_order b) unhold_op b s refl,
          served-by s (posted unhold_op b) (decoded (λ b'. written (λ u. done) (serve_payment b')))
              refl,
        )
        refl

  scooter-same :
      (id : String) (s : Storage F)
      → id == "" ≡ false
      → exchange pk print mux client (Request.get_scooter_data_with_response id) s
        ≡ serve (Request.get_scooter_data_with_response id) s
  unfolding build serve handler_from_mux server_of serve_scooter get with_query_id with_middlewares
  scooter-same id s given =
      rw
        (
          get-exchange pk print mux base client is_site made
              (Request.get_scooter_data_with_response id) scooter_op id s refl,
          served-by s (looked_up scooter_op id) _ refl,
          given,
          bind_id id,
        )
        (ap (λ x. (ok x, s)) (scooter-read F (lookup (real_id "scooter-1" id) s.scooters)))

  zone-same :
      (id : String) (s : Storage F)
      → id == "" ≡ false
      → exchange pk print mux client (Request.get_tariff_zone_data_with_response id) s
        ≡ serve (Request.get_tariff_zone_data_with_response id) s
  unfolding build serve handler_from_mux server_of serve_zone get with_query_id with_middlewares
  zone-same id s given =
      rw
        (
          get-exchange pk print mux base client is_site made
              (Request.get_tariff_zone_data_with_response id) zone_op id s refl,
          served-by s (looked_up zone_op id) _ refl,
          given,
          bind_id id,
        )
        (ap (λ x. (ok x, s)) (zone-read F (lookup (real_id "zone-1" id) s.zones)))

  profile-same :
      (id : String) (s : Storage F)
      → id == "" ≡ false
      → exchange pk print mux client (Request.get_user_profile_with_response id) s
        ≡ serve (Request.get_user_profile_with_response id) s
  unfolding build serve handler_from_mux server_of serve_profile get with_query_id with_middlewares
  profile-same id s given =
      rw
        (
          get-exchange pk print mux base client is_site made
              (Request.get_user_profile_with_response id) user_op id s refl,
          served-by s (looked_up user_op id) _ refl,
          given,
          bind_id id,
        )
        (ap (λ x. (ok x, s)) (profile-read F (lookup (real_id "user-1" id) s.users)))

  configs-same :
      (s : Storage F)
      → exchange pk print mux client Request.get_configs_with_response s
        ≡ serve Request.get_configs_with_response s
  unfolding serve handler_from_mux server_of serve_configs with_middlewares
  configs-same s =
      rw
        (
          configs-exchange pk print mux base client is_site made s,
          served-by s (plain_get configs_op) _ refl,
        )
        refl

  scooter-empty :
      (s : Storage F)
      → exchange pk print mux client (Request.get_scooter_data_with_response "") s ≡ (
        answered {F = F}
            (Request.get_scooter_data_with_response "")
            (http_error 400 (param_error_text print (required_param "id"))),
        s,
      )
  unfolding build handler_from_mux server_of get with_query_id
  scooter-empty s =
      rw
        (
          get-exchange pk print mux base client is_site made
              (Request.get_scooter_data_with_response "") scooter_op "" s refl,
          served-by s (looked_up scooter_op "") _ refl,
        )
        refl

  zone-empty :
      (s : Storage F)
      → exchange pk print mux client (Request.get_tariff_zone_data_with_response "") s ≡ (
        answered {F = F}
            (Request.get_tariff_zone_data_with_response "")
            (http_error 400 (param_error_text print (required_param "id"))),
        s,
      )
  unfolding build handler_from_mux server_of get with_query_id
  zone-empty s =
      rw
        (
          get-exchange pk print mux base client is_site made
              (Request.get_tariff_zone_data_with_response "") zone_op "" s refl,
          served-by s (looked_up zone_op "") _ refl,
        )
        refl

  profile-empty :
      (s : Storage F)
      → exchange pk print mux client (Request.get_user_profile_with_response "") s ≡ (
        answered {F = F}
            (Request.get_user_profile_with_response "")
            (http_error 400 (param_error_text print (required_param "id"))),
        s,
      )
  unfolding build handler_from_mux server_of get with_query_id
  profile-empty s =
      rw
        (
          get-exchange pk print mux base client is_site made
              (Request.get_user_profile_with_response "") user_op "" s refl,
          served-by s (looked_up user_op "") _ refl,
        )
        refl

  -- Where the generated client is made for the address of a server without further options, and the
  -- packages treat the addresses, the parameter "id" and the routes as documented: over the generated
  -- client and the generated server, every request of the external client, a lookup with an id that
  -- is not empty, gets the reply that the external service gives, and leaves its storage as it was.
  pub exchange-serve :
      (c : Request) (s : Storage F) → has_id c ≡ true → exchange pk print mux client c s ≡ serve c s
  exchange-serve (Request.post_hold_money_for_order b) s given = hold-same b s
  exchange-serve (Request.post_clear_money_for_order b) s given = clear-same b s
  exchange-serve (Request.post_unhold_money_for_order b) s given = unhold-same b s
  exchange-serve (Request.get_scooter_data_with_response id) s given =
      scooter-same id s (ground (arith, given))
  exchange-serve (Request.get_tariff_zone_data_with_response id) s given =
      zone-same id s (ground (arith, given))
  exchange-serve (Request.get_user_profile_with_response id) s given =
      profile-same id s (ground (arith, given))
  exchange-serve Request.get_configs_with_response s given = configs-same s

  -- Under the same conditions, a lookup with the empty id is answered with status 400 by the
  -- generated server, which the external client reports as an error, not as a missing value.
  pub lookups-empty :
      (s : Storage F)
      → let net = exchange pk print mux client in
        ((run net (get_scooter_data "") s).0 ≡ err (unexpected_status "scooter-data" 400))
        × ((run net (get_tariff_zone_data "") s).0 ≡ err (unexpected_status "tariff-zone" 400))
        × ((run net (get_user_profile "") s).0 ≡ err (unexpected_status "user-profile" 400))
  unfolding run get_scooter_data get_tariff_zone_data get_user_profile
  lookups-empty s = (
    ground (arith, ap (λ x. x.0) (scooter-empty s)),
    ground (arith, ap (λ x. x.0) (zone-empty s)),
    ground (arith, ap (λ x. x.0) (profile-empty s)),
  )
