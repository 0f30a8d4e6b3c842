-- ===== src/Wire/Sent.antt =====
-- What the generated client sends for each request, and what of it arrives.
use Prim.Native.String.{◌++◌}
use system_design_homework.Prelude.{String, ◌≡◌, refl, none, some, List, [], ◌∷◌, arith}
use system_design_homework.Result.{ok}
use system_design_homework.External.Client.{MoneyBody, Request}
use system_design_homework.Mock.{Storage}
use system_design_homework.Generated.{Route, Texts}
use system_design_homework.Wire.{add, Arrived, Packages}
use system_design_homework.Wire.Client.{
  Client, new_client, build, apply_editors, prepared, relative, operation_url, new_request, with_id,
  add_all, new_post_request, new_get_request, new_get_configs_request,
}
use system_design_homework.Wire.Server.{Answer}
use system_design_homework.Wire.Network.{
  Operation, clear_op, configs_op, hold_op, scooter_op, zone_op, unhold_op, user_op, path_of,
  IsSite, served, answered, exchange,
}

relative-path : (o : Operation) → relative (path_of o) ≡ "." ++ path_of o
unfolding relative
relative-path clear_op = refl
relative-path configs_op = refl
relative-path hold_op = refl
relative-path scooter_op = refl
relative-path zone_op = refl
relative-path unhold_op = refl
relative-path user_op = refl

-- What arrives of each of the three kinds of request.
abbrev pub posted : Operation → MoneyBody → Arrived
posted o b = record { method = "POST"; path = path_of o; query = []; body = some b }

abbrev pub looked_up : Operation → String → Arrived
looked_up o id = record { method = "GET"; path = path_of o; query = ("id", id) ∷ []; body = none }

abbrev pub plain_get : Operation → Arrived
plain_get o = record { method = "GET"; path = path_of o; query = []; body = none }

module _ {U F : Type 0} (pk : Packages U) (print : Texts)
    (mux : List (Route Arrived (Answer F)) → Arrived → Answer F) (base : String) (client : Client U)
    (is_site : IsSite pk client.server) (made : new_client base [] ≡ ok client) where
  open is_site use {
    site, at, parsed, resolved, path_at, query_at, reread_at, path_asked, query_asked, reread_asked,
    styled, style_id, parse_styled, bind_id,
  }

  no_editors : client.editors ≡ []
  unfolding new_client
  no_editors = ground (arith, made)

  operation_url-at :
      (o : Operation) → operation_url pk client.server (path_of o) ≡ ok (at (path_of o))
  unfolding operation_url
  operation_url-at o = rw (parsed, relative-path o) (resolved o)

  -- The address of a lookup.
  abbrev asked : Operation → String → U
  asked o id = pk.with_raw_query (at (path_of o)) (pk.encode (("id", id) ∷ []))

  with_id-asked : (o : Operation) (id : String) → with_id pk id (at (path_of o)) ≡ ok (asked o id)
  unfolding with_id add_all add
  with_id-asked o id = rw (style_id id, parse_styled id, query_at o) refl

  post-sent :
      (o : Operation) (b : MoneyBody)
      → new_post_request pk client.server (path_of o) b
        ≡ ok (record {
          method = "POST";
          url = at (path_of o);
          content_type = some "application/json";
          body = some b;
        })
  unfolding new_post_request new_request
  post-sent o b = rw (operation_url-at o, reread_at o) refl

  get-sent :
      (o : Operation) (id : String)
      → new_get_request pk client.server (path_of o) id
        ≡ ok (record { method = "GET"; url = asked o id; content_type = none; body = none })
  unfolding new_get_request new_request
  get-sent o id =
      rw (operation_url-at o, with_id-asked o id, reread_asked o (pk.encode (("id", id) ∷ []))) refl

  configs-sent :
      new_get_configs_request pk client.server
      ≡ ok (record {
        method = "GET";
        url = at (path_of configs_op);
        content_type = none;
        body = none;
      })
  unfolding new_get_configs_request new_request
  configs-sent = rw (operation_url-at configs_op, reread_at configs_op) refl

  pub post-exchange :
      (c : Request) (o : Operation) (b : MoneyBody) (s : Storage F)
      → build pk client.server c ≡ new_post_request pk client.server (path_of o) b
      → exchange pk print mux client c s ≡ (answered c (served pk print mux s (posted o b)), s)
  unfolding prepared apply_editors
  post-exchange c o b s e = rw (e, post-sent o b, no_editors, path_at o, query_at o) refl

  pub get-exchange :
      (c : Request) (o : Operation) (id : String) (s : Storage F)
      → build pk client.server c ≡ new_get_request pk client.server (path_of o) id
      → exchange pk print mux client c s ≡ (answered c (served pk print mux s (looked_up o id)), s)
  unfolding prepared apply_editors
  get-exchange c o id s e =
      rw
        (e, get-sent o id, no_editors, path_asked o (pk.encode (("id", id) ∷ [])), query_asked o id)
        refl

  pub configs-exchange :
      (s : Storage F)
      → exchange pk print mux client Request.get_configs_with_response s ≡ (
        answered Request.get_configs_with_response (served pk print mux s (plain_get configs_op)),
        s,
      )
  unfolding prepared apply_editors build
  configs-exchange s = rw (configs-sent, no_editors, path_at configs_op, query_at configs_op) refl
