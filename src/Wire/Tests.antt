-- ===== src/Wire/Tests.antt =====
-- The theorems on the wire at concrete inputs: an address is its path and the text behind "?id=".
use Prim.Native.String.{◌++◌, slice, len}
use system_design_homework.Prelude.{ℕ, String, ◌≡◌, refl, Option, none, some, List, [], ◌∷◌}
use system_design_homework.Prelude.Int.{pos}
use system_design_homework.Result.{ok, err, unexpected_status}
use system_design_homework.Program.{run}
use system_design_homework.External.Client.{
  Request, get_scooter_data, get_tariff_zone_data, get_user_profile,
}
use system_design_homework.Mock.{Storage, serve}
use system_design_homework.Generated.{Texts, Values, Route}
use system_design_homework.Wire.{Arrived, Packages}
use system_design_homework.Wire.Client.{Client, new_client}
use system_design_homework.Wire.Server.{Answer, http_error}
use system_design_homework.Wire.Network.{
  Operation, clear_op, configs_op, hold_op, scooter_op, zone_op, unhold_op, user_op, path_of,
  IsSite, IsMux, matching, exchange,
}
use system_design_homework.Wire.Transparent.{exchange-serve, lookups-empty}

abbrev Address : Type 0
Address = String × Option String

abbrev query_of : Address → Values
query_of (p, none) = []
query_of (p, some id) = ("id", id) ∷ []

abbrev first_value : Values → String
first_value [] = ""
first_value ((k, v) ∷ vs) = v

abbrev packages : Packages Address
packages = record {
  parse = λ s. ok (s, none);
  reread = λ u. ok u;
  resolve = λ u ref. ok (slice ref 1 (len ref), none);
  query = query_of;
  text = λ u. u.0;
  path = λ u. u.0;
  with_raw_query = λ u q. (u.0, some q);
  parse_query = λ q. ok (("id", q) ∷ []);
  encode = first_value;
  style_param = λ name v. ok v;
  bind_param = λ name vs. ok (first_value vs);
}

abbrev client : Client Address
client = record { server = "http://external:8081/"; editors = [] }

made : new_client "http://external:8081" [] ≡ ok client
unfolding new_client
made = refl

resolved_there :
    (o : Operation) → packages.resolve ("", none) ("." ++ path_of o) ≡ ok (path_of o, none)
resolved_there clear_op = refl
resolved_there configs_op = refl
resolved_there hold_op = refl
resolved_there scooter_op = refl
resolved_there zone_op = refl
resolved_there unhold_op = refl
resolved_there user_op = refl

abbrev site : IsSite packages client.server
site = record {
  site = ("http://external:8081/", none);
  at = λ p. (p, none);
  parsed = refl;
  resolved = resolved_there;
  path_at = λ o. refl;
  query_at = λ o. refl;
  reread_at = λ o. refl;
  path_asked = λ o q. refl;
  query_asked = λ o id. refl;
  reread_asked = λ o q. refl;
  styled = λ id. id;
  style_id = λ id. refl;
  parse_styled = λ id. refl;
  bind_id = λ id. refl;
}

abbrev first_handler : List (Arrived → Answer ℕ) → Arrived → Answer ℕ
first_handler [] r = http_error 404 "404 page not found"
first_handler (h ∷ hs) r = h r

abbrev mux : List (Route Arrived (Answer ℕ)) → Arrived → Answer ℕ
mux rs r = first_handler (matching r.method r.path rs) r

mux-IsMux : IsMux mux
mux-IsMux rs r h static sole = rw sole refl

abbrev print : Texts
print = record { cause = λ e. "error"; decimal = λ n. "many" }

abbrev shelf : Storage ℕ
shelf = record {
  scooters = ("s1", record { charge = pos 10; id = "s1"; zone_id = "z1" }) ∷ [];
  users = [];
  zones = [];
  configs = λ k. none;
}

exchange-serve_example :
    exchange packages print mux client (Request.get_scooter_data_with_response "s1") shelf
    ≡ serve (Request.get_scooter_data_with_response "s1") shelf
exchange-serve_example =
    exchange-serve packages print mux mux-IsMux "http://external:8081" client site made
      (Request.get_scooter_data_with_response "s1") shelf refl

lookups-empty_example :
    let net = exchange packages print mux client in
    ((run net (get_scooter_data "") shelf).0 ≡ err (unexpected_status "scooter-data" 400))
    × ((run net (get_tariff_zone_data "") shelf).0 ≡ err (unexpected_status "tariff-zone" 400))
    × ((run net (get_user_profile "") shelf).0 ≡ err (unexpected_status "user-profile" 400))
lookups-empty_example =
    lookups-empty packages print mux mux-IsMux "http://external:8081" client site made shelf
