-- ===== src/Wire/Network.antt =====
-- A request of the generated client on its way to the generated server: what is relied on of the
-- addresses and of the router, and how a response is read.
use Prim.Native.String.{◌++◌}
use text.Mathlib.Text.{find?}
use system_design_homework.Prelude.{
  String, ◌≡◌, refl, Bool, true, not, ◌&&◌, Option, none, some, is_some, List, [], ◌∷◌, ◌==◌, arith,
  if◌then◌else◌,
}
use system_design_homework.Result.{Error, Result, ok, err, message}
use system_design_homework.External.{ScooterData, TariffZone, UserProfile}
use system_design_homework.External.Client.{Http, MoneyBody, Request, Reply, ConfigMap}
use system_design_homework.Mock.{Storage, found, serve_hold}
use system_design_homework.Generated.{Route, Texts}
use system_design_homework.Wire.{HttpRequest, Arrived, Packages}
use system_design_homework.Wire.Client.{Client, prepared}
use system_design_homework.Wire.Server.{
  Answer, written, Body, scooter, zone, profile, configs, hold, done, handler_from_mux, server_of,
}

-- The operations of the description.
pub data Operation : Type 0 where
  clear_op configs_op hold_op scooter_op zone_op unhold_op user_op : Operation

abbrev pub path_of : Operation → String
path_of clear_op = "/clear-money-for-order"
path_of configs_op = "/configs"
path_of hold_op = "/hold-money-for-order"
path_of scooter_op = "/scooter-data"
path_of zone_op = "/tariff-zone-data"
path_of unhold_op = "/unhold-money-for-order"
path_of user_op = "/user-profile"

-- What the two packages do with the address of a server, when nothing but its name, its port and a
-- slash are given, and with the parameter "id".
pub record IsSite {U : Type 0} (pk : Packages U) (server : String) : Type 0 where
  pub site : U
  pub at : String → U
  pub parsed : pk.parse server ≡ ok site
  pub resolved : (o : Operation) → pk.resolve site ("." ++ path_of o) ≡ ok (at (path_of o))
  pub path_at : (o : Operation) → pk.path (at (path_of o)) ≡ path_of o
  pub query_at : (o : Operation) → pk.query (at (path_of o)) ≡ []
  pub reread_at : (o : Operation) → pk.reread (at (path_of o)) ≡ ok (at (path_of o))
  -- The address with a query.
  pub path_asked :
      (o : Operation) (q : String) → pk.path (pk.with_raw_query (at (path_of o)) q) ≡ path_of o
  pub query_asked :
      (o : Operation) (id : String)
      → pk.query (pk.with_raw_query (at (path_of o)) (pk.encode (("id", id) ∷ [])))
        ≡ ("id", id) ∷ []
  pub reread_asked :
      (o : Operation) (q : String)
      → pk.reread (pk.with_raw_query (at (path_of o)) q) ≡ ok (pk.with_raw_query (at (path_of o)) q)
  pub styled : String → String
  pub style_id : (id : String) → pk.style_param "id" id ≡ ok (styled id)
  pub parse_styled : (id : String) → pk.parse_query (styled id) ≡ ok (("id", id) ∷ [])
  pub bind_id : (id : String) → pk.bind_param "id" (("id", id) ∷ []) ≡ ok id

-- The handlers that stand for a method and a path in a table of routes.
abbrev pub matching : {A : Type 0} → String → String → List (Route Arrived A) → List (Arrived → A)
matching m p [] = []
matching m p (r ∷ rs) =
    let rest = matching m p rs in
    if (r.method == m) && (r.pattern == p) then r.handler ∷ rest else rest

-- No pattern has a parameter.
abbrev pub all_static : {A : Type 0} → List (Route Arrived A) → Bool
all_static [] = true
all_static (r ∷ rs) = not (is_some (find? r.pattern "{")) && all_static rs

-- What the router does with such a table: a request goes to the one handler of its method and path.
abbrev pub IsMux : {A : Type 0} → (List (Route Arrived A) → Arrived → A) → Type 0
IsMux {A} mux =
    (rs : List (Route Arrived A)) (r : Arrived) (h : Arrived → A)
    → all_static rs ≡ true
    → matching r.method r.path rs ≡ h ∷ []
    → mux rs r ≡ h r

-- How a body is read where a value of a type is asked for.
abbrev pub nothing_read : {A : Type 0} → Result A
nothing_read = err (message "EOF")

abbrev pub as_scooter : {F : Type 0} → Body F → Result ScooterData
as_scooter (scooter x) = ok x
as_scooter _ = nothing_read

abbrev pub as_zone : {F : Type 0} → Body F → Result TariffZone
as_zone (zone x) = ok x
as_zone _ = nothing_read

abbrev pub as_profile : {F : Type 0} → Body F → Result UserProfile
as_profile (profile x) = ok x
as_profile _ = nothing_read

abbrev pub as_configs : {F : Type 0} → Body F → Result (ConfigMap F)
as_configs (configs x) = ok x
as_configs _ = nothing_read

abbrev pub as_hold : {F : Type 0} → Body F → Result (String × Bool)
as_hold (hold x) = ok x
as_hold _ = nothing_read

abbrev pub as_done : {F : Type 0} → Body F → Result (Unit {0})
as_done done = ok tt
as_done _ = nothing_read

abbrev pub received : {F A : Type 0} → (Body F → Result A) → Answer F → Http A
received read a = record { status = a.status; is_json = a.is_json; body = read a.body }

abbrev pub answered : {F : Type 0} (c : Request) → Answer F → Reply F c
answered (Request.post_hold_money_for_order b) a = ok (received as_hold a)
answered (Request.post_clear_money_for_order b) a = ok (received as_done a)
answered (Request.post_unhold_money_for_order b) a = ok (received as_done a)
answered (Request.get_scooter_data_with_response id) a = ok (received as_scooter a)
answered (Request.get_tariff_zone_data_with_response id) a = ok (received as_zone a)
answered (Request.get_user_profile_with_response id) a = ok (received as_profile a)
answered Request.get_configs_with_response a = ok (received as_configs a)

abbrev pub unsent : (F : Type 0) (c : Request) → Error → Reply F c
unsent F (Request.post_hold_money_for_order b) e = err e
unsent F (Request.post_clear_money_for_order b) e = err e
unsent F (Request.post_unhold_money_for_order b) e = err e
unsent F (Request.get_scooter_data_with_response id) e = err e
unsent F (Request.get_tariff_zone_data_with_response id) e = err e
unsent F (Request.get_user_profile_with_response id) e = err e
unsent F Request.get_configs_with_response e = err e

-- A value that was found, or not, as it is read again.
pub scooter-read :
    (F : Type 0) (o : Option ScooterData)
    → received (as_scooter {F = F}) (written scooter (found o)) ≡ found o
scooter-read F none = refl
scooter-read F (some x) = refl

pub zone-read :
    (F : Type 0) (o : Option TariffZone)
    → received (as_zone {F = F}) (written zone (found o)) ≡ found o
zone-read F none = refl
zone-read F (some x) = refl

pub profile-read :
    (F : Type 0) (o : Option UserProfile)
    → received (as_profile {F = F}) (written profile (found o)) ≡ found o
profile-read F none = refl
profile-read F (some x) = refl

pub hold-read :
    (F : Type 0) (b : MoneyBody)
    → received (as_hold {F = F}) (written hold (serve_hold b)) ≡ serve_hold b
unfolding serve_hold
hold-read F b = ground arith

module _ {U F : Type 0} (pk : Packages U) (print : Texts)
    (mux : List (Route Arrived (Answer F)) → Arrived → Answer F) where
  -- A request as it arrives.
  abbrev pub arrived : HttpRequest U → Arrived
  arrived r = record {
    method = r.method;
    path = pk.path r.url;
    query = pk.query r.url;
    body = r.body;
  }

  -- What the router makes of a request.
  abbrev pub served : Storage F → Arrived → Answer F
  served s r = mux (handler_from_mux print pk.bind_param (server_of s)) r

  -- A request of the generated client, to the generated server over a connection that does not fail.
  abbrev pub exchange : Client U → (c : Request) → Storage F → Reply F c × Storage F
  exchange client c s = (
    elim (prepared pk client c) [
      | err e ↦ unsent F c e
      | ok http ↦ answered c (served s (arrived http))
    ],
    s,
  )
