-- ===== src/Offers/Zone.antt =====
-- `getZoneWithCache` against every environment: where a zone comes from.
use native.Mathlib.Decide.{dec_lt}
use system_design_homework.Prelude.{
  ◌+◌, ◌<◌, String, ◌≡◌, refl, ◌⊎◌, inl, inr, Option, none, some, List, [], ◌∷◌, arith,
}
use system_design_homework.Result.{Result, ok, err, err_zone_unavailable}
use system_design_homework.Program.{run, watch}
use system_design_homework.Program.Every.{Every, Every-run}
use system_design_homework.Api.{Time}
use system_design_homework.External.{TariffZone}
use system_design_homework.Pricing.{Float64}
use system_design_homework.Offers.Calls.{Call, Reply, ZoneCacheEntry}
use system_design_homework.Offers.Service.{
  zone_cache_ttl, fresh_zone, fall_back, fetch_zone, get_zone_with_cache,
}

pub data ZoneEvent : Type 0 where
  looked_up : String → Option ZoneCacheEntry → ZoneEvent
  clock : Time → ZoneEvent
  asked : String → Result (Option TariffZone) → ZoneEvent
  stored : String → ZoneCacheEntry → ZoneEvent

-- Newest first, each look with the id that it was for.
abbrev pub note : (F : Type 0) (c : Call F) → Reply F c → List ZoneEvent → List ZoneEvent
note F Call.now t es = clock t ∷ es
note F (Call.get_tariff_zone_data id) r es = asked id r ∷ es
note F (Call.zone_cache_load id) e es = looked_up id e ∷ es
note F (Call.zone_cache_store id e) r es = stored id e ∷ es
note F _ r es = es

-- The entry holds the zone, and has not expired.
abbrev pub IsFresh : TariffZone → Option ZoneCacheEntry → Time → Type 0
IsFresh zone none t = ⊥
IsFresh zone (some e) t = (e.zone ≡ zone) × (t < e.expires_at)

abbrev pub IsStale : Option ZoneCacheEntry → Time → Type 0
IsStale none t = Unit {0}
IsStale (some e) t = ¬ (t < e.expires_at)

abbrev pub HasNone : Result (Option TariffZone) → Type 0
HasNone (ok (some zone)) = ⊥
HasNone (ok none) = Unit {0}
HasNone (err e) = Unit {0}

abbrev pub Served : String → Result TariffZone → List ZoneEvent → Type 0
Served id (ok zone) (clock t ∷ looked_up i e ∷ []) = (i ≡ id) × IsFresh zone e t
Served id (ok zone) (stored id' e' ∷ clock t' ∷ asked j r ∷ clock t ∷ looked_up i e ∷ []) =
    (i ≡ id)
    × (j ≡ id)
    × IsStale e t
    × (r ≡ ok (some zone))
    × (id' ≡ id)
    × (e'.zone ≡ zone)
    × (e'.expires_at ≡ t' + zone_cache_ttl)
Served id (ok zone) (looked_up k e' ∷ asked j r ∷ clock t ∷ looked_up i e ∷ []) =
    (i ≡ id) × (j ≡ id) × (k ≡ id) × IsStale e t × HasNone r × IsFresh zone e' t
Served id (err x) (looked_up k e' ∷ asked j r ∷ clock t ∷ looked_up i e ∷ []) =
    (i ≡ id)
    × (j ≡ id)
    × (k ≡ id)
    × IsStale e t
    × HasNone r
    × IsStale e' t
    × (x ≡ err_zone_unavailable)
Served _ _ _ = ⊥

fresh_lem :
    (e : Option ZoneCacheEntry) (t : Time)
    → ((fresh_zone e t ≡ none) × IsStale e t)
      ⊎ ((zone : TariffZone) × (fresh_zone e t ≡ some zone) × IsFresh zone e t)
fresh_lem none t = inl (refl, tt)
fresh_lem (some e) t = elim (dec_lt t e.expires_at) [
  | yes h ↦ inr (e.zone, ground arith, (refl, h))
  | no h ↦ inl (ground arith, h)
]

module _ (f : Float64) where
  fall_back-Served :
      (id : String) (t : Time) (r : Result (Option TariffZone)) (e : Option ZoneCacheEntry)
      → IsStale e t
      → HasNone r
      → Every (note f.F) (Served id) (asked id r ∷ clock t ∷ looked_up id e ∷ []) (fall_back f id t)
  unfolding fall_back
  fall_back-Served id t r e stale nothing = λ e'. elim (fresh_lem e' t) [
    | inl (miss, old) ↦ rw miss (refl, refl, refl, stale, nothing, old, refl)
    | inr (zone, hit, new) ↦ rw hit (refl, refl, refl, stale, nothing, new)
  ]

  fetch_zone-Served :
      (id : String) (t : Time) (e : Option ZoneCacheEntry)
      → IsStale e t
      → Every (note f.F) (Served id) (clock t ∷ looked_up id e ∷ []) (fetch_zone f id t)
  unfolding fetch_zone
  fetch_zone-Served id t e stale = elim [
    | ok (some zone) ↦ λ t' u. (refl, refl, stale, refl, refl, refl, refl)
    | ok none ↦ fall_back-Served id t (ok none) e stale tt
    | err x ↦ fall_back-Served id t (err x) e stale tt
  ]

  get_zone-Every : (id : String) → Every (note f.F) (Served id) [] (get_zone_with_cache f id)
  unfolding get_zone_with_cache
  get_zone-Every id = λ e t. elim (fresh_lem e t) [
    | inl (miss, old) ↦ rw miss (fetch_zone-Served id t e old)
    | inr (zone, hit, new) ↦ rw hit (refl, new)
  ]

  -- Against every environment, `getZoneWithCache` returns a zone in three ways, each time
  -- under the id of the request: from the cache,
  -- before the entry expires; from the zone service, and then it has stored the zone, to expire ten
  -- minutes later; or, when the service has failed, from a second look in the cache, if by then
  -- the entry is there and has not expired at the time read first. The only error is that the zone
  -- is unavailable, after a failure of the service with no such entry in either look.
  pub get_zone-Served :
      {W : Type 0} (h : (c : Call f.F) → W → Reply f.F c × W) (id : String) (w : W)
      → let out = run (watch (note f.F) h) (get_zone_with_cache f id) (w, []) in
        Served id out.0 out.1.1
  get_zone-Served h id w =
      Every-run (note f.F) h (Served id) (get_zone_with_cache f id) w [] (get_zone-Every id)
