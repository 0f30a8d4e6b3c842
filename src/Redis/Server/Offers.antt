-- ===== src/Redis/Server/Offers.antt =====
-- The offer repository on a Redis server.

use system_design_homework.Prelude.{String, ◌≡◌, refl, ◌≢◌, ◌⊎◌, true, Option, none, some, arith}
use system_design_homework.Prelude.Int.{ℤ}
use system_design_homework.Result.{Result, ok, err, is_ok}
use system_design_homework.Program.{run}
use system_design_homework.Api.{Offer}
use system_design_homework.Json.{marshal_offer}
use system_design_homework.Json.RoundTrip.{unmarshal-marshal_offer}
use system_design_homework.Redis.Calls.{Command, Reply, json, plain}
use system_design_homework.Redis.OfferRepository.{
  key_offer, key_offer_used, get_offer, mark_offer_as_used, save_offer, time_left, life_span,
}
use system_design_homework.Redis.Server.{IsRedis, Stays}

module _ {W : Type 0} (h : (c : Command) → W → Reply c × W) (r : IsRedis h) where
  open r use {live, get_live, set_live, set_nx_live, set_nx_held, others}

  -- What the server holds under the key of an offer, if anything.
  abbrev pub Holds : Offer → W → Type 0
  Holds o w = Stays (some (json (marshal_offer o))) (live w (key_offer o.id))

  pub save_offer-Holds :
      (o : Offer) (w : W)
      → is_ok (run h (save_offer true (some o)) w).0 ≡ true
      → Holds o (run h (save_offer true (some o)) w).1
  unfolding run save_offer
  save_offer-Holds o w saved =
      let w1 = (h Command.now w).1 in
      let t = (h Command.now w1).0 in
      let w2 = (h Command.now w1).1 in
      ground
        (arith, set_live (key_offer o.id) (json (marshal_offer o)) (time_left o.expires_at t) w2)

  pub get_offer-Holds :
      (o : Offer) (w : W)
      → Holds o w
      → is_ok (run h (get_offer true o.id) w).0 ≡ true
      → ((run h (get_offer true o.id) w).0 ≡ ok (some o))
        ⊎ (((run h (get_offer true o.id) w).0 ≡ ok none) × (live w (key_offer o.id) ≡ none))
  unfolding run get_offer
  get_offer-Holds o w holds got =
      ground (arith, get_live (key_offer o.id) w, unmarshal-marshal_offer o)

  -- An offer that was saved is what a read gives right behind, if both succeed. The read finds
  -- nothing only where the entry of the offer has expired: then the server holds nothing under its
  -- key when the read comes.
  pub get-save_offer :
      (o : Offer) (w : W)
      → let saved = run h (save_offer true (some o)) w in
        let got = run h (get_offer true o.id) saved.1 in
        is_ok saved.0 ≡ true
        → is_ok got.0 ≡ true
        → (got.0 ≡ ok (some o)) ⊎ ((got.0 ≡ ok none) × (live saved.1 (key_offer o.id) ≡ none))
  get-save_offer o w saved got = get_offer-Holds o _ (save_offer-Holds o w saved) got

  -- The server behind the TTL command that a mark of the offer starts with.
  abbrev pub at_setnx : String → W → W
  at_setnx id w = (h (Command.ttl (key_offer id)) w).1

  granted-Stays :
      (id : String) (w : W) (left : Result (Option ℤ))
      → (h (Command.ttl (key_offer id)) w).0 ≡ left
      → (run h (mark_offer_as_used true id) w).0 ≡ ok true
      → (live (at_setnx id w) (key_offer_used id) ≡ none)
        × Stays
            (some (plain "1"))
            (live (run h (mark_offer_as_used true id) w).1 (key_offer_used id))
  unfolding run mark_offer_as_used
  granted-Stays id w (ok d) e granted =
      ground (arith, set_nx_live (key_offer_used id) (plain "1") (life_span d) (at_setnx id w))
  granted-Stays id w (err x) e granted = ground (arith)

  -- After a mark that was granted, the key of the mark holds its entry or the entry has expired. A
  -- second mark of the same offer is not granted as long as the entry is there when it comes to
  -- SETNX.
  mark-mark :
      (id : String) (w : W)
      → let first = run h (mark_offer_as_used true id) w in
        let second = run h (mark_offer_as_used true id) first.1 in
        first.0 ≡ ok true
        → live (at_setnx id first.1) (key_offer_used id) ≢ none
        → Stays (some (plain "1")) (live first.1 (key_offer_used id)) × (second.0 ≢ ok true)
  mark-mark id w once there =
      ((granted-Stays id w _ refl once).1, λ twice. there (granted-Stays id _ _ refl twice).0)
