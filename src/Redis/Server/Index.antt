-- ===== src/Redis/Server/Index.antt =====
-- The index of offers by user and scooter on a Redis server.
use Prim.Native.String.{◌++◌}
use text.Mathlib.TextLemmas.{append_assoc, append_inj}
use system_design_homework.Prelude.{
  String, ◌≡◌, refl, ◌∙◌, ◌≢◌, ◌⊎◌, inl, inr, true, Option, none, some, arith, eq_iff,
}
use system_design_homework.Prelude.Int.{ℤ}
use system_design_homework.Result.{Result, ok, err, is_ok}
use system_design_homework.Program.{run}
use system_design_homework.Api.{Offer}
use system_design_homework.Json.{Object}
use system_design_homework.Redis.Calls.{Command, Reply, Payload, plain}
use system_design_homework.Redis.OfferRepository.{
  key_offer, key_idx_user_scooter, save_offer, life_span, get_offer_by_user_scooter,
  set_offer_by_user_scooter,
}
use system_design_homework.Redis.Server.{IsRedis, Stays, key_of}
use system_design_homework.Redis.Server.Offers.{Holds, save_offer-Holds, get_offer-Holds}

key_offer-ne-idx : (id user scooter : String) → key_offer id ≢ key_idx_user_scooter user scooter
unfolding key_offer key_idx_user_scooter
key_offer-ne-idx id user scooter e =
    let rest = user ++ (":scooter:" ++ scooter) in
    let heads : ◌≡◌ {A = String} "offer:" "offer_" =
      (append_inj {s₁ = "offer:"} {s₂ = "offer_"} {t₁ = id} {t₂ = "idx:user:" ++ rest}
        (e ∙ append_assoc "offer_" "idx:user:" rest) refl).0 in
    ground (arith, eq_iff "offer:" "offer_", heads)

Stays-trans : (a b c : Option Payload) → Stays a b → Stays b c → Stays a c
Stays-trans a b c h k = ground (arith)

module _ {W : Type 0} (h : (c : Command) → W → Reply c × W) (r : IsRedis h) where
  open r use {live, get_live, set_live, others}

  -- The index entry of a user and a scooter.
  abbrev Indexes : String → String → String → W → Type 0
  Indexes user scooter id w = Stays (some (plain id)) (live w (key_idx_user_scooter user scooter))

  -- A lookup by the index finds one of its two entries expired: nothing is held under the key of
  -- the index, or, when the index has been read, under the key of the offer.
  abbrev pub Expired : Offer → String → String → W → Type 0
  Expired o user scooter w =
      (live w (key_idx_user_scooter user scooter) ≡ none)
      ⊎ (live (h (Command.get (key_idx_user_scooter user scooter)) w).1 (key_offer o.id) ≡ none)

  keeps-Holds :
      (c : Command) (o : Offer) (w : W)
      → key_of c ≢ some (key_offer o.id)
      → Holds h r o w
      → Holds h r o (h c w).1
  keeps-Holds c o w apart held = Stays-trans _ _ _ held (others c (key_offer o.id) w apart)

  index-Indexes :
      (user scooter id : String) (w : W) (left : Result (Option ℤ))
      → (h (Command.ttl (key_offer id)) w).0 ≡ left
      → is_ok (run h (set_offer_by_user_scooter true user scooter id) w).0 ≡ true
      → Indexes user scooter id (run h (set_offer_by_user_scooter true user scooter id) w).1
  unfolding run set_offer_by_user_scooter
  index-Indexes user scooter id w (ok d) e done =
      let w1 = (h (Command.ttl (key_offer id)) w).1 in
      ground (arith, set_live (key_idx_user_scooter user scooter) (plain id) (life_span d) w1)
  index-Indexes user scooter id w (err x) e done = ground (arith)

  index-Holds :
      (o : Offer) (user scooter id : String) (w : W) (left : Result (Option ℤ))
      → (h (Command.ttl (key_offer id)) w).0 ≡ left
      → Holds h r o w
      → Holds h r o (run h (set_offer_by_user_scooter true user scooter id) w).1
  unfolding run set_offer_by_user_scooter
  index-Holds o user scooter id w (ok d) e held =
      let w1 = (h (Command.ttl (key_offer id)) w).1 in
      let held1 = keeps-Holds (Command.ttl (key_offer id)) o w (λ p. ground (arith, p)) held in
      let held2 =
        keeps-Holds (Command.set (key_idx_user_scooter user scooter) (plain id) (life_span d)) o w1
          (λ p. key_offer-ne-idx o.id user scooter (ground (arith, p))) held1 in
      ground (arith, held2)
  index-Holds o user scooter id w (err x) e held =
      let held1 = keeps-Holds (Command.ttl (key_offer id)) o w (λ p. ground (arith, p)) held in
      ground (arith, held1)

  -- What is found by the index, from what its entry replies.
  found-Holds :
      (print : Object → String) (o : Offer) (user scooter : String) (w : W)
      (found : Result (Option Payload))
      → (h (Command.get (key_idx_user_scooter user scooter)) w).0 ≡ found
      → (found ≡ ok (some (plain o.id)))
        ⊎ ((found ≡ ok none) × (live w (key_idx_user_scooter user scooter) ≡ none))
      → Holds h r o w
      → let got = run h (get_offer_by_user_scooter print true user scooter) w in
        is_ok got.0 ≡ true → (got.0 ≡ ok (some o)) ⊎ ((got.0 ≡ ok none) × Expired o user scooter w)
  unfolding run get_offer_by_user_scooter
  found-Holds print o user scooter w found e (inl there) held =
      let kept =
        keeps-Holds (Command.get (key_idx_user_scooter user scooter)) o w (λ p. ground (arith, p))
          held in
      let w1 = (h (Command.get (key_idx_user_scooter user scooter)) w).1 in
      λ got. ground (arith, get_offer-Holds h r o w1 kept)
  found-Holds print o user scooter w found e (inr (none_there, expired)) held =
      λ got. ground (arith, expired)

  entry-reply :
      (print : Object → String) (user scooter id : String) (w : W)
      → Indexes user scooter id w
      → is_ok (run h (get_offer_by_user_scooter print true user scooter) w).0 ≡ true
      → let found = (h (Command.get (key_idx_user_scooter user scooter)) w).0 in
        (found ≡ ok (some (plain id)))
        ⊎ ((found ≡ ok none) × (live w (key_idx_user_scooter user scooter) ≡ none))
  unfolding run get_offer_by_user_scooter
  entry-reply print user scooter id w entry got =
      ground (arith, get_live (key_idx_user_scooter user scooter) w)

  -- After an offer was saved and indexed under its user and scooter, a lookup by that user and
  -- scooter right behind that does not fail finds this offer. It finds none only where an entry has
  -- expired: then the server holds nothing under the key of the index when it is read, or nothing
  -- under the key of the offer when that is read behind it.
  pub find-publish :
      (print : Object → String) (o : Offer) (w : W)
      → let saved = run h (save_offer true (some o)) w in
        let indexed = run h (set_offer_by_user_scooter true o.user_id o.scooter_id o.id) saved.1 in
        let got = run h (get_offer_by_user_scooter print true o.user_id o.scooter_id) indexed.1 in
        is_ok saved.0 ≡ true
        → is_ok indexed.0 ≡ true
        → is_ok got.0 ≡ true
        → (got.0 ≡ ok (some o)) ⊎ ((got.0 ≡ ok none) × Expired o o.user_id o.scooter_id indexed.1)
  find-publish print o w saved indexed got =
      let w1 = (run h (save_offer true (some o)) w).1 in
      let held = save_offer-Holds h r o w saved in
      let held' = index-Holds o o.user_id o.scooter_id o.id w1 _ refl held in
      let entry = index-Indexes o.user_id o.scooter_id o.id w1 _ refl indexed in
      found-Holds print o o.user_id o.scooter_id _ _ refl
        (entry-reply print o.user_id o.scooter_id o.id _ entry got) held' got
