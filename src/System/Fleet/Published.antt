-- ===== src/System/Fleet/Published.antt =====
-- An offer that was published is in Redis.
use Prim.Native.String.{◌++◌}
use text.Mathlib.TextLemmas.{append_inj, append_assoc}
use system_design_homework.Prelude.{
  String, ◌≡◌, refl, sym, ◌≢◌, ◌∙◌, true, Option, some, arith, eq_iff,
}
use system_design_homework.Prelude.Int.{ℤ}
use system_design_homework.Result.{Result, ok, err, is_ok}
use system_design_homework.Program.{run}
use system_design_homework.Api.{Offer}
use system_design_homework.Json.{marshal_offer}
use system_design_homework.Redis.Calls.{Command, Reply, Payload, json, plain}
use system_design_homework.Redis.Server.{IsRedis}
use system_design_homework.Redis.OfferRepository.{
  key_offer, key_idx_user_scooter, save_offer, set_offer_by_user_scooter, time_left, life_span,
}
use system_design_homework.System.Marks.{Lasts}

-- A Redis server on which no entry expires, and a value that was stored is there.
pub record Stores {W : Type 0} (h : (c : Command) → W → Reply c × W) (r : IsRedis h) : Type 0 where
  pub lasts : Lasts h r
  pub set_there :
      (k : String) (p : Payload) (d : ℤ) (w : W)
      → is_ok (h (Command.set k p d) w).0 ≡ true
      → r.live (h (Command.set k p d) w).1 k ≡ some p

index-ne-offer : (user scooter id : String) → key_idx_user_scooter user scooter ≢ key_offer id
unfolding key_idx_user_scooter key_offer
index-ne-offer user scooter id e =
    let heads : ◌≡◌ {A = String} "offer_" "offer:" =
      (append_inj {s₁ = "offer_"} {s₂ = "offer:"}
        {t₁ = "idx:user:" ++ (user ++ (":scooter:" ++ scooter))} {t₂ = id}
        (sym (append_assoc "offer_" "idx:user:" (user ++ (":scooter:" ++ scooter))) ∙ e) refl).0 in
    ground (arith, eq_iff "offer_" "offer:", heads)

module _ {W : Type 0} (h : (c : Command) → W → Reply c × W) (r : IsRedis h)
    (stores : Stores h r) where
  open r use {live}
  open stores use {lasts, set_there}

  -- What a read of the offer needs.
  abbrev pub Holds : Offer → W → Type 0
  Holds o w = live w (key_offer o.id) ≡ some (json (marshal_offer o))

  pub save_offer-Holds :
      (o : Offer) (w : W)
      → is_ok (run h (save_offer true (some o)) w).0 ≡ true
      → Holds o (run h (save_offer true (some o)) w).1
  unfolding run save_offer
  save_offer-Holds o w saved =
      let w1 = (h Command.now w).1 in
      let t = (h Command.now w1).0 in
      let w2 = (h Command.now w1).1 in
      ground
        (arith, set_there (key_offer o.id) (json (marshal_offer o)) (time_left o.expires_at t) w2)

  pub index-Holds :
      (o : Offer) (user scooter : String) (w : W)
      → Holds o w
      → Holds o (run h (set_offer_by_user_scooter true user scooter o.id) w).1
  unfolding run set_offer_by_user_scooter
  index-Holds o user scooter w holds = by_reply (h (Command.ttl (key_offer o.id)) w).0 refl
    where
      index : String
      index = key_idx_user_scooter user scooter

      w1 : W
      w1 = (h (Command.ttl (key_offer o.id)) w).1

      read : live w1 (key_offer o.id) ≡ live w (key_offer o.id)
      read = lasts.kept (Command.ttl (key_offer o.id)) (key_offer o.id) w (λ e. ground (arith, e))

      written :
          (d : ℤ)
          → live (h (Command.set index (plain o.id) d) w1).1 (key_offer o.id)
            ≡ live w1 (key_offer o.id)
      written d =
          lasts.kept (Command.set index (plain o.id) d) (key_offer o.id) w1
            (λ e. index-ne-offer user scooter o.id (ground (arith, e)))

      by_reply :
          (left : Result (Option ℤ))
          → (h (Command.ttl (key_offer o.id)) w).0 ≡ left
          → Holds o (run h (set_offer_by_user_scooter true user scooter o.id) w).1
      by_reply (err x) e = ground (arith, e, read, holds)
      by_reply (ok left) e = ground (arith, e, read, holds, written (life_span left))
