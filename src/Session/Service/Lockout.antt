-- ===== src/Session/Service/Lockout.antt =====
-- Wrong PINs: how many of them a token survives.
use Prim.Native.String
use ar_app.Base.{
  true, ℕ, ◌+◌, ◌≤◌, ◌<◌, ◌≡◌, ◌≢◌, refl, ◌∙◌, none, some, List, [], ◌∷◌, String, string_eq, nat_eq,
  arith, length, All, dec_lt,
}
use ar_app.Platform.Redis.{Answers}
use ar_app.Session.Service.{
  TokenRecord, Deps, invalid_token, err, token_key, attempts_key, max_redeem_tries, World, hash_pin,
  redeem,
}
use ar_app.Session.Service.Commands.{text-track_attempt}
use ar_app.Session.Service.Replies.{
  tracked, countable-tracked, counter-tracked, redeem_unknown, redeem_wrong, cut_off, redeem_over,
  text-deleted,
}

module _ (D : Deps) (up : Answers D.redis) where
  open D use {redis, uuids}

  -- One redeem after another, each with its PIN and its time.
  unfoldable pub try_pins : String → List (String × ℕ) → World D → World D
  try_pins c [] w = w
  try_pins c ((pin, now) ∷ rest) w = try_pins c rest (redeem D c pin now w).0

  try_pins_unknown :
      (c : String) (guesses : List (String × ℕ)) (w : World D)
      → redis.text w.store (token_key c) ≡ none
      → try_pins c guesses w ≡ w
  unfolding try_pins
  try_pins_unknown c [] w h = refl
  try_pins_unknown c ((pin, now) ∷ rest) w h =
      rw (redeem_unknown D up c pin now w h, try_pins) (try_pins_unknown c rest w h)

  try_pins_over :
      (c : String) (guesses : List (String × ℕ)) (w : World D)
      → redis.text (try_pins c guesses (cut_off D up w c)).store (token_key c) ≡ none
  try_pins_over c guesses w =
      rw
        (try_pins_unknown c guesses (cut_off D up w c)
          (text-deleted D up (tracked D up w c).store c))
        (text-deleted D up (tracked D up w c).store c)

  lockout_from :
      (c : String) (guesses : List (String × ℕ)) (w : World D) (rec : TokenRecord)
      → 0 < D.ttl
      → redis.countable w.store (attempts_key c) ≡ true
      → redis.text w.store (token_key c) ≡ some (D.encode rec)
      → redis.counter w.store (attempts_key c) ≤ max_redeem_tries
      → All (λ g. hash_pin D g.0 ≢ rec.pin_hash) guesses
      → max_redeem_tries < length guesses + redis.counter w.store (attempts_key c)
      → redis.text (try_pins c guesses w).store (token_key c) ≡ none
  unfolding try_pins
  lockout_from c [] w rec lasts free h n wrong e = absurd (omega arith)
  lockout_from c ((pin, now) ∷ rest) w rec lasts free h n wrong e =
      elim (dec_lt (redis.counter w.store (attempts_key c)) max_redeem_tries) [
        | yes p ↦
            rw (redeem_wrong D up c pin now w rec free h p wrong.0, try_pins)
              (lockout_from c rest (tracked D up w c) rec lasts (countable-tracked D up w c free)
                (text-track_attempt D c w ∙ h) (omega (arith, counter-tracked D up w c lasts free))
                wrong.1 (omega (arith, counter-tracked D up w c lasts free)))
        | no p ↦
            rw (redeem_over D up c pin now w (D.encode rec) free h (omega arith), try_pins)
              (try_pins_over c rest w)
      ]

  -- While Redis answers, with a time to live that is not 0 and nothing but a count under the key of the
  -- attempts, a connect id whose token has seen no attempt is given up after six or more
  -- redeems with wrong PINs: a redeem that follows is refused as invalid, with any PIN, the right one
  -- included.
  pub lockout :
      (c pin : String) (now : ℕ) (guesses : List (String × ℕ)) (w : World D) (rec : TokenRecord)
      → 0 < D.ttl
      → redis.countable w.store (String.◌++◌ "session:attempts:" c) ≡ true
      → redis.text w.store (token_key c) ≡ some (D.encode rec)
      → redis.counter w.store (String.◌++◌ "session:attempts:" c) ≡ 0
      → All (λ g. hash_pin D g.0 ≢ rec.pin_hash) guesses
      → max_redeem_tries < length guesses
      → redeem D c pin now (try_pins c guesses w) ≡ (try_pins c guesses w, err invalid_token)
  lockout c pin now guesses w rec lasts free h z wrong n =
      redeem_unknown D up c pin now (try_pins c guesses w)
        (lockout_from c guesses w rec lasts free h (omega arith) wrong (omega arith))
