-- ===== src/Session/Service/Replies.antt =====
-- Redeem over a Redis that is up, branch by branch.
use ar_app.Base.{
  true, ℕ, ◌+◌, ◌≤◌, ◌<◌, ◌≡◌, ◌≢◌, ◌∙◌, ap, none, some, String, string_eq, nat_eq, arith, beq_refl,
}
use ar_app.Platform.Uuid.{Uuid}
use ar_app.Platform.Redis.{reply, Answers}
use ar_app.Session.Service.{
  TokenRecord, Deps, invalid_token, too_many_attempts, Result, ok, err, token_key, attempts_key,
  max_redeem_tries, World, ◌>>=◌, load_token, track_attempt, check_limit, verify, consume, hash_pin,
  invalidate, redeem_loaded, redeem, bind_result,
}
use ar_app.Session.Service.Commands.{verify_wrong}
use ar_app.Session.Service.Redeeming.{deleted}

module _ (D : Deps) (up : Answers D.redis) where
  open D use {redis, uuids}

  pub get_up : (s : redis.Store) (k : String) → redis.get s k ≡ reply (redis.text s k)
  get_up s k = let (v, e) = up.get_answers s k in e ∙ ap reply (redis.get_reply s k v e)

  -- The world after INCR and EXPIRE.
  abbrev pub tracked : World D → String → World D
  tracked w c = (track_attempt D c w).0

  pub track_up :
      (w : World D) (c : String)
      → redis.countable w.store (attempts_key c) ≡ true
      → (track_attempt D c w).1 ≡ ok (redis.counter w.store (attempts_key c) + 1)
  unfolding track_attempt
  track_up w c free =
      let (n, e) = up.incr_answers w.store (attempts_key c) free in
      ground (arith, redis.incr_reply w.store (attempts_key c) n e)

  pub countable-tracked :
      (w : World D) (c : String)
      → redis.countable w.store (attempts_key c) ≡ true
      → redis.countable (tracked w c).store (attempts_key c) ≡ true
  unfolding track_attempt
  countable-tracked w c free =
      let (n, e) = up.incr_answers w.store (attempts_key c) free in
      let s = (redis.incr w.store (attempts_key c)).0 in
      let kept = redis.countable-incr w.store (attempts_key c) (attempts_key c) ∙ free in
      ground (arith, kept, redis.countable-expire s (attempts_key c) D.ttl (attempts_key c) kept)

  pub counter-tracked :
      (w : World D) (c : String)
      → 0 < D.ttl
      → redis.countable w.store (attempts_key c) ≡ true
      → redis.counter (tracked w c).store (attempts_key c)
        ≡ redis.counter w.store (attempts_key c) + 1
  unfolding track_attempt
  counter-tracked w c lasts free =
      let (n, e) = up.incr_answers w.store (attempts_key c) free in
      ground (
        arith,
        redis.incr_reply w.store (attempts_key c) n e,
        redis.counter-incr w.store (attempts_key c) n (attempts_key c) e,
        redis.counter-expire (redis.incr w.store (attempts_key c)).0 (attempts_key c) D.ttl
            (attempts_key c) lasts,
        beq_refl (attempts_key c),
      )

  -- A connect id with no token is refused, and nothing changes.
  pub redeem_unknown :
      (c pin : String) (now : ℕ) (w : World D)
      → redis.text w.store (token_key c) ≡ none
      → redeem D c pin now w ≡ (w, err invalid_token)
  unfolding redeem load_token
  redeem_unknown c pin now w h = rw (get_up w.store (token_key c), h)

  pub redeem_known :
      (c pin : String) (now : ℕ) (w : World D) (raw : String)
      → redis.text w.store (token_key c) ≡ some raw
      → redeem D c pin now w ≡ redeem_loaded D c pin now raw w
  unfolding redeem load_token
  redeem_known c pin now w raw h = rw (get_up w.store (token_key c), h)

  -- Within the limit, what follows the GET is the check of the PIN and, if it passes, the rest.
  pub loaded_within :
      (c pin : String) (now : ℕ) (w : World D) (raw : String)
      → redis.countable w.store (attempts_key c) ≡ true
      → redis.counter w.store (attempts_key c) < max_redeem_tries
      → redeem_loaded D c pin now raw w ≡ ◌>>=◌ D (verify D pin raw) (consume D c now) (tracked w c)
  unfolding redeem_loaded check_limit
  loaded_within c pin now w raw free n = rw (track_up w c free) (ground arith)

  pub redeem_within :
      (c pin : String) (now : ℕ) (w : World D) (raw : String)
      → redis.countable w.store (attempts_key c) ≡ true
      → redis.text w.store (token_key c) ≡ some raw
      → redis.counter w.store (attempts_key c) < max_redeem_tries
      → redeem D c pin now w ≡ ◌>>=◌ D (verify D pin raw) (consume D c now) (tracked w c)
  redeem_within c pin now w raw free h n =
      redeem_known c pin now w raw h ∙ loaded_within c pin now w raw free n

  -- A wrong PIN is refused; the attempt is counted, and the token and the sessions stay.
  pub redeem_wrong :
      (c pin : String) (now : ℕ) (w : World D) (rec : TokenRecord)
      → redis.countable w.store (attempts_key c) ≡ true
      → redis.text w.store (token_key c) ≡ some (D.encode rec)
      → redis.counter w.store (attempts_key c) < max_redeem_tries
      → hash_pin D pin ≢ rec.pin_hash
      → redeem D c pin now w ≡ (tracked w c, err invalid_token)
  redeem_wrong c pin now w rec free h n ne =
      redeem_within c pin now w (D.encode rec) free h n
      ∙ ap (λ (r : World D × Result Uuid). bind_result D r.0 r.1 (consume D c now))
          (verify_wrong D pin (D.encode rec) (tracked w c) rec (D.decode-encode rec) ne)

  -- The store after the attempt that is one too many.
  abbrev pub cut_off : World D → String → World D
  cut_off w c = record (tracked w c) { store = deleted D (tracked w c).store c }

  -- From the sixth attempt on a redeem is refused whatever the PIN is, and the token and its attempts
  -- are deleted.
  pub redeem_over :
      (c pin : String) (now : ℕ) (w : World D) (raw : String)
      → redis.countable w.store (attempts_key c) ≡ true
      → redis.text w.store (token_key c) ≡ some raw
      → max_redeem_tries ≤ redis.counter w.store (attempts_key c)
      → redeem D c pin now w ≡ (cut_off w c, err too_many_attempts)
  unfolding redeem_loaded check_limit invalidate
  redeem_over c pin now w raw free h n =
      redeem_known c pin now w raw h ∙ rw (track_up w c free) (ground arith)

  pub text-deleted :
      (s : redis.Store) (c : String) → redis.text (deleted D s c) (token_key c) ≡ none
  text-deleted s c =
      let (n, e) = up.del_answers s (token_key c) (attempts_key c) in
      ground (
        arith,
        redis.text-del s (token_key c) (attempts_key c) n (token_key c) e,
        beq_refl (token_key c),
      )

  pub counter-deleted :
      (s : redis.Store) (c : String) → redis.counter (deleted D s c) (attempts_key c) ≡ 0
  counter-deleted s c =
      let (n, e) = up.del_answers s (token_key c) (attempts_key c) in
      ground (
        arith,
        redis.counter-del s (token_key c) (attempts_key c) n (attempts_key c) e,
        beq_refl (attempts_key c),
      )

  pub countable-deleted :
      (s : redis.Store) (c : String) → redis.countable (deleted D s c) (attempts_key c) ≡ true
  countable-deleted s c =
      let (n, e) = up.del_answers s (token_key c) (attempts_key c) in
      ground (
        arith,
        redis.countable-del s (token_key c) (attempts_key c) n (attempts_key c) e,
        beq_refl (attempts_key c),
      )
