-- ===== src/Session/Handlers/Statuses.antt =====
-- What the answers of the session handlers say.
use Prim.Native.String
use ar_app.Base.{true, ℕ, ◌<◌, ◌≤◌, ◌≡◌, ◌≢◌, refl, none, some, String, string_eq, arith}
use ar_app.Platform.Redis.{Answers}
use ar_app.Identity.Handlers.{refused, Body, body}
use ar_app.Session.Service.{
  TokenRecord, Deps, token_key, attempts_key, max_redeem_tries, World, hash_pin, redeem,
}
use ar_app.Session.Service.Replies.{redeem_unknown, redeem_wrong, redeem_over}
use ar_app.Session.Handlers.{RedeemRequest, joined, serve_redeem}

module _ (D : Deps) where
  open D use {redis}

  abbrev pub request : String → String → Body RedeemRequest
  request connect_id pin = body (record { connect_id = connect_id; pin = pin })

  serve_redeem-joined :
      (c pin : String) (now : ℕ) (w : World D)
      → c ≢ ""
      → pin ≢ ""
      → serve_redeem D now (request c pin) w ≡ joined D (redeem D c pin now w)
  unfolding serve_redeem
  serve_redeem-joined c pin now w nc np =
      ground (arith, string_eq.beq_iff c "", string_eq.beq_iff pin "")

  module _ (up : Answers redis) where
    -- While Redis answers, a caller without the right PIN cannot tell a connect id that does not exist from
    -- one that does, as long as fewer than five attempts have been made on it and their key
    -- holds nothing but a count: the answers are equal,
    -- whatever the two worlds are.
    pub serve_redeem_blind :
        (c c' pin pin' : String) (now now' : ℕ) (w w' : World D) (rec : TokenRecord)
        → c ≢ ""
        → pin ≢ ""
        → c' ≢ ""
        → pin' ≢ ""
        → redis.text w.store (token_key c) ≡ none
        → redis.text w'.store (token_key c') ≡ some (D.encode rec)
        → redis.counter w'.store (String.◌++◌ "session:attempts:" c') < max_redeem_tries
        → redis.countable w'.store (String.◌++◌ "session:attempts:" c') ≡ true
        → hash_pin D pin' ≢ rec.pin_hash
        → (serve_redeem D now (request c pin) w).1 ≡ (serve_redeem D now' (request c' pin') w').1
    serve_redeem_blind c c' pin pin' now now' w w' rec nc np nc' np' h h' n free ne =
        rw
          (
            serve_redeem-joined c pin now w nc np,
            serve_redeem-joined c' pin' now' w' nc' np',
            redeem_unknown D up c pin now w h,
            redeem_wrong D up c' pin' now' w' rec free h' n ne,
          )
          refl

    -- While Redis answers, the sixth and later attempts on a connect id that has a token are answered by
    -- status 429, also with the right PIN.
    pub serve_redeem_over :
        (c pin : String) (now : ℕ) (w : World D) (raw : String)
        → c ≢ ""
        → pin ≢ ""
        → redis.text w.store (token_key c) ≡ some raw
        → redis.countable w.store (attempts_key c) ≡ true
        → max_redeem_tries ≤ redis.counter w.store (attempts_key c)
        → (serve_redeem D now (request c pin) w).1 ≡ refused 429 "too many attempts"
    serve_redeem_over c pin now w raw nc np h free n =
        rw (serve_redeem-joined c pin now w nc np, redeem_over D up c pin now w raw free h n) refl
