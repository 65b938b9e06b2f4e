-- ===== src/Session/Service/Acceptance.antt =====
-- The right PIN: what Redeem returns, and how often.
use Prim.Native.String
use ar_app.Base.{
  true, beq_refl, ℕ, ◌<◌, ◌≡◌, refl, ◌∙◌, ap, none, some, [], String, string_eq, nat_eq, arith,
}
use ar_app.Platform.Uuid.{Uuid}
use ar_app.Platform.Redis.{Answers}
use ar_app.Signaling.Role.{phone}
use ar_app.Base.Map.{lookup}
use ar_app.Session.Table.{activate, Session, Table, active, pending}
use ar_app.Session.Table.Life.{lookup-activate}
use ar_app.Session.Service.{
  TokenRecord, JoinInfo, Deps, invalid_token, ok, err, token_key, attempts_key, max_redeem_tries,
  World, ◌>>=◌, load_token, track_attempt, verify, consume, hash_pin, invalidate, exec,
  redeem_loaded, redeem, redeem_both,
}
use ar_app.Session.Service.Commands.{verify-intro, >>=-ok}
use ar_app.Session.Service.Redeeming.{deleted, redeem-Redeemed}
use ar_app.Session.Service.Replies.{
  get_up, tracked, redeem_unknown, loaded_within, redeem_within, text-deleted, counter-deleted,
  countable-deleted,
}

module _ (D : Deps) (up : Answers D.redis) where
  open D use {redis, uuids}

  -- The world after a redeem that succeeds.
  abbrev pub redeemed : World D → String → Uuid → ℕ → World D
  redeemed w c id now = record (tracked D up w c) {
    store = deleted D (tracked D up w c).store c;
    sessions = activate id now w.sessions;
  }

  abbrev pub info_of : Uuid → String → ℕ → JoinInfo
  info_of id token now = record {
    session_id = id;
    room = uuids.to_text id;
    signaling_token = token;
    ice_servers = D.ice_servers now (uuids.to_text id);
  }

  row_activated :
      (id : Uuid) (now : ℕ) (t : Table) (row : Session)
      → lookup id t ≡ some row
      → row.status ≡ pending
      → lookup id (activate id now t)
        ≡ some (record row { status = active; connected_at = some now })
  row_activated id now t row l q = lookup-activate id id now t row l ∙ rw (beq_refl id, q) refl

  -- A row that is active already stays as it is.
  row_stays :
      (id : Uuid) (now : ℕ) (t : Table) (row : Session)
      → lookup id t ≡ some row
      → row.status ≡ active
      → lookup id (activate id now t) ≡ some row
  row_stays id now t row l q = lookup-activate id id now t row l ∙ rw (beq_refl id, q) refl

  accepted :
      (c pin : String) (now : ℕ) (w : World D) (rec : TokenRecord) (id : Uuid) (token : String)
      → hash_pin D pin ≡ rec.pin_hash
      → uuids.parse rec.session_id ≡ some id
      → w.outages ≡ []
      → D.issue_signaling (uuids.to_text id) phone ≡ some token
      → ◌>>=◌ D (verify D pin (D.encode rec)) (consume D c now) (tracked D up w c)
        ≡ (redeemed w c id now, ok (info_of id token now))
  unfolding consume invalidate exec track_attempt
  accepted c pin now w rec id token m p o i =
      rw (verify-intro D pin (D.encode rec) (tracked D up w c) rec id (D.decode-encode rec) m p)
        (ground arith)

  pub redeem_succeeds :
      (c pin : String) (now : ℕ) (w : World D) (rec : TokenRecord) (id : Uuid) (token : String)
      → redis.countable w.store (attempts_key c) ≡ true
      → redis.text w.store (token_key c) ≡ some (D.encode rec)
      → redis.counter w.store (attempts_key c) < max_redeem_tries
      → hash_pin D pin ≡ rec.pin_hash
      → uuids.parse rec.session_id ≡ some id
      → w.outages ≡ []
      → D.issue_signaling (uuids.to_text id) phone ≡ some token
      → (w' : World D) × (redeem D c pin now w ≡ (w', ok (info_of id token now)))
        × (redis.text w'.store (token_key c) ≡ none)
        × (w'.sessions ≡ activate id now w.sessions)
  redeem_succeeds c pin now w rec id token free h n m p o i = (
    redeemed w c id now,
    redeem_within D up c pin now w (D.encode rec) free h n
        ∙ accepted c pin now w rec id token m p o i,
    text-deleted D up (tracked D up w c).store c,
    refl,
  )

  -- With the right PIN, at one of the first five attempts and with nothing but a count under the key of
  -- the attempts, while Redis and Postgres answer and the issuer signs, the phone gets the join information
  -- of its session, the token is gone, and the session's row, which was pending, becomes active and
  -- connected now.
  pub redeem_accepts :
      (c pin : String) (now : ℕ) (w : World D) (rec : TokenRecord) (id : Uuid) (token : String)
      (row : Session)
      → redis.countable w.store (String.◌++◌ "session:attempts:" c) ≡ true
      → redis.text w.store (token_key c) ≡ some (D.encode rec)
      → redis.counter w.store (String.◌++◌ "session:attempts:" c) < max_redeem_tries
      → hash_pin D pin ≡ rec.pin_hash
      → uuids.parse rec.session_id ≡ some id
      → w.outages ≡ []
      → D.issue_signaling (uuids.to_text id) phone ≡ some token
      → lookup id w.sessions ≡ some row
      → row.status ≡ pending
      → (w' : World D) × (redeem D c pin now w ≡ (w', ok (info_of id token now)))
        × (redis.text w'.store (token_key c) ≡ none)
        × (lookup id w'.sessions ≡ some (record row { status = active; connected_at = some now }))
  redeem_accepts c pin now w rec id token row free h n m p o i l q =
      let (w', joins, gone, table) = redeem_succeeds c pin now w rec id token free h n m p o i in
      (w', joins, gone, ap (lookup id) table ∙ row_activated id now w.sessions row l q)

  outages-tracked : (w : World D) (c : String) → (tracked D up w c).outages ≡ w.outages
  unfolding track_attempt
  outages-tracked w c = ground arith

  load_known :
      (c : String) (w : World D) (raw : String)
      → redis.text w.store (token_key c) ≡ some raw
      → load_token D c w ≡ (w, ok raw)
  unfolding load_token
  load_known c w raw h = rw (get_up D up w.store (token_key c), h)

  -- Two requests with the right PIN whose GETs both come before either of them deletes the token, at
  -- one of the first five attempts, with nothing but a count under the key of the attempts, and while
  -- Redis, Postgres and the issuer work, both get the join information of the session, which the first of
  -- them activates: a token is not single-use across concurrent requests.
  pub redeem_race :
      (c pin : String) (now later : ℕ) (w : World D) (rec : TokenRecord) (id : Uuid)
      (token : String) (row : Session)
      → redis.countable w.store (String.◌++◌ "session:attempts:" c) ≡ true
      → redis.text w.store (token_key c) ≡ some (D.encode rec)
      → redis.counter w.store (String.◌++◌ "session:attempts:" c) < max_redeem_tries
      → hash_pin D pin ≡ rec.pin_hash
      → uuids.parse rec.session_id ≡ some id
      → w.outages ≡ []
      → D.issue_signaling (uuids.to_text id) phone ≡ some token
      → lookup id w.sessions ≡ some row
      → row.status ≡ pending
      → (w' : World D) × (redeem_both D c pin now later w
          ≡ (w', ok (info_of id token now, info_of id token later)))
        × (lookup id w'.sessions ≡ some (record row { status = active; connected_at = some now }))
  unfolding redeem_both
  redeem_race c pin now later w rec id token row free h n m p o i l q =
      let fresh = counter-deleted D up (tracked D up w c).store c in
      (
        redeemed (redeemed w c id now) c id later,
        >>=-ok D (load_token D c) _ w w (D.encode rec) (load_known c w (D.encode rec) h)
            ∙ >>=-ok D (load_token D c) _ w w (D.encode rec) (load_known c w (D.encode rec) h)
            ∙ >>=-ok D (redeem_loaded D c pin now (D.encode rec)) _ w (redeemed w c id now)
                (info_of id token now)
                (loaded_within D up c pin now w (D.encode rec) free n
                  ∙ accepted c pin now w rec id token m p o i)
            ∙ >>=-ok D (redeem_loaded D c pin later (D.encode rec)) _ (redeemed w c id now)
                (redeemed (redeemed w c id now) c id later) (info_of id token later)
                (loaded_within D up c pin later (redeemed w c id now) (D.encode rec)
                    (countable-deleted D up (tracked D up w c).store c) (omega arith)
                  ∙ accepted c pin later (redeemed w c id now) rec id token m p
                      (outages-tracked w c ∙ o) i),
        row_stays id later (activate id now w.sessions)
            (record row { status = active; connected_at = some now })
            (row_activated id now w.sessions row l q) refl,
      )

  -- After a redeem that returned join information, while Redis answers, a redeem of the same connect
  -- id that follows it, with any PIN, is refused as invalid.
  pub redeem_once :
      (c pin again : String) (now later : ℕ) (w w' : World D) (info : JoinInfo)
      → redeem D c pin now w ≡ (w', ok info)
      → redeem D c again later w' ≡ (w', err invalid_token)
  redeem_once c pin again now later w w' info h = redeem_unknown D up c again later w' (
      ap (λ s. redis.text s (token_key c)) (redeem-Redeemed D c pin now w w' info h).store
      ∙ text-deleted D up (tracked D up w c).store c)
