-- ===== src/Session/Service/Redeeming.antt =====
-- What a redeemed token shows, and what a redeem leaves behind.
use ar_app.Base.{ℕ, ◌<◌, ◌≡◌, sym, ◌∙◌, ap, some, String, string_eq, nat_eq, arith}
use ar_app.Platform.Uuid.{Uuid}
use ar_app.Signaling.Role.{phone}
use ar_app.Session.Table.{activate}
use ar_app.Session.Service.{
  TokenRecord, JoinInfo, Deps, ok, token_key, attempts_key, max_redeem_tries, World, load_token,
  track_attempt, check_limit, verify, consume, hash_pin, redeem_loaded, redeem,
}
use ar_app.Session.Service.Commands.{
  >>=-eq-ok, load_token-ok, track_attempt-ok, sessions-track_attempt, check_limit-ok, verify-ok,
  verify-world,
}

module _ (D : Deps) where
  open D use {redis, uuids}

  -- The store after DEL of a token and its attempts.
  abbrev pub deleted : redis.Store → String → redis.Store
  deleted s c = (redis.del s (token_key c) (attempts_key c)).0

  pub consume-ok :
      (c : String) (now : ℕ) (id : Uuid) (w w' : World D) (info : JoinInfo)
      → consume D c now id w ≡ (w', ok info)
      → (info.session_id ≡ id)
        × (info.room ≡ uuids.to_text id)
        × (D.issue_signaling info.room phone ≡ some info.signaling_token)
        × (w'.sessions ≡ activate id now w.sessions)
        × (w'.store ≡ deleted w.store c)
  unfolding consume
  consume-ok c now id w w' info h = ground arith

  -- What holds of the world before and after a redeem that returned join information.
  pub record Redeemed (c pin : String) (now : ℕ) (w w' : World D) (info : JoinInfo) : Type 0 where
    pub raw : String
    pub rec : TokenRecord
    pub stored : redis.text w.store (token_key c) ≡ some raw
    pub decoded : D.decode raw ≡ some rec
    pub matched : hash_pin D pin ≡ rec.pin_hash
    pub allowed : redis.counter w.store (attempts_key c) < max_redeem_tries
    pub parsed : uuids.parse rec.session_id ≡ some info.session_id
    pub room : info.room ≡ uuids.to_text info.session_id
    pub issued : D.issue_signaling info.room phone ≡ some info.signaling_token
    pub sessions : w'.sessions ≡ activate info.session_id now w.sessions
    pub store : w'.store ≡ deleted (track_attempt D c w).0.store c

  redeem_loaded-ok :
      (c pin : String) (now : ℕ) (raw : String) (w w' : World D) (info : JoinInfo)
      → redis.text w.store (token_key c) ≡ some raw
      → redeem_loaded D c pin now raw w ≡ (w', ok info)
      → Redeemed c pin now w w' info
  unfolding redeem_loaded
  redeem_loaded-ok c pin now raw w w' info stored h =
      let (n, counted, h1) = >>=-eq-ok D (track_attempt D c) _ w w' h in
      let w1 = (track_attempt D c w).0 in
      let (u, below, h2) = >>=-eq-ok D (check_limit D c n) _ w1 w' h1 in
      let (small, same) = check_limit-ok D c n w1 u below in
      let (id, verified, h3) = >>=-eq-ok D (verify D pin raw) _ (check_limit D c n w1).0 w' h2 in
      let (rec, decoded, matched, parsed) = verify-ok D pin raw _ id verified in
      let w2 = (verify D pin raw (check_limit D c n w1).0).0 in
      let same2 = verify-world D pin raw (check_limit D c n w1).0 ∙ same in
      let (a, b, i, t, s) = consume-ok c now id w2 w' info h3 in
      record {
        raw = raw;
        rec = rec;
        stored = stored;
        decoded = decoded;
        matched = matched;
        allowed = omega (arith, track_attempt-ok D c w n counted);
        parsed = parsed ∙ ap some (sym a);
        room = b ∙ ap uuids.to_text (sym a);
        issued = i;
        sessions =
            t
            ∙ ap (λ x. activate x now w2.sessions) (sym a)
            ∙ ap (λ (x : World D). activate info.session_id now x.sessions) same2
            ∙ ap (activate info.session_id now) (sessions-track_attempt D c w);
        store = s ∙ ap (λ (x : World D). deleted x.store c) same2;
      }

  -- A redeem that returns join information, whatever fails on the way, was given the PIN whose hash
  -- is in the record that Redis held under the connect id, at one of the first five attempts that
  -- Redis counted for it. The information names the session of that record, whose id is the room, and
  -- the signaling token was issued for that room and the phone. The session was activated, and DEL was
  -- sent for the token and its attempts.
  pub redeem-Redeemed :
      (c pin : String) (now : ℕ) (w w' : World D) (info : JoinInfo)
      → redeem D c pin now w ≡ (w', ok info)
      → Redeemed c pin now w w' info
  unfolding redeem load_token
  redeem-Redeemed c pin now w w' info h =
      let (raw, got, h1) = >>=-eq-ok D (load_token D c) _ w w' h in
      redeem_loaded-ok c pin now raw w w' info (load_token-ok D c w raw got) h1
