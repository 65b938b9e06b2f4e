-- ===== src/Session/Mint/Minted.antt =====
-- What a minted token is, and that it can be redeemed.
use Prim.Native.String
use ar_app.Base.{
  ℕ, zero, suc, ◌+◌, ◌<◌, ◌≡◌, refl, sym, ◌∙◌, ap, ◌⊎◌, inl, inr, Bool, true, false, none, some, [],
  String, nat_eq, string_eq, arith, beq_refl,
}
use ar_app.Base.Map.{lookup, lookup-insert}
use ar_app.Platform.Uuid.{Uuid}
use ar_app.Platform.Redis.{Answers}
use ar_app.Signaling.Role.{agent, phone}
use ar_app.Session.Table.Life.{lookup-activate}
use ar_app.Session.Table.{Session, active, pending, insert_pending}
use ar_app.Session.Service.{
  connect_id_digits, pin_digits, TokenRecord, Token, Deps, Result, ok, token_key, max_redeem_tries,
  World, M, exec, failure, redeem,
}
use ar_app.Session.Service.Commands.{>>=-eq-ok, exec-ok}
use ar_app.Session.Service.Acceptance.{redeem_succeeds}
use ar_app.Session.Mint.{
  digits, insert_session, record_of, store_token, finish, settle, mint_try, mint, mint_tries,
  roll_back,
}

module _ (D : Deps) where
  open D use {redis, uuids, ttl}

  abbrev pub pending_row : Uuid → Uuid → String → ℕ → Session
  pending_row org_id agent_id connect_id now = record {
    org_id = org_id;
    agent_id = agent_id;
    connect_id = connect_id;
    status = pending;
    created_at = now;
    connected_at = none;
    ended_at = none;
  }

  -- What holds of the world after a mint that returned a token.
  pub record Minted (org_id agent_id : Uuid) (pin : String) (now : ℕ) (w' : World D) (t : Token)
      : Type 0 where
    pub shown : t.pin ≡ pin
    pub expires : t.expires_at ≡ now + ttl
    pub stored :
        redis.text w'.store (token_key t.connect_id)
        ≡ some (D.encode (record_of D t.session_id org_id agent_id pin))
    pub recorded :
        lookup t.session_id w'.sessions ≡ some (pending_row org_id agent_id t.connect_id now)
    pub issued : D.issue_signaling (uuids.to_text t.session_id) agent ≡ some t.signaling_token

  -- The two parts of a result that is known in its second.
  pair_eq : {A : Type 0} {r : World D × Result A} {a : A} → r.1 ≡ ok a → r ≡ (r.0, ok a)
  pair_eq {r} h = ap (λ x. (r.0, x)) h

  insert_session-ok :
      (org_id agent_id : Uuid) (c : String) (now : ℕ) (w : World D) (id : Uuid)
      → (insert_session D org_id agent_id c now w).1 ≡ ok id
      → lookup id (insert_session D org_id agent_id c now w).0.sessions
        ≡ some (pending_row org_id agent_id c now)
  unfolding insert_session insert_pending
  insert_session-ok org_id agent_id c now w id h =
      let new = D.new_id w.sessions in
      let row = pending_row org_id agent_id c now in
      let (u, done, rest) =
        >>=-eq-ok D (exec D (insert_pending new org_id agent_id c now) (failure "create session")) _
          w _ (pair_eq h) in
      ground (
        arith,
        exec-ok D (insert_pending new org_id agent_id c now) (failure "create session") w u done,
        lookup-insert new new row w.sessions,
        beq_refl new,
      )

  store_token-ok :
      (c : String) (rec : TokenRecord) (w : World D)
      → (store_token D c rec w).1 ≡ ok true
      → redis.text (store_token D c rec w).0.store (token_key c) ≡ some (D.encode rec)
  unfolding store_token
  store_token-ok c rec w h = ground (
    arith,
    redis.text-set_nx w.store (token_key c) (D.encode rec) ttl (token_key c),
    beq_refl (token_key c),
  )

  sessions-store_token :
      (c : String) (rec : TokenRecord) (w : World D)
      → (store_token D c rec w).0.sessions ≡ w.sessions
  unfolding store_token
  sessions-store_token c rec w = refl

  finish-ok :
      (c pin : String) (now : ℕ) (id : Uuid) (w w' : World D) (t : Token)
      → finish D c pin now id w ≡ (w', ok t)
      → (w' ≡ w)
        × (t.session_id ≡ id)
        × (t.connect_id ≡ c)
        × (t.pin ≡ pin)
        × (t.expires_at ≡ now + ttl)
        × (D.issue_signaling (uuids.to_text id) agent ≡ some t.signaling_token)
  unfolding finish
  finish-ok c pin now id w w' t h = ground arith

  settle_or_retry :
      (stored : Bool) (retry : M D Token) (c pin : String) (now : ℕ) (id : Uuid) (w w' : World D)
      (t : Token)
      → settle D stored retry c pin now id w ≡ (w', ok t)
      → ((stored ≡ true) × (finish D c pin now id w ≡ (w', ok t)))
        ⊎ ((w1 : World D) × (retry w1 ≡ (w', ok t)))
  unfolding settle
  settle_or_retry true retry c pin now id w w' t h = inl (refl, h)
  settle_or_retry false retry c pin now id w w' t h =
      let (u, done, rest) = >>=-eq-ok D (roll_back D id) _ w w' h in
      inr ((roll_back D id w).0, rest)

  mint_try-Minted :
      (tries : ℕ) (org_id agent_id : Uuid) (pin : String) (now : ℕ) (w w' : World D) (t : Token)
      → mint_try D tries org_id agent_id pin now w ≡ (w', ok t)
      → Minted org_id agent_id pin now w' t
  unfolding mint_try
  mint_try-Minted zero org_id agent_id pin now w w' t h = cc
  mint_try-Minted (suc tries) org_id agent_id pin now w w' t h =
      let (c, drawn, h1) = >>=-eq-ok D (digits D connect_id_digits) _ w w' h in
      let w1 = (digits D connect_id_digits w).0 in
      let (id, made, h2) = >>=-eq-ok D (insert_session D org_id agent_id c now) _ w1 w' h1 in
      let w2 = (insert_session D org_id agent_id c now w1).0 in
      let (stored, put, h3) =
        >>=-eq-ok D (store_token D c (record_of D id org_id agent_id pin)) _ w2 w' h2 in
      let w3 = (store_token D c (record_of D id org_id agent_id pin) w2).0 in
      elim (settle_or_retry stored _ c pin now id w3 w' t h3) [
        | inr (w4, e) ↦ mint_try-Minted tries org_id agent_id pin now w4 w' t e
        | inl (yes_stored, e) ↦
            let (same, a, b, p, x, i) = finish-ok c pin now id w3 w' t e in
            record {
              shown = p;
              expires = x;
              stored =
                  ap (λ (y : World D). redis.text y.store (token_key t.connect_id)) same
                  ∙ ap (λ y. redis.text w3.store (token_key y)) b
                  ∙ store_token-ok c (record_of D id org_id agent_id pin) w2
                      (put ∙ ap ok yes_stored)
                  ∙ ap (λ y. some (D.encode (record_of D y org_id agent_id pin))) (sym a);
              recorded = ground (
                arith,
                insert_session-ok org_id agent_id c now w1 id made,
                sessions-store_token c (record_of D id org_id agent_id pin) w2,
              );
              issued = ap (λ y. D.issue_signaling (uuids.to_text y) agent) a ∙ i;
            }
      ]

  -- A mint that returns a token, after whatever collisions and failures, has left the record of that
  -- token in Redis under its connect id, with the hash of its PIN, and a pending row of the agent in
  -- the sessions table under its session id; the token's expiry is the time to live from now, and its
  -- signaling token was issued for the session's room and the agent.
  pub mint-Minted :
      (org_id agent_id : Uuid) (now : ℕ) (w w' : World D) (t : Token)
      → mint D org_id agent_id now w ≡ (w', ok t)
      → Minted org_id agent_id t.pin now w' t
  unfolding mint
  mint-Minted org_id agent_id now w w' t h =
      let (pin, drawn, h1) = >>=-eq-ok D (digits D pin_digits) _ w w' h in
      let m =
        mint_try-Minted mint_tries org_id agent_id pin now (digits D pin_digits w).0 w' t h1 in
      record {
        shown = refl;
        expires = m.expires;
        stored =
            m.stored
            ∙ ap (λ p. some (D.encode (record_of D t.session_id org_id agent_id p))) (sym m.shown);
        recorded = m.recorded;
        issued = m.issued;
      }

  -- A minted token can be redeemed with its connect id and its PIN: unless five attempts were made on
  -- the connect id before, if the key of its attempts holds nothing but a count, and while Redis, Postgres and the issuer work, the phone gets the join
  -- information of the very session that was minted, and the session becomes active.
  pub redeem-mint :
      (org_id agent_id : Uuid) (now later : ℕ) (w w' : World D) (t : Token) (token : String)
      → mint D org_id agent_id now w ≡ (w', ok t)
      → Answers redis
      → redis.countable w'.store (String.◌++◌ "session:attempts:" t.connect_id) ≡ true
      → redis.counter w'.store (String.◌++◌ "session:attempts:" t.connect_id) < max_redeem_tries
      → w'.outages ≡ []
      → D.issue_signaling (uuids.to_text t.session_id) phone ≡ some token
      → (w'' : World D) × (redeem D t.connect_id t.pin later w' ≡ (
        w'',
        ok (record {
          session_id = t.session_id;
          room = uuids.to_text t.session_id;
          signaling_token = token;
          ice_servers = D.ice_servers later (uuids.to_text t.session_id);
        }),
      ))
        × (lookup t.session_id w''.sessions
            ≡ some (record (pending_row org_id agent_id t.connect_id now) {
              status = active;
              connected_at = some later;
            }))
  redeem-mint org_id agent_id now later w w' t token h up free few o i =
      let m = mint-Minted org_id agent_id now w w' t h in
      let (w'', redeemed, gone, table) =
        redeem_succeeds D up t.connect_id t.pin later w'
          (record_of D t.session_id org_id agent_id t.pin) t.session_id token free m.stored few refl
          (uuids.parse-to_text t.session_id) o i in
      (
        w'',
        redeemed,
        ap (lookup t.session_id) table
            ∙ (lookup-activate t.session_id t.session_id later w'.sessions _ m.recorded
                ∙ rw (beq_refl t.session_id)),
      )
