-- ===== src/Auth/Rooms.antt =====
-- What a signaling token opens.
use ar_app.Base.{
  ℕ, ◌+◌, ◌≤◌, ◌<◌, ◌≡◌, ◌≢◌, refl, sym, ◌∙◌, ◌↔◌, Bool, true, false, ◌&&◌, none, some, String,
  ◌==◌, string_eq, arith, dec_lt,
}
use ar_app.Platform.Uuid.{Uuid, Uuids}
use ar_app.Platform.Jwt.{Payload, Jwt}
use ar_app.Signaling.Role.{Role, role_text}
use ar_app.Signaling.Handler.{Request, admitted, serve_ws, token_of}
use ar_app.Signaling.Handler.Admission.{serve_ws-authorized_iff}
use ar_app.Auth.{
  Issuer, key_func, kind_signaling, signaling_payload, issue_signaling, user_payload, issue,
  signaling_auth,
}

text_same : (a b : String) → ((a == b) ≡ true) ↔ (a ≡ b)
text_same a b = string_eq.beq_iff a b

module _ (J : Jwt) (i : Issuer) where
  auth_parsed :
      (room role token : String) (later : ℕ) (p : Payload)
      → J.parse (key_func i) later token ≡ some p
      → signaling_auth J i later room role token
        ≡ (p.kind == kind_signaling && (p.room == room && p.role == role))
  unfolding signaling_auth
  auth_parsed room role token later p e = ground arith

  auth_failed :
      (room role token : String) (later : ℕ)
      → J.parse (key_func i) later token ≡ none
      → signaling_auth J i later room role token ≡ false
  unfolding signaling_auth
  auth_failed room role token later e = ground arith

  -- Until it expires, a signaling token that was issued here opens exactly the room and the role that it was issued for.
  pub signaling_auth-issue :
      (room role room' role' : String) (now later : ℕ) (id token : String)
      → issue_signaling J i room role now id ≡ some token
      → later < now + i.signaling_ttl
      → (signaling_auth J i later room' role' token ≡ true) ↔ ((room ≡ room') × (role ≡ role'))
  unfolding issue_signaling
  signaling_auth-issue room role room' role' now later id token e h =
      let p = signaling_payload J i room role now id in
      rw
        (auth_parsed room' role' token later p
          (J.parse-sign (key_func i) i.secret token p later e refl h))
        (ground (
          arith,
          text_same room room',
          text_same role role',
          text_same kind_signaling kind_signaling,
        ))

  -- From its expiry on it opens nothing.
  pub signaling_auth_expired :
      (room role room' role' : String) (now later : ℕ) (id token : String)
      → issue_signaling J i room role now id ≡ some token
      → now + i.signaling_ttl ≤ later
      → signaling_auth J i later room' role' token ≡ false
  unfolding issue_signaling
  signaling_auth_expired room role room' role' now later id token e h =
      auth_failed room' role' token later (
        J.parse_expired (key_func i) i.secret token (signaling_payload J i room role now id) later e
          h)

  -- A parsed token that was signed here is the payload that was signed, or does not parse.
  auth_signed_kind :
      (p : Payload) (room role token : String) (later : ℕ)
      → J.sign i.secret p ≡ some token
      → p.kind ≢ kind_signaling
      → signaling_auth J i later room role token ≡ false
  auth_signed_kind p room role token later e k = elim (dec_lt later p.expires_at) [
    | yes live ↦
        auth_parsed room role token later p
          (J.parse-sign (key_func i) i.secret token p later e refl live)
        ∙ ground (arith, text_same p.kind kind_signaling)
    | no dead ↦
        auth_failed room role token later
          (J.parse_expired (key_func i) i.secret token p later e (omega arith))
  ]

  -- A token that Issue made, of any kind but the signaling one, opens no room in any role, at any time.
  pub signaling_auth_user_token :
      (U : Uuids) (kind room role : String) (user org : Uuid) (user_role : String)
      (ver now later exp : ℕ) (id token : String)
      → issue J U i kind user org user_role ver now id ≡ some (token, exp)
      → kind ≢ kind_signaling
      → signaling_auth J i later room role token ≡ false
  unfolding issue
  signaling_auth_user_token U kind room role user org user_role ver now later exp id token e k =
      auth_signed_kind (user_payload J U i kind user org user_role ver now id) room role token later
        (ground arith) k

  -- Whoever ServeWS admits on the strength of a signaling token that was issued here is admitted to the
  -- room and in the role of that token, before the token's expiry.
  pub serve_ws-issue :
      (is_uuid : String → Bool) (upgrades : Bool) (r : Request) (room room' role : String)
      (role' : Role) (now later : ℕ) (id : String)
      → issue_signaling J i room role now id ≡ some (token_of r)
      → serve_ws is_uuid (some (signaling_auth J i later)) upgrades r ≡ admitted room' role'
      → (room' ≡ room) × (role_text role' ≡ role) × (later < now + i.signaling_ttl)
  serve_ws-issue is_uuid upgrades r room room' role role' now later id e h =
      let (same, u, named, accepted, up) =
        (serve_ws-authorized_iff is_uuid (some (signaling_auth J i later)) upgrades r room' role').0
          h in
      elim (dec_lt later (now + i.signaling_ttl)) [
        | yes live ↦
            let (a, b) =
              (signaling_auth-issue room role r.room (role_text role') now later id (token_of r) e
                  live).0
                accepted in
            (sym (a ∙ same), sym b, live)
        | no dead ↦ ground (
          arith,
          signaling_auth_expired room role r.room (role_text role') now later id (token_of r) e
              (omega arith),
        )
      ]
