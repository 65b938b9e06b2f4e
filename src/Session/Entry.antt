-- ===== src/Session/Entry.antt =====
-- From the session service to the signaling handler: the tokens of Mint and Redeem, under the issuer
-- of backend/internal/auth, at the door of the signaling rooms.
use ar_app.Base.{
  ℕ, ◌+◌, ◌<◌, ◌≡◌, refl, sym, ◌∙◌, subst, Bool, true, false, Option, none, some, String, string_eq,
  arith,
}
use ar_app.Platform.Uuid.{Uuid}
use ar_app.Platform.Jwt.{Jwt}
use ar_app.Signaling.Role.{Role, agent, phone, role_text}
use ar_app.Signaling.Handler.{Request, admitted, token_of, serve_ws}
use ar_app.Signaling.Handler.Admission.{serve_ws-authorized_iff}
use ar_app.Auth.{Issuer, issue_signaling, signaling_auth}
use ar_app.Auth.Rooms.{signaling_auth-issue}
use ar_app.Session.Service.{Token, JoinInfo, Deps, ok, World, redeem}
use ar_app.Session.Service.Redeeming.{redeem-Redeemed}
use ar_app.Session.Mint.{mint}
use ar_app.Session.Mint.Minted.{mint-Minted}

-- uuid.Parse without its result.
abbrev is_some : Option Uuid → Bool
is_some none = false
is_some (some u) = true

-- The request of a client for a room, with its token in the header.
abbrev pub request_for : String → Role → String → Request
request_for room role token = record {
  room = room;
  role = role_text role;
  header_token = token;
  query_token = "";
}

module _ (D : Deps) (J : Jwt) (i : Issuer) (now : ℕ) (id : String) where
  open D use {uuids}

  abbrev pub is_uuid : String → Bool
  is_uuid s = is_some (uuids.parse s)

  header_first :
      (room token : String) (role : Role) → token_of (request_for room role token) ≡ token
  header_first room token role = ground (arith, string_eq.beq_iff token "")

  -- A token for the room of a session opens that room in its role.
  entered :
      (room token : String) (role : Role) (session : Uuid) (later : ℕ)
      → room ≡ uuids.to_text session
      → issue_signaling J i room (role_text role) now id ≡ some token
      → later < now + i.signaling_ttl
      → serve_ws is_uuid (some (signaling_auth J i later)) true (request_for room role token)
        ≡ admitted room role
  entered room token role session later r e live =
      (serve_ws-authorized_iff is_uuid (some (signaling_auth J i later)) true
          (request_for room role token) room role).1
        (
          refl,
          rw (r, uuids.parse-to_text session),
          refl,
          rw (header_first room token role) (
              (signaling_auth-issue J i room (role_text role) room (role_text role) now later id
                  token e live).1
                (refl, refl)),
          refl,
        )

  -- When the service signs with the issuer, the phone that a redeem has given join information to is
  -- admitted to the room of the session as the phone, with that token, until the token expires and if
  -- the upgrade succeeds.
  pub serve_ws-redeem :
      (c pin : String) (at later : ℕ) (w w' : World D) (info : JoinInfo)
      → ((room : String) (role : Role)
          → D.issue_signaling room role ≡ issue_signaling J i room (role_text role) now id)
      → redeem D c pin at w ≡ (w', ok info)
      → later < now + i.signaling_ttl
      → serve_ws is_uuid
          (some (signaling_auth J i later))
          true
          (request_for (uuids.to_text info.session_id) phone info.signaling_token)
        ≡ admitted (uuids.to_text info.session_id) phone
  serve_ws-redeem c pin at later w w' info signs h live =
      let r = redeem-Redeemed D c pin at w w' info h in
      entered (uuids.to_text info.session_id) info.signaling_token phone info.session_id later refl
        (sym (signs (uuids.to_text info.session_id) phone)
          ∙ subst (λ x. D.issue_signaling x phone ≡ some info.signaling_token) r.room r.issued)
        live

  -- When the service signs with the issuer, the agent that a mint has given a token to is admitted to
  -- the room of the session as the agent, with that token, until the token expires and if the upgrade
  -- succeeds.
  pub serve_ws-mint :
      (org_id agent_id : Uuid) (at later : ℕ) (w w' : World D) (t : Token)
      → ((room : String) (role : Role)
          → D.issue_signaling room role ≡ issue_signaling J i room (role_text role) now id)
      → mint D org_id agent_id at w ≡ (w', ok t)
      → later < now + i.signaling_ttl
      → serve_ws is_uuid
          (some (signaling_auth J i later))
          true
          (request_for (uuids.to_text t.session_id) agent t.signaling_token)
        ≡ admitted (uuids.to_text t.session_id) agent
  serve_ws-mint org_id agent_id at later w w' t signs h live =
      let m = mint-Minted D org_id agent_id at w w' t h in
      entered (uuids.to_text t.session_id) t.signaling_token agent t.session_id later refl
        (sym (signs (uuids.to_text t.session_id) agent) ∙ m.issued) live
