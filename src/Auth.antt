-- ===== src/Auth.antt =====
-- backend/internal/auth: issuing and parsing tokens (jwt.go) and the bearer middleware
-- (middleware.go), and the signaling authorizer of backend/cmd/server/main.go.
pub mod Tokens
pub mod Rooms
use ar_app.Base.{
  ℕ, ◌+◌, ◌≡◌, Bool, true, false, not, ◌&&◌, Option, none, some, String, ◌==◌, string_eq, ltb,
  if◌then◌else◌,
}
use Prim.Native.String.{len, slice}
use ar_app.Platform.Uuid.{Uuid, Uuids}
use ar_app.Platform.Jwt.{Payload, Method, hmac, other, KeyFunc, Jwt}

abbrev pub kind_access : String
kind_access = "access"

abbrev pub kind_refresh : String
kind_refresh = "refresh"

abbrev pub kind_signaling : String
kind_signaling = "signaling"

pub record Claims : Type 0 where
  pub org_id : String
  pub role : String
  pub kind : String
  pub ver : ℕ
  pub subject : String

pub record SignalingClaims : Type 0 where
  pub room : String
  pub role : String
  pub kind : String

pub record Issuer : Type 0 where
  pub secret : String
  pub access_ttl : ℕ
  pub refresh_ttl : ℕ
  pub signaling_ttl : ℕ

pub record Principal : Type 0 where
  pub user_id : Uuid
  pub org_id : Uuid
  pub role : String

-- The key function of both parsers: HMAC only.
abbrev pub key_func : Issuer → KeyFunc
key_func i hmac = some i.secret
key_func i other = none

-- The claims that a JSON object decodes to.
abbrev pub claims_of : Payload → Claims
claims_of p = record {
  org_id = p.org;
  role = p.role;
  kind = p.kind;
  ver = p.ver;
  subject = p.subject;
}

abbrev pub signaling_claims_of : Payload → SignalingClaims
signaling_claims_of p = record { room = p.room; role = p.role; kind = p.kind }

module _ (J : Jwt) where
  abbrev pub signaling_payload : Issuer → String → String → ℕ → String → Payload
  signaling_payload i room role now id = record {
    org = "";
    room = room;
    role = role;
    kind = kind_signaling;
    ver = 0;
    subject = "";
    issued_at = now;
    expires_at = now + i.signaling_ttl;
    id = id;
  }

  -- IssueSignaling; `id` is the fresh UUID of the token.
  unfoldable pub issue_signaling : Issuer → String → String → ℕ → String → Option String
  issue_signaling i room role now id = J.sign i.secret (signaling_payload i room role now id)

  abbrev signaling_only : Option Payload → Option SignalingClaims
  signaling_only none = none
  signaling_only (some p) = if p.kind == kind_signaling then some (signaling_claims_of p) else none

  unfoldable pub parse_signaling : Issuer → ℕ → String → Option SignalingClaims
  parse_signaling i now raw = signaling_only (J.parse (key_func i) now raw)

  abbrev pub ttl_of : Issuer → String → ℕ
  ttl_of i kind = if kind == kind_refresh then i.refresh_ttl else i.access_ttl

  module _ (U : Uuids) where
    abbrev pub user_payload : Issuer → String → Uuid → Uuid → String → ℕ → ℕ → String → Payload
    user_payload i kind user_id org_id role ver now id = record {
      org = U.to_text org_id;
      room = "";
      role = role;
      kind = kind;
      ver = ver;
      subject = U.to_text user_id;
      issued_at = now;
      expires_at = now + ttl_of i kind;
      id = id;
    }

    -- Issue: the token and its expiry.
    unfoldable pub issue :
        Issuer → String → Uuid → Uuid → String → ℕ → ℕ → String → Option (String × ℕ)
    issue i kind user_id org_id role ver now id =
        elim (J.sign i.secret (user_payload i kind user_id org_id role ver now id)) [
          | none ↦ none
          | some signed ↦ some (signed, now + ttl_of i kind)
        ]

  unfoldable pub parse : Issuer → ℕ → String → Option Claims
  parse i now raw = elim (J.parse (key_func i) now raw) [
    | none ↦ none
    | some p ↦ some (claims_of p)
  ]

  -- The authorizer that main.go gives to the signaling handler.
  unfoldable pub signaling_auth : Issuer → ℕ → String → String → String → Bool
  unfolding parse_signaling
  signaling_auth i now room role token = elim (parse_signaling i now token) [
    | none ↦ false
    | some claims ↦ claims.room == room && claims.role == role
  ]

pub data Verdict : Type 0 where
  unauthorized : String → Verdict
  authenticated : Principal → Verdict

abbrev pub bearer_prefix : String
bearer_prefix = "Bearer "

-- strings.EqualFold and strings.TrimSpace.
module _ (equal_fold : String → String → Bool) (trim_space : String → String) where
  unfoldable pub bearer_token : String → String
  bearer_token h =
      if ltb (len bearer_prefix) (len h) && equal_fold (slice h 0 (len bearer_prefix)) bearer_prefix
      then trim_space (slice h (len bearer_prefix) (len h))
      else ""

  -- Middleware: the error of a 401, or the principal that the next handler finds in its context.
  module _ (J : Jwt) (U : Uuids) where
    abbrev principal_of : Option Uuid → Option Uuid → String → Verdict
    principal_of none org role = unauthorized "invalid subject"
    principal_of (some user) none role = unauthorized "invalid org"
    principal_of (some user) (some org) role =
        authenticated (record { user_id = user; org_id = org; role = role })

    abbrev check_claims : Option Claims → Verdict
    check_claims none = unauthorized "invalid token"
    check_claims (some claims) =
        if claims.kind == kind_access
        then principal_of (U.parse claims.subject) (U.parse claims.org_id) claims.role
        else unauthorized "wrong token kind"

    unfoldable pub middleware : Issuer → ℕ → String → Verdict
    middleware i now header =
        if bearer_token header == ""
        then unauthorized "missing bearer token"
        else check_claims (parse J i now (bearer_token header))
