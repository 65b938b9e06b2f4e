-- ===== src/Examples/Tokens.antt =====
-- Runs of the issuers and of the parsers, with a library that signs one payload.
use ar_app.Base.{
  ◌≡◌, inl, inr, refl, ◌+◌, ◌<◌, ◌≤◌, Bool, true, false, ◌&&◌, Option, none, some, String, ℕ, ◌==◌,
  nat_eq, string_eq, arith, ltb, if◌then◌else◌, Option-cases,
}
use ar_app.Platform.Jwt.{Payload, Method, hmac, other, KeyFunc, Jwt}
use ar_app.Signaling.Role.{phone, role_text}
use ar_app.Signaling.Handler.{Request, admitted, serve_ws}
use ar_app.Auth.{
  Issuer, Principal, authenticated, kind_access, user_payload, signaling_payload, issue_signaling,
  parse, signaling_auth, bearer_token, middleware,
}
use ar_app.Auth.Rooms.{serve_ws-issue}
use ar_app.Auth.Tokens.{IsAuthentic, middleware-IsAuthentic}
use ar_app.Examples.Codec.{unary}

-- The tests of all fields.
abbrev same_texts : Payload → Payload → Bool
same_texts p q =
    p.org == q.org
    && (p.room == q.room
        && (p.role == q.role && (p.kind == q.kind && (p.subject == q.subject && p.id == q.id))))

abbrev same_numbers : Payload → Payload → Bool
same_numbers p q = p.ver == q.ver && (p.issued_at == q.issued_at && p.expires_at == q.expires_at)

same_payload : (p q : Payload) → same_texts p q ≡ true → same_numbers p q ≡ true → p ≡ q
same_payload p q a b = ground (
  arith,
  string_eq.beq_iff p.org q.org,
  string_eq.beq_iff p.room q.room,
  string_eq.beq_iff p.role q.role,
  string_eq.beq_iff p.kind q.kind,
  string_eq.beq_iff p.subject q.subject,
  string_eq.beq_iff p.id q.id,
)

module _ (text : String) (key : String) (only : Payload) where
  abbrev pub signs : String → Payload → Option String
  signs secret p =
      if secret == key && (same_texts p only && same_numbers p only) then some text else none

  abbrev has_key : Option String → Bool
  has_key none = false
  has_key (some k) = k == key

  abbrev pub parses : KeyFunc → ℕ → String → Option Payload
  parses keys now raw =
      if (raw == text && has_key (keys hmac)) && ltb now only.expires_at then some only else none

  abbrev is_hmac : Method → Bool
  is_hmac hmac = true
  is_hmac other = false

  abbrev pub checks : Method → String → String → Bool
  checks m k raw = is_hmac m && (k == key && raw == text)

  signs-eq :
      (secret raw : String) (p : Payload)
      → signs secret p ≡ some raw
      → (secret ≡ key) × (raw ≡ text) × (p ≡ only)
  signs-eq secret raw p h = (
    ground (arith, string_eq.beq_iff secret key),
    ground arith,
    same_payload p only (ground arith) (ground arith),
  )

  has_key_refl : (k : Option String) → k ≡ some key → has_key k ≡ true
  has_key_refl k h = ground (arith, string_eq.beq_iff key key)

  pub parses-signs :
      (keys : KeyFunc) (secret raw : String) (p : Payload) (now : ℕ)
      → signs secret p ≡ some raw
      → keys hmac ≡ some secret
      → now < p.expires_at
      → parses keys now raw ≡ some p
  parses-signs keys secret raw p now h k l =
      let (a, b, c) = signs-eq secret raw p h in
      ground (arith, string_eq.beq_iff raw text, has_key_refl (keys hmac))

  pub parses_expired :
      (keys : KeyFunc) (secret raw : String) (p : Payload) (now : ℕ)
      → signs secret p ≡ some raw
      → p.expires_at ≤ now
      → parses keys now raw ≡ none
  parses_expired keys secret raw p now h l = let (a, b, c) = signs-eq secret raw p h in ground arith

  pub parses_checked :
      (keys : KeyFunc) (raw : String) (p : Payload) (now : ℕ)
      → parses keys now raw ≡ some p
      → (m : Method) × (k : String) × (keys m ≡ some k) × (checks m k raw ≡ true)
  parses_checked keys raw p now h = elim (Option-cases (keys hmac)) [
    | inl e ↦ ground arith
    | inr (k, e) ↦ (hmac, k, e, ground arith)
  ]

  abbrev pub signer : Jwt
  signer = record {
    sign = signs;
    parse = parses;
    verifies = checks;
    parse-sign = parses-signs;
    parse_expired = parses_expired;
    parse_verified = parses_checked;
  }

abbrev pub issuer : Issuer
issuer = record { secret = "s"; access_ttl = 900; refresh_ttl = 9000; signaling_ttl = 60 }

-- A payload to name the functions that make the payloads.
abbrev pub blank : Payload
blank = record {
  org = "";
  room = "";
  role = "";
  kind = "";
  ver = 0;
  subject = "";
  issued_at = 0;
  expires_at = 0;
  id = "";
}

abbrev opener : Jwt
opener = signer "tok" "s" (signaling_payload (signer "" "" blank) issuer "11" "phone" 100 "j")

abbrev pub user_signer : Jwt
user_signer =
    signer "usr" "s"
      (user_payload (signer "" "" blank) unary issuer kind_access 1 2 "admin" 3 100 "j")

opens_room : issue_signaling opener issuer "11" "phone" 100 "j" ≡ some "tok"
unfolding issue_signaling
opens_room = refl

abbrev request : Request
request = record { room = "11"; role = "phone"; header_token = "tok"; query_token = "" }

admits :
    serve_ws (λ s. true) (some (signaling_auth opener issuer 120)) true request
    ≡ admitted "11" phone
unfolding serve_ws signaling_auth
admits = refl

serve_ws-issue_example :
    (◌≡◌ {A = String} "11" "11") × (role_text phone ≡ "phone") × (120 < 100 + issuer.signaling_ttl)
serve_ws-issue_example =
    serve_ws-issue opener issuer (λ s. true) true request "11" "11" "phone" phone 100 120 "j"
      opens_room admits

-- Texts without case and without blanks.
abbrev pub fold_eq : String → String → Bool
fold_eq a b = a == b

abbrev pub trim : String → String
trim s = s

abbrev pub caller : Principal
caller = record { user_id = 1; org_id = 2; role = "admin" }

lets_in : middleware fold_eq trim user_signer unary issuer 120 "Bearer usr" ≡ authenticated caller
unfolding middleware bearer_token parse
lets_in = refl

middleware-IsAuthentic_example :
    IsAuthentic user_signer unary issuer fold_eq trim 120 "Bearer usr" caller
middleware-IsAuthentic_example =
    middleware-IsAuthentic user_signer unary issuer fold_eq trim 120 "Bearer usr" caller lets_in
