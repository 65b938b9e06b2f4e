-- ===== src/Auth/Tokens.antt =====
-- Which tokens authenticate a request.
use ar_app.Base.{
  ℕ, ◌+◌, ◌≡◌, ◌≢◌, refl, ◌∙◌, ◌↔◌, inl, inr, Bool, true, none, some, String, ◌==◌, string_eq,
  arith, if◌then◌else◌, Option-cases, dec_lt, ltb, lt→ltb,
}
use ar_app.Platform.Uuid.{Uuid, Uuids}
use ar_app.Platform.Jwt.{Payload, Method, hmac, other, Jwt}
use ar_app.Auth.{
  Issuer, Claims, Principal, unauthorized, authenticated, key_func, kind_access, claims_of,
  user_payload, ttl_of, issue, parse, bearer_token, middleware,
}

text_same : (a b : String) → ((a == b) ≡ true) ↔ (a ≡ b)
text_same a b = string_eq.beq_iff a b

module _ (J : Jwt) (U : Uuids) (i : Issuer) where
  -- The key function gives a key to HMAC alone, and that is the secret.
  hmac_only :
      (m : Method) (key token : String)
      → key_func i m ≡ some key
      → J.verifies m key token ≡ true
      → J.verifies hmac i.secret token ≡ true
  hmac_only hmac key token k v = ground arith
  hmac_only other key token k v = cc

  issue_inv :
      (kind : String) (user org : Uuid) (role : String) (ver now exp : ℕ) (id token : String)
      → issue J U i kind user org role ver now id ≡ some (token, exp)
      → (J.sign i.secret (user_payload J U i kind user org role ver now id) ≡ some token)
        × (exp ≡ now + ttl_of J i kind)
  unfolding issue
  issue_inv kind user org role ver now exp id token e = ground arith

  parse_some :
      (later : ℕ) (token : String) (p : Payload)
      → J.parse (key_func i) later token ≡ some p
      → parse J i later token ≡ some (claims_of p)
  unfolding parse
  parse_some later token p e = ground arith

  parse_none :
      (later : ℕ) (token : String)
      → J.parse (key_func i) later token ≡ none
      → parse J i later token ≡ none
  unfolding parse
  parse_none later token e = ground arith

  -- Parse reads back the claims of a token that Issue made, until its expiry, and nothing from then
  -- on.
  pub parse-issue :
      (kind : String) (user org : Uuid) (role : String) (ver now later exp : ℕ) (id token : String)
      → issue J U i kind user org role ver now id ≡ some (token, exp)
      → parse J i later token ≡ (
          if ltb later exp
          then some (claims_of (user_payload J U i kind user org role ver now id))
          else none)
  parse-issue kind user org role ver now later exp id token e =
      let p = user_payload J U i kind user org role ver now id in
      let (signed, ends) = issue_inv kind user org role ver now exp id token e in
      elim (dec_lt later exp) [
        | yes live ↦ rw (lt→ltb later exp live) (
            parse_some later token p
              (J.parse-sign (key_func i) i.secret token p later signed refl (omega arith)))
        | no dead ↦
            parse_none later token
              (J.parse_expired (key_func i) i.secret token p later signed (omega arith))
            ∙ ground arith
      ]

  module _ (equal_fold : String → String → Bool) (trim_space : String → String) where
    -- What an authenticated request has shown: a bearer token that verifies under the issuer's secret
    -- and HMAC, whose claims have the access kind and name the principal.
    pub record IsAuthentic (now : ℕ) (header : String) (p : Principal) : Type 0 where
      pub claims : Claims
      pub read : parse J i now (bearer_token equal_fold trim_space header) ≡ some claims
      pub kind : claims.kind ≡ kind_access
      pub user : U.parse claims.subject ≡ some p.user_id
      pub org : U.parse claims.org_id ≡ some p.org_id
      pub role : p.role ≡ claims.role
      pub verified : J.verifies hmac i.secret (bearer_token equal_fold trim_space header) ≡ true

    verified_of :
        (now : ℕ) (token : String) (c : Claims)
        → parse J i now token ≡ some c
        → J.verifies hmac i.secret token ≡ true
    unfolding parse
    verified_of now token c e = elim (Option-cases (J.parse (key_func i) now token)) [
      | inl n ↦ ground arith
      | inr (p, q) ↦
          let (m, key, k, v) = J.parse_verified (key_func i) token p now q in
          hmac_only m key token k v
    ]

    -- The middleware lets a request through only with a bearer token that verifies under the issuer's
    -- secret and HMAC, whose claims have the access kind and name the principal.
    pub middleware-IsAuthentic :
        (now : ℕ) (header : String) (p : Principal)
        → middleware equal_fold trim_space J U i now header ≡ authenticated p
        → IsAuthentic now header p
    unfolding middleware
    middleware-IsAuthentic now header p h =
        elim (Option-cases (parse J i now (bearer_token equal_fold trim_space header))) [
          | inl e ↦ ground arith
          | inr (c, e) ↦ record {
            claims = c;
            read = e;
            kind = ground (arith, text_same c.kind kind_access);
            user = ground (arith, text_same c.kind kind_access);
            org = ground (arith, text_same c.kind kind_access);
            role = ground (arith, text_same c.kind kind_access);
            verified = verified_of now (bearer_token equal_fold trim_space header) c e;
          }
        ]

    -- A bearer token that Issue made, not empty, authenticates exactly if it is an access token and has not
    -- expired; the principal is then the user, the organization and the role that it was issued for.
    pub middleware-issue :
        (kind : String) (user org : Uuid) (role : String) (ver now later exp : ℕ)
        (id token header : String)
        → issue J U i kind user org role ver now id ≡ some (token, exp)
        → bearer_token equal_fold trim_space header ≡ token
        → token ≢ ""
        → middleware equal_fold trim_space J U i later header ≡ (
            if ltb later exp
            then (if kind == kind_access
                then authenticated (record { user_id = user; org_id = org; role = role })
                else unauthorized "wrong token kind")
            else unauthorized "invalid token")
    unfolding middleware
    middleware-issue kind user org role ver now later exp id token header e b ne = ground (
      arith,
      parse-issue kind user org role ver now later exp id token e,
      text_same token "",
      U.parse-to_text user,
      U.parse-to_text org,
    )
