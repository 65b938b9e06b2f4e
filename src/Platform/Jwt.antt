-- ===== src/Platform/Jwt.antt =====
-- github.com/golang-jwt/jwt on the claims of the backend. A payload is the JSON object of a token, an
-- absent field being empty; times are whole seconds.
use ar_app.Base.{ℕ, ◌≤◌, ◌<◌, ◌≡◌, Bool, true, Option, none, some, String}

pub record Payload : Type 0 where
  pub org : String
  pub room : String
  pub role : String
  pub kind : String
  pub ver : ℕ
  pub subject : String
  pub issued_at : ℕ
  pub expires_at : ℕ
  pub id : String

-- The signing method that a token names.
pub data Method : Type 0 where
  hmac other : Method

-- A key function: the key for a method, or an error.
abbrev pub KeyFunc : Type 0
KeyFunc = Method → Option String

pub record Jwt : Type 0 where
  -- SignedString under HS256.
  pub sign : String → Payload → Option String
  pub parse : KeyFunc → ℕ → String → Option Payload
  pub verifies : Method → String → String → Bool
  pub parse-sign :
      (keys : KeyFunc) (secret raw : String) (p : Payload) (now : ℕ)
      → sign secret p ≡ some raw
      → keys hmac ≡ some secret
      → now < p.expires_at
      → parse keys now raw ≡ some p
  pub parse_expired :
      (keys : KeyFunc) (secret raw : String) (p : Payload) (now : ℕ)
      → sign secret p ≡ some raw
      → p.expires_at ≤ now
      → parse keys now raw ≡ none
  pub parse_verified :
      (keys : KeyFunc) (raw : String) (p : Payload) (now : ℕ)
      → parse keys now raw ≡ some p
      → (m : Method) × (key : String) × (keys m ≡ some key) × (verifies m key raw ≡ true)
