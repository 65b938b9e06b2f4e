-- ===== src/Turn.antt =====
-- backend/internal/turn/turn.go: credentials of the TURN REST scheme.
use ar_app.Base.{
  ℕ, ◌+◌, ◌/◌, Bool, true, false, ◌||◌, List, [], ◌∷◌, String, ◌==◌, string_eq, if◌then◌else◌,
}
use Prim.Native.String

pub record IceServer : Type 0 where
  pub urls : List String
  pub username : String
  pub credential : String

pub record Minter : Type 0 where
  pub secret : String
  pub urls : List String
  pub ttl : ℕ

abbrev is_empty : List String → Bool
is_empty [] = true
is_empty (u ∷ us) = false

-- Nanoseconds in a second.
abbrev pub second : ℕ
second = 1000000000

-- `decimal` is fmt's %d, `sign` the base64 of the HMAC-SHA1 of a text under a key.
module _ (decimal : ℕ → String) (sign : String → String → String) where
  unfoldable pub credentials : Minter → ℕ → String → List IceServer
  credentials m now identifier =
      if m.secret == "" || is_empty m.urls
      then []
      else (let username =
            String.◌++◌ (String.◌++◌ (decimal ((now + m.ttl) / second)) ":") identifier in
          record { urls = m.urls; username = username; credential = sign m.secret username } ∷ [])
