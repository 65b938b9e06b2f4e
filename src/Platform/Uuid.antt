-- ===== src/Platform/Uuid.antt =====
-- github.com/google/uuid: a UUID is a 128-bit value, `String` prints it and `Parse` reads it back.
use ar_app.Base.{ℕ, ◌≡◌, Option, some, String}

abbrev pub Uuid : Type 0
Uuid = ℕ

pub record Uuids : Type 0 where
  pub parse : String → Option Uuid
  pub to_text : Uuid → String
  pub parse-to_text : (u : Uuid) → parse (to_text u) ≡ some u
