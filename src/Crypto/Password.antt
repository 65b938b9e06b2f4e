-- ===== src/Crypto/Password.antt =====
-- backend/internal/crypto/password.go. Argon2, base64 and the verbs of fmt are an interface.
pub mod RoundTrip
use ar_app.Base.{
  ℕ, zero, suc, ◌+◌, ◌*◌, ◌<◌, ◌^◌, ◌≡◌, Bool, true, false, Option, none, some, List, [], ◌∷◌,
  String, ◌==◌, string_eq, nat_eq, if◌then◌else◌,
}
use ar_app.Base.Int.{ℤ, pos, negsuc}
use ar_app.Base.Texts.{split, concat, lacks}

-- golang.org/x/crypto/argon2, encoding/base64, crypto/subtle and fmt.
pub record Codecs : Type 1 where
  pub Bytes : Type 0
  pub size : Bytes → ℕ
  -- Password, salt, time, memory, threads and key length; it panics for a time or threads of 0.
  pub id_key : String → Bytes → ℕ → ℕ → ℕ → ℕ → Option Bytes
  pub id_key_runs :
      (password : String) (salt : Bytes) (time memory threads length : ℕ)
      → 0 < time
      → 0 < threads
      → (key : Bytes) × (id_key password salt time memory threads length ≡ some key)
        × (size key ≡ length)
  -- ConstantTimeCompare
  pub equal : Bytes → Bytes → Bool
  pub equal_refl : (b : Bytes) → equal b b ≡ true
  -- RawStdEncoding
  pub encode : Bytes → String
  pub decode : String → Option Bytes
  pub decode-encode : (b : Bytes) → decode (encode b) ≡ some b
  pub encode-lacks : (b : Bytes) → lacks "$" (encode b) ≡ true
  -- %d
  pub decimal : ℕ → String
  pub decimal-lacks : (n : ℕ) → lacks "$" (decimal n) ≡ true
  -- Sscanf with "v=%d", and with "m=%d,t=%d,p=%d" into two uint32 and a uint8.
  pub scan_version : String → Option ℤ
  pub scan_version-print :
      (n : ℕ) → n < 2 ^ 63 → scan_version (concat ("v=" ∷ decimal n ∷ [])) ≡ some (pos n)
  pub scan_params : String → Option (ℕ × ℕ × ℕ)
  pub scan_params-print :
      (m t p : ℕ)
      → m < 2 ^ 32
      → t < 2 ^ 32
      → p < 2 ^ 8
      → scan_params (concat ("m=" ∷ decimal m ∷ ",t=" ∷ decimal t ∷ ",p=" ∷ decimal p ∷ []))
        ≡ some (m, t, p)

abbrev pub argon_time : ℕ
argon_time = 1

abbrev pub argon_memory : ℕ
argon_memory = 64 * 1024

abbrev pub argon_threads : ℕ
argon_threads = 4

abbrev pub argon_key_len : ℕ
argon_key_len = 32

-- argon2.Version
abbrev pub version : ℕ
version = 19

pub data Error : Type 0 where
  invalid_format parse_version incompatible_version parse_params decode_salt decode_hash mismatch :
      Error

-- `nil`, an error, or a panic of argon2.
pub data Verdict : Type 0 where
  verified panics : Verdict
  refused : Error → Verdict

module _ (C : Codecs) where
  abbrev pub version_text : String
  version_text = concat ("v=" ∷ C.decimal version ∷ [])

  abbrev pub params_text : String
  params_text = concat (
      "m="
      ∷ C.decimal argon_memory
      ∷ ",t="
      ∷ C.decimal argon_time
      ∷ ",p="
      ∷ C.decimal argon_threads
      ∷ [])

  abbrev pub print_hash : C.Bytes → C.Bytes → String
  print_hash salt key = concat (
      "$argon2id$"
      ∷ version_text
      ∷ "$"
      ∷ params_text
      ∷ "$"
      ∷ C.encode salt
      ∷ "$"
      ∷ C.encode key
      ∷ [])

  abbrev print_key : C.Bytes → Option C.Bytes → Option String
  print_key salt none = none
  print_key salt (some key) = some (print_hash salt key)

  -- HashPassword, with the salt that crypto/rand fills, unless it fails.
  unfoldable pub hash_password : Option C.Bytes → String → Option String
  hash_password none password = none
  hash_password (some salt) password =
      print_key salt (C.id_key password salt argon_time argon_memory argon_threads argon_key_len)

  abbrev compare_keys : C.Bytes → Option C.Bytes → Verdict
  compare_keys want none = panics
  compare_keys want (some got) = if C.equal got want then verified else refused mismatch

  abbrev check_hash : String → ℕ × ℕ × ℕ → C.Bytes → Option C.Bytes → Verdict
  check_hash password (m, t, p) salt none = refused decode_hash
  check_hash password (m, t, p) salt (some want) =
      compare_keys want (C.id_key password salt t m p (C.size want))

  abbrev check_salt : String → ℕ × ℕ × ℕ → Option C.Bytes → String → Verdict
  check_salt password params none hash = refused decode_salt
  check_salt password params (some salt) hash = check_hash password params salt (C.decode hash)

  abbrev check_params : String → Option (ℕ × ℕ × ℕ) → String → String → Verdict
  check_params password none salt hash = refused parse_params
  check_params password (some params) salt hash = check_salt password params (C.decode salt) hash

  abbrev is_version : ℤ → Bool
  is_version (pos n) = n == version
  is_version (negsuc n) = false

  abbrev check_version : String → Option ℤ → String → String → String → Verdict
  check_version password none params salt hash = refused parse_version
  check_version password (some v) params salt hash =
      if is_version v
      then check_params password (C.scan_params params) salt hash
      else refused incompatible_version

  abbrev check_parts : String → List String → Verdict
  check_parts password (first ∷ kind ∷ v ∷ params ∷ salt ∷ hash ∷ []) =
      if kind == "argon2id"
      then check_version password (C.scan_version v) params salt hash
      else refused invalid_format
  check_parts password _ = refused invalid_format

  -- VerifyPassword
  unfoldable pub verify_password : String → String → Verdict
  verify_password password encoded = check_parts password (split "$" encoded)
