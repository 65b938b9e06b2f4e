-- ===== src/Config.antt =====
-- backend/internal/config/config.go: the configuration from the environment. time.ParseDuration and
-- strconv.Atoi are arguments; a duration is an int64 of nanoseconds.
pub mod Durations
pub mod Lists
use ar_app.Base.{
  ℕ, ◌+◌, ◌-◌, ◌*◌, ◌%◌, ◌^◌, Bool, true, false, not, Option, none, some, List, [], ◌∷◌, ◌++◌,
  String, ◌==◌, string_eq, ltb, if◌then◌else◌,
}
use Prim.Native.String
use ar_app.Base.Int.{ℤ, pos, negsuc}
use ar_app.Base.Texts.{same_char}

abbrev pub Environment : Type 0
Environment = String → Option String

abbrev pub or_default : Option String → String → String
or_default none default = default
or_default (some v) default = if v == "" then default else v

abbrev pub getenv : Environment → String → String → String
getenv env key default = or_default (env key) default

-- The int64 of 64 bits.
abbrev pub from_bits : ℕ → ℤ
from_bits b = if ltb b (2 ^ 63) then pos b else negsuc (2 ^ 64 - 1 - b)

abbrev pub second : ℕ
second = 1000000000

-- `time.Duration(secs) * time.Second`, which wraps around.
abbrev pub seconds : ℤ → ℤ
seconds (pos n) = from_bits ((n * second) % 2 ^ 64)
seconds (negsuc n) = from_bits ((2 ^ 64 - ((n + 1) * second) % 2 ^ 64) % 2 ^ 64)

-- A value, or the key whose duration is invalid.
pub data Result (A : Type 0) : Type 0 where
  ok : A → Result A
  invalid_duration : String → String → Result A

infixl 5 ◌>>=◌
abbrev pub ◌>>=◌ : {A B : Type 0} → Result A → (A → Result B) → Result B
ok a >>= k = k a
invalid_duration key value >>= k = invalid_duration key value

-- The loop of splitNonEmpty over the runes, with the text read since the last comma.
abbrev pub flush : String → List String → List String
flush cur rest = if cur == "" then rest else cur ∷ rest

unfoldable pub split_from : String → String → List String
split_from cur String.[] = flush cur []
split_from cur (String.◌∷◌ r s) =
    let ended = split_from "" s in
    let longer = split_from (String.◌++◌ cur (String.◌∷◌ r String.[])) s in
    if same_char r "," then flush cur ended else longer

abbrev pub split_non_empty : String → List String
split_non_empty s = split_from "" s

-- A secret is its text.
pub record Config : Type 0 where
  pub http_addr : String
  pub database_url : String
  pub redis_url : String
  pub jwt_secret : String
  pub access_token_ttl : ℤ
  pub refresh_token_ttl : ℤ
  pub session_token_ttl : ℤ
  pub signaling_token_ttl : ℤ
  pub signaling_fanout : String
  pub trusted_proxy_cidrs : String
  pub turn_secret : String
  pub turn_realm : String
  pub turn_urls : List String
  pub turn_cred_ttl : ℤ
  pub s3_endpoint : String
  pub s3_access_key : String
  pub s3_secret_key : String
  pub s3_bucket : String
  pub s3_region : String
  pub s3_use_ssl : Bool
  pub recording_url_ttl : ℤ

-- RecordingsEnabled
abbrev pub recordings_enabled : Config → Bool
recordings_enabled c = not (c.s3_endpoint == "")

-- The rest of Load, with the durations that it has read.
abbrev pub config_of : Environment → ℤ → ℤ → ℤ → ℤ → ℤ → ℤ → Config
config_of env access refresh session signaling cred recording = record {
  http_addr = getenv env "HTTP_ADDR" ":8080";
  database_url = getenv env "DATABASE_URL" "postgres://ar:ar@localhost:5432/ar?sslmode=disable";
  redis_url = getenv env "REDIS_URL" "redis://localhost:6379/0";
  jwt_secret = getenv env "JWT_SECRET" "dev-insecure-secret-change-me";
  access_token_ttl = access;
  refresh_token_ttl = refresh;
  session_token_ttl = session;
  signaling_token_ttl = signaling;
  signaling_fanout = getenv env "SIGNALING_FANOUT" "local";
  trusted_proxy_cidrs = getenv env "TRUSTED_PROXY_CIDRS" "";
  turn_secret = getenv env "TURN_SECRET" "dev-turn-secret";
  turn_realm = getenv env "TURN_REALM" "ar.local";
  turn_urls = split_non_empty (getenv env "TURN_URLS" "turn:localhost:3478?transport=udp");
  turn_cred_ttl = cred;
  s3_endpoint = getenv env "S3_ENDPOINT" "";
  s3_access_key = getenv env "S3_ACCESS_KEY" "";
  s3_secret_key = getenv env "S3_SECRET_KEY" "";
  s3_bucket = getenv env "S3_BUCKET" "recordings";
  s3_region = getenv env "S3_REGION" "us-east-1";
  s3_use_ssl = getenv env "S3_USE_SSL" "true" == "true";
  recording_url_ttl = recording;
}

-- A number of minutes in nanoseconds.
abbrev pub minutes : ℕ → ℤ
minutes n = pos (n * (60 * second))

module _ (parse_duration : String → Option ℤ) (atoi : String → Option ℤ) where
  abbrev or_seconds : String → String → Option ℤ → Option ℤ → Result ℤ
  or_seconds key v (some d) secs = ok d
  or_seconds key v none (some secs) = ok (seconds secs)
  or_seconds key v none none = invalid_duration key v

  abbrev duration_of : String → Option String → ℤ → Result ℤ
  duration_of key none default = ok default
  duration_of key (some v) default =
      if v == "" then ok default else or_seconds key v (parse_duration v) (atoi v)

  unfoldable pub getdur : Environment → String → ℤ → Result ℤ
  getdur env key default = duration_of key (env key) default

  unfoldable pub load : Environment → Result Config
  load env = do
    access ← getdur env "ACCESS_TOKEN_TTL" (minutes 15)
    refresh ← getdur env "REFRESH_TOKEN_TTL" (minutes 43200)
    session ← getdur env "SESSION_TOKEN_TTL" (minutes 10)
    signaling ← getdur env "SIGNALING_TOKEN_TTL" (minutes 240)
    cred ← getdur env "TURN_CRED_TTL" (minutes 60)
    recording ← getdur env "RECORDING_URL_TTL" (minutes 15)
    ok (config_of env access refresh session signaling cred recording)
