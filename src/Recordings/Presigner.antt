-- ===== src/Recordings/Presigner.antt =====
-- backend/internal/recordings/s3presign.go: the presigned URLs. The hashes, the escaping of net/url and
-- the formatting of times and numbers are arguments.
pub mod Paths
use ar_app.Base.{
  ℕ, ◌/◌, ◌^◌, Bool, true, false, ◌||◌, Option, none, some, List, [], ◌∷◌, map, String, ◌==◌,
  string_eq, if◌then◌else◌,
}
use ar_app.Base.Texts.{split, join, concat}

-- crypto/hmac, crypto/sha256, encoding/hex, net/url, fmt and time.
pub record Codecs : Type 1 where
  pub Bytes : Type 0
  pub bytes : String → Bytes
  pub hmac_sha256 : Bytes → Bytes → Bytes
  pub sha256 : Bytes → Bytes
  pub hex : Bytes → String
  pub path_escape : String → String
  -- Values.Encode, which sorts by key.
  pub encode_values : List (String × String) → String
  pub decimal : ℕ → String
  -- Format("20060102T150405Z") and Format("20060102")
  pub date_time : ℕ → String
  pub date : ℕ → String

pub record S3Presigner : Type 0 where
  pub endpoint : String
  pub region : String
  pub access_key : String
  pub secret_key : String
  pub bucket : String
  pub secure : Bool

-- NewS3Presigner; the error is left out.
unfoldable pub new_s3_presigner :
    String → String → String → String → String → Bool → Option S3Presigner
new_s3_presigner endpoint access_key secret_key bucket region secure =
    if endpoint == "" || (access_key == "" || (secret_key == "" || bucket == ""))
    then none
    else some (record {
      endpoint = endpoint;
      region = if region == "" then "us-east-1" else region;
      access_key = access_key;
      secret_key = secret_key;
      bucket = bucket;
      secure = secure;
    })

module _ (C : Codecs) where
  abbrev pub hex_sha256 : String → String
  hex_sha256 text = C.hex (C.sha256 (C.bytes text))

  -- encodePath
  unfoldable pub encode_path : String → String
  encode_path p = join "/" (map C.path_escape (split "/" p))

  module _ (p : S3Presigner) where
    abbrev pub signing_key : String → C.Bytes
    signing_key date_stamp =
        let k_date =
          C.hmac_sha256 (C.bytes (concat ("AWS4" ∷ p.secret_key ∷ []))) (C.bytes date_stamp) in
        let k_region = C.hmac_sha256 k_date (C.bytes p.region) in
        let k_service = C.hmac_sha256 k_region (C.bytes "s3") in
        C.hmac_sha256 k_service (C.bytes "aws4_request")

    abbrev pub scope_of : ℕ → String
    scope_of now = join "/" (C.date now ∷ p.region ∷ "s3" ∷ "aws4_request" ∷ [])

    abbrev pub canonical_uri : String → String
    canonical_uri key = concat ("/" ∷ p.bucket ∷ "/" ∷ encode_path key ∷ [])

    abbrev pub canonical_query : ℕ → ℕ → String
    canonical_query now expiry = C.encode_values (
        ("X-Amz-Algorithm", "AWS4-HMAC-SHA256")
        ∷ ("X-Amz-Credential", concat (p.access_key ∷ "/" ∷ scope_of now ∷ []))
        ∷ ("X-Amz-Date", C.date_time now)
        ∷ ("X-Amz-Expires", C.decimal (expiry / 10 ^ 9))
        ∷ ("X-Amz-SignedHeaders", "host")
        ∷ [])

    abbrev pub canonical_request : String → String → String
    canonical_request uri query = join "\n" (
        "PUT"
        ∷ uri
        ∷ query
        ∷ concat ("host:" ∷ p.endpoint ∷ "\n" ∷ [])
        ∷ "host"
        ∷ "UNSIGNED-PAYLOAD"
        ∷ [])

    abbrev pub string_to_sign : ℕ → String → String
    string_to_sign now request =
        join "\n" ("AWS4-HMAC-SHA256" ∷ C.date_time now ∷ scope_of now ∷ hex_sha256 request ∷ [])

    abbrev pub signature_of : ℕ → String → String
    signature_of now request =
        C.hex (C.hmac_sha256 (signing_key (C.date now)) (C.bytes (string_to_sign now request)))

    -- PresignPut, with the instant of `now()` and an expiry in nanoseconds; the content type is not used.
    unfoldable pub presign_put : ℕ → String → ℕ → String
    presign_put now key expiry =
        let uri = canonical_uri key in
        let query = canonical_query now expiry in
        concat (
          (if p.secure then "https" else "http")
          ∷ "://"
          ∷ p.endpoint
          ∷ uri
          ∷ "?"
          ∷ query
          ∷ "&X-Amz-Signature="
          ∷ signature_of now (canonical_request uri query)
          ∷ [])
