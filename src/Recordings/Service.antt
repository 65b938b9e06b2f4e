-- ===== src/Recordings/Service.antt =====
-- backend/internal/recordings/service.go. A method is a function of the recordings table; what
-- Postgres, the presigner and uuid.New answer are arguments.
pub mod Creation
pub mod Completion
pub mod Listing
use ar_app.Base.{
  ℕ, zero, suc, ◌/◌, ◌^◌, ◌*◌, Bool, true, false, not, ◌||◌, Option, none, some, List, [], ◌∷◌,
  String, ◌==◌, string_eq, ltb, leb, if◌then◌else◌,
}
use Prim.Native.String
use ar_app.Base.Newest.{order_rows}
use ar_app.Base.Int.{ℤ, pos, negsuc, pos_part, is_positive}
use ar_app.Platform.Uuid.{Uuid}
use ar_app.Session.Table.{Table as Sessions}
use ar_app.Recordings.Table.{
  Table, Recording, session_exists, new_row, insert_recording, complete_row, select_rows,
  created_at_of,
}

-- 10 << 30
abbrev pub max_recording_size_bytes : ℕ
max_recording_size_bytes = 10 * 2 ^ 30

pub data Error : Type 0 where
  invalid_size session_not_found not_found_or_finalized : Error
  presign_failed database : String → Error

pub data Result (A : Type 0) : Type 0 where
  ok : A → Result A
  err : Error → Result A

-- err.Error()
abbrev pub error_text : Error → String
error_text invalid_size = "size_bytes must be positive and within the allowed maximum"
error_text session_not_found = "session not found"
error_text not_found_or_finalized = "recording not found or already finalized"
error_text (presign_failed message) = String.◌++◌ "presign: " message
error_text (database message) = message

pub record Upload : Type 0 where
  pub recording_id : Uuid
  pub object_key : String
  pub url : String
  pub expires_in : ℕ

-- The printing of ids, the Presigner, the time to live of its URLs in nanoseconds, and the text of
-- Postgres for an id that is taken.
pub record Deps : Type 0 where
  pub uuid_text : Uuid → String
  pub presign_put : String → String → ℕ → Result String
  pub url_ttl : ℕ
  pub duplicate : String

-- Whether a query reaches Postgres; if not, the text of the error.
pub data Query : Type 0 where
  answers : Query
  fails : String → Query

abbrev pub seconds : ℕ → ℕ
seconds nanoseconds = nanoseconds / 10 ^ 9

abbrev pub or_webm : String → String
or_webm content_type = if content_type == "" then "video/webm" else content_type

module _ (D : Deps) where
  abbrev pub object_key_of : Uuid → Uuid → String
  object_key_of session_id recording_id = String.◌++◌ "recordings/" (
      String.◌++◌ (D.uuid_text session_id)
        (String.◌++◌ "/" (String.◌++◌ (D.uuid_text recording_id) ".webm")))

  abbrev inserted : Uuid → String → String → Table → Option Table → Table × Result Upload
  inserted id key url t none = (t, err (database D.duplicate))
  inserted id key url t (some t') = (
    t',
    ok (record { recording_id = id; object_key = key; url = url; expires_in = seconds D.url_ttl }),
  )

  abbrev insert_upload :
      Query → Uuid → Uuid → Uuid → String → String → ℕ → String → Table → Table × Result Upload
  insert_upload (fails message) org_id session_id id key content_type now url t =
      (t, err (database message))
  insert_upload answers org_id session_id id key content_type now url t =
      inserted id key url t (insert_recording id (new_row session_id org_id key content_type now) t)

  abbrev presigned :
      Query
      → Uuid
      → Uuid
      → Uuid
      → String
      → String
      → ℕ
      → Table
      → Result String
      → Table × Result Upload
  presigned q org_id session_id id key content_type now t (err e) =
      (t, err (presign_failed (error_text e)))
  presigned q org_id session_id id key content_type now t (ok url) =
      insert_upload q org_id session_id id key content_type now url t

  -- CreateUpload, with the fates of its two queries and the id of uuid.New.
  unfoldable pub create_upload :
      Query → Query → Sessions → Uuid → Uuid → String → Uuid → ℕ → Table → Table × Result Upload
  create_upload (fails message) q sessions org_id session_id content_type id now t =
      (t, err (database message))
  create_upload answers q sessions org_id session_id content_type id now t =
      if session_exists session_id org_id sessions
      then presigned q org_id session_id id (object_key_of session_id id) (or_webm content_type) now
          t (D.presign_put (object_key_of session_id id) (or_webm content_type) D.url_ttl)
      else (t, err session_not_found)

-- `sizeBytes <= 0 || sizeBytes > MaxRecordingSizeBytes`
abbrev pub is_bad_size : ℤ → Bool
is_bad_size size = not (is_positive size) || ltb max_recording_size_bytes (pos_part size)

abbrev finalized : Table × ℕ → Table × Result (Unit {0})
finalized (t, zero) = (t, err not_found_or_finalized)
finalized (t, suc n) = (t, ok tt)

abbrev update_completed : Query → Uuid → Uuid → ℤ → ℕ → Table → Table × Result (Unit {0})
update_completed (fails message) org_id id size now t = (t, err (database message))
update_completed answers org_id id size now t = finalized (complete_row id org_id size now t)

-- Complete
unfoldable pub complete : Query → Uuid → Uuid → ℤ → ℕ → Table → Table × Result (Unit {0})
complete q org_id id size now t =
    if is_bad_size size then (t, err invalid_size) else update_completed q org_id id size now t

-- List
unfoldable pub list : Query → Uuid → Uuid → Table → Result (List Recording)
list (fails message) org_id session_id t = err (database message)
list answers org_id session_id t = ok (order_rows created_at_of (select_rows org_id session_id t))
