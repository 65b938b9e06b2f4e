-- ===== src/Recordings/Handlers.antt =====
-- backend/internal/recordings/handlers.go. The id is that of the path, parsed; what DecodeJSON leaves
-- in the request is an argument, since the handlers drop its error.
pub mod Books
use ar_app.Base.{ℕ, Option, none, some, List, String, ◌==◌, string_eq, if◌then◌else◌}
use ar_app.Base.Int.{ℤ}
use ar_app.Platform.Uuid.{Uuid}
use ar_app.Auth.{Principal}
use ar_app.Session.Table.{Table as Sessions}
use ar_app.Identity.Handlers.{Response, refused, answered, Caller}
use ar_app.Recordings.Table.{Table, Recording}
use ar_app.Recordings.Service.{
  Result, ok, err, error_text, Upload, Deps, Query, create_upload, complete, list,
}

abbrev or_refused {ℓ} : {S : Type ℓ} {A : Type 0} → ℕ → S × Result A → S × Response A
or_refused status (t, ok a) = (t, answered status a)
or_refused status (t, err e) = (t, refused 400 (error_text e))

module _ (D : Deps) where
  abbrev upload_for :
      Query
      → Query
      → Sessions
      → Principal
      → Option Uuid
      → String
      → Uuid
      → ℕ
      → Table
      → Table × Response Upload
  upload_for q r sessions p none content_type id now t = (t, refused 400 "invalid session id")
  upload_for q r sessions p (some session_id) content_type id now t =
      or_refused 201 (create_upload D q r sessions p.org_id session_id content_type id now t)

  -- Handlers.CreateUpload
  unfoldable pub serve_create_upload :
      Query
      → Query
      → Sessions
      → Caller
      → Option Uuid
      → String
      → Uuid
      → ℕ
      → Table
      → Table × Response Upload
  serve_create_upload q r sessions none session_id content_type id now t =
      (t, refused 401 "unauthenticated")
  serve_create_upload q r sessions (some p) session_id content_type id now t =
      if p.role == "viewer"
      then (t, refused 403 "viewers cannot create recordings")
      else upload_for q r sessions p session_id content_type id now t

abbrev complete_for : Query → Principal → Option Uuid → ℤ → ℕ → Table → Table × Response (Unit {0})
complete_for q p none size now t = (t, refused 400 "invalid recording id")
complete_for q p (some id) size now t = or_refused 200 (complete q p.org_id id size now t)

-- Handlers.Complete
unfoldable pub serve_complete :
    Query → Caller → Option Uuid → ℤ → ℕ → Table → Table × Response (Unit {0})
serve_complete q none id size now t = (t, refused 401 "unauthenticated")
serve_complete q (some p) id size now t =
    if p.role == "viewer"
    then (t, refused 403 "viewers cannot complete recordings")
    else complete_for q p id size now t

abbrev listed : Result (List Recording) → Response (List Recording)
listed (ok rows) = answered 200 rows
listed (err e) = refused 500 "could not list recordings"

-- Handlers.List
unfoldable pub serve_list : Query → Caller → Option Uuid → Table → Response (List Recording)
serve_list q none session_id t = refused 401 "unauthenticated"
serve_list q (some p) none t = refused 400 "invalid session id"
serve_list q (some p) (some session_id) t = listed (list q p.org_id session_id t)
