-- ===== src/Examples/Uploads.antt =====
-- Runs of the recordings.
use ar_app.Base.{arith, ◌≢◌, ◌≡◌, refl, true, none, some, List, [], ◌∷◌, nat_eq}
use Prim.Native.String
use ar_app.Base.Map.{lookup, insert}
use ar_app.Base.Int.{pos}
use ar_app.Auth.{Principal}
use ar_app.Session.Table.{Session, active, Table as Sessions}
use ar_app.Recordings.Table.{Row, Table, available, session_exists, insert_recording, complete_row}
use ar_app.Recordings.Service.{Deps, ok, answers, Upload, create_upload, complete}
use ar_app.Recordings.Service.Creation.{upload_to, row_for, complete-create_upload}
use ar_app.Recordings.Handlers.{serve_create_upload, serve_complete}
use ar_app.Recordings.Handlers.Books.{Call, creates, completes, apply_all, available_stays, apply}
use ar_app.Recordings.Handlers.Books.Kept.{is_kept, recordings_kept}
use ar_app.Examples.Codec.{unary}

abbrev demo : Deps
demo = record {
  uuid_text = unary.to_text;
  presign_put = λ key content_type ttl. ok (String.◌++◌ "https://s3/" key);
  url_ttl = 900000000000;
  duplicate = "duplicate key";
}

abbrev call : Session
call = record {
  org_id = 2;
  agent_id = 8;
  connect_id = "123456789";
  status = active;
  created_at = 100;
  connected_at = some 110;
  ended_at = none;
}

abbrev sessions : Sessions
sessions = (1, call) ∷ []

abbrev agent : Principal
agent = record { user_id = 8; org_id = 2; role = "agent" }

abbrev stranger : Principal
stranger = record { user_id = 9; org_id = 3; role = "admin" }

abbrev requests : List Call
requests =
    creates answers answers sessions (some agent) (some 1) "" 5 200
    ∷ completes answers (some stranger) (some 5) (pos 10) 210
    ∷ completes answers (some agent) (some 5) (pos 4096) 220
    ∷ []

unfoldable stored : Table
unfolding apply_all
stored = apply_all demo requests []

abbrev finished : Row
finished = record (row_for demo 2 1 "" 5 200) {
  status = available;
  size_bytes = pos 4096;
  completed_at = some 220;
}

finished_found : lookup 5 stored ≡ some finished
unfolding stored apply_all apply serve_create_upload serve_complete create_upload complete
    insert_recording complete_row lookup insert
finished_found = refl

recordings_kept_example : is_kept demo finished ≡ true
unfolding stored
recordings_kept_example = recordings_kept demo requests 5 finished finished_found

abbrev again : List Call
again = completes answers (some agent) (some 5) (pos 1) 300 ∷ []

available_stays_example : lookup 5 (apply_all demo again stored) ≡ some finished
available_stays_example = available_stays demo again stored 5 finished finished_found refl

abbrev granted : Upload
granted = upload_to demo 1 5 "https://s3/recordings/1/11111.webm"

grants :
    create_upload demo answers answers sessions 2 1 "" 5 200 []
    ≡ (insert 5 (row_for demo 2 1 "" 5 200) [], ok granted)
unfolding create_upload insert_recording lookup
grants = refl

complete-create_upload_example :
    (row : Row) × (complete answers 2 5 (pos 77) 300 (insert 5 (row_for demo 2 1 "" 5 200) [])
      ≡ (insert 5 row (insert 5 (row_for demo 2 1 "" 5 200) []), ok tt))
    × (row.status ≡ available)
    × (row.size_bytes ≡ pos 77)
    × (row.session_id ≡ 1)
    × (row.org_id ≡ 2)
    × (row.object_key ≡ "recordings/1/11111.webm")
    × (session_exists 1 2 sessions ≡ true)
    × ((complete answers 2 5
          (pos 78)
          400
          (insert 5 row (insert 5 (row_for demo 2 1 "" 5 200) []))).0
        ≡ insert 5 row (insert 5 (row_for demo 2 1 "" 5 200) []))
    × ((complete answers 2 5
          (pos 78)
          400
          (insert 5 row (insert 5 (row_for demo 2 1 "" 5 200) []))).1
        ≢ ok tt)
complete-create_upload_example =
    complete-create_upload demo sessions 2 1 "" 5 200 300 400 77 (pos 78) 2 answers []
      (insert 5 (row_for demo 2 1 "" 5 200) []) granted grants (omega arith) (omega arith)
