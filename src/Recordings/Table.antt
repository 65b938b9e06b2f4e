-- ===== src/Recordings/Table.antt =====
-- The SQL statements of backend/internal/recordings/service.go on the recordings table of
-- store/migrations/0002_recordings.sql. A row is found by its id; times are numbers.
use ar_app.Base.{
  ℕ, Bool, true, false, ◌&&◌, Option, none, some, List, [], ◌∷◌, String, ◌==◌, if◌then◌else◌,
  nat_eq,
}
use ar_app.Base.Map.{Map, lookup, insert}
use ar_app.Base.Int.{ℤ, pos}
use ar_app.Platform.Uuid.{Uuid}
use ar_app.Session.Table.{Table as Sessions}

pub data Status : Type 0 where
  pending available failed : Status

pub record Row : Type 0 where
  pub session_id : Uuid
  pub org_id : Uuid
  pub object_key : String
  pub content_type : String
  pub size_bytes : ℤ
  pub status : Status
  pub created_at : ℕ
  pub completed_at : Option ℕ

abbrev pub Table : Type 0
Table = Map Uuid Row

abbrev pub is_pending : Status → Bool
is_pending pending = true
is_pending _ = false

-- SELECT EXISTS(SELECT 1 FROM sessions WHERE id=$1 AND org_id=$2)
abbrev pub session_exists : Uuid → Uuid → Sessions → Bool
session_exists id org_id sessions = elim (lookup id sessions) [
  | none ↦ false
  | some row ↦ row.org_id == org_id
]

-- VALUES ($1, $2, $3, $4, $5, 'pending'), with the defaults of the other columns.
abbrev pub new_row : Uuid → Uuid → String → String → ℕ → Row
new_row session_id org_id object_key content_type now = record {
  session_id = session_id;
  org_id = org_id;
  object_key = object_key;
  content_type = content_type;
  size_bytes = pos 0;
  status = pending;
  created_at = now;
  completed_at = none;
}

-- INSERT INTO recordings; the primary key refuses an id that is taken.
unfoldable pub insert_recording : Uuid → Row → Table → Option Table
insert_recording id row t = elim (lookup id t) [ none ↦ some (insert id row t) | some taken ↦ none ]

-- WHERE id=$2 AND org_id=$3 AND status='pending'
abbrev pub is_open : Uuid → Row → Bool
is_open org_id row = row.org_id == org_id && is_pending row.status

-- SET status='available', size_bytes=$1, completed_at=now()
abbrev pub completed : ℤ → ℕ → Row → Row
completed size now row = record row {
  status = available;
  size_bytes = size;
  completed_at = some now;
}

-- The update, with the number of rows affected.
unfoldable pub complete_row : Uuid → Uuid → ℤ → ℕ → Table → Table × ℕ
complete_row id org_id size now t = elim (lookup id t) [
  | none ↦ (t, 0)
  | some row ↦ if is_open org_id row then (insert id (completed size now row) t, 1) else (t, 0)
]

-- A row of the answer of List.
pub record Recording : Type 0 where
  pub id : Uuid
  pub session_id : Uuid
  pub object_key : String
  pub content : String
  pub size_bytes : ℤ
  pub status : Status
  pub created_at : ℕ

abbrev pub recording_of : Uuid → Row → Recording
recording_of id row = record {
  id = id;
  session_id = row.session_id;
  object_key = row.object_key;
  content = row.content_type;
  size_bytes = row.size_bytes;
  status = row.status;
  created_at = row.created_at;
}

abbrev pub is_listed : Uuid → Uuid → Row → Bool
is_listed org_id session_id row = row.session_id == session_id && row.org_id == org_id

-- WHERE session_id=$1 AND org_id=$2
unfoldable pub select_rows : Uuid → Uuid → Table → List Recording
select_rows org_id session_id [] = []
select_rows org_id session_id ((id, row) ∷ t) =
    let rest = select_rows org_id session_id t in
    if is_listed org_id session_id row then recording_of id row ∷ rest else rest

-- What ORDER BY created_at orders by.
abbrev pub created_at_of : Recording → ℕ
created_at_of r = r.created_at
