-- ===== src/Session/Table.antt =====
-- The SQL statements of backend/internal/session/service.go on the sessions table of
-- store/migrations/0001_init.sql. A row is found by its id; times are numbers.
pub mod Life
pub mod Sweep
use ar_app.Base.{
  ℕ, ◌+◌, ◌-◌, ◌*◌, Bool, true, false, ◌&&◌, Option, none, some, [], ◌∷◌, String, ltb,
  if◌then◌else◌, nat_eq,
}
use ar_app.Base.Map.{Map, lookup, insert, erase}
use ar_app.Platform.Uuid.{Uuid}

pub data Status : Type 0 where
  pending active ended expired : Status

pub record Session : Type 0 where
  pub org_id : Uuid
  pub agent_id : Uuid
  pub connect_id : String
  pub status : Status
  pub created_at : ℕ
  pub connected_at : Option ℕ
  pub ended_at : Option ℕ

abbrev pub Table : Type 0
Table = Map Uuid Session

abbrev pub is_pending : Status → Bool
is_pending pending = true
is_pending _ = false

abbrev pub is_active : Status → Bool
is_active active = true
is_active _ = false

-- UPDATE … WHERE id = $1: the row under the id, if there is one.
abbrev update_at : (Session → Session) → Uuid → Table → Table
update_at f id t = elim (lookup id t) [ none ↦ t | some row ↦ insert id (f row) t ]

-- INSERT INTO sessions (org_id, agent_id, connect_id, status) VALUES ($1, $2, $3, 'pending')
unfoldable pub insert_pending : Uuid → Uuid → Uuid → String → ℕ → Table → Table
insert_pending id org_id agent_id connect_id now t = insert id row t
  where
    row : Session
    row = record {
      org_id = org_id;
      agent_id = agent_id;
      connect_id = connect_id;
      status = pending;
      created_at = now;
      connected_at = none;
      ended_at = none;
    }

-- DELETE FROM sessions WHERE id = $1
abbrev pub delete_session : Uuid → Table → Table
delete_session id t = erase id t

-- SET status = 'active', connected_at = now() WHERE … status = 'pending'
abbrev pub activated : ℕ → Session → Session
activated now row =
    if is_pending row.status then record row { status = active; connected_at = some now } else row

unfoldable pub activate : Uuid → ℕ → Table → Table
activate id now t = update_at (activated now) id t

-- SET status = 'ended', ended_at = now() WHERE … status = 'active'
abbrev pub finished : ℕ → Session → Session
finished now row =
    if is_active row.status then record row { status = ended; ended_at = some now } else row

unfoldable pub mark_ended : Uuid → ℕ → Table → Table
mark_ended id now t = update_at (finished now) id t

-- WHERE status = 'pending' AND created_at < $1
abbrev pub is_stale : ℕ → Session → Bool
is_stale cutoff row = is_pending row.status && ltb row.created_at cutoff

abbrev pub lapsed : ℕ → Session → Session
lapsed cutoff row = if is_stale cutoff row then record row { status = expired } else row

-- SET status = 'expired', with the number of rows affected.
unfoldable pub expire_stale : ℕ → Table → Table × ℕ
expire_stale cutoff [] = ([], 0)
expire_stale cutoff ((id, row) ∷ t) =
    let rest = expire_stale cutoff t in
    ((id, lapsed cutoff row) ∷ rest.0, if is_stale cutoff row then rest.1 + 1 else rest.1)

-- One round of sweepStalePendingSessions of backend/cmd/server/main.go.
abbrev pub cutoff_multiplier : ℕ
cutoff_multiplier = 2

unfoldable pub sweep : ℕ → ℕ → Table → Table × ℕ
unfolding expire_stale
sweep now token_ttl t = expire_stale (now - cutoff_multiplier * token_ttl) t
