-- ===== src/Session/Table/Life.antt =====
-- The life of a session: which changes of status the statements of the backend make.
use ar_app.Base.{
  ℕ, ◌≡◌, refl, subst, ap, ◌∙◌, ◌↔◌, inl, inr, Bool, true, false, ◌&&◌, some, List, [], ◌∷◌, ◌==◌,
  nat_eq, arith, if◌then◌else◌, Option-cases, ltb,
}
use ar_app.Base.Map.{lookup, insert, lookup-insert}
use ar_app.Platform.Uuid.{Uuid}
use ar_app.Session.Table.{
  Session, Status, pending, active, ended, expired, Table, activate, activated, mark_ended,
  finished, expire_stale, lapsed, is_pending, is_active,
}

-- The statements on rows that exist, each with its time.
pub data Statement : Type 0 where
  activates ends : Uuid → ℕ → Statement
  sweeps : ℕ → Statement

unfoldable pub apply : Statement → Table → Table
apply (activates id now) t = activate id now t
apply (ends id now) t = mark_ended id now t
apply (sweeps cutoff) t = (expire_stale cutoff t).0

unfoldable pub apply_all : List Statement → Table → Table
apply_all [] t = t
apply_all (s ∷ rest) t = apply_all rest (apply s t)

-- The changes of status.
pub data Moves : Status → Status → Type 0 where
  stays : (s : Status) → Moves s s
  connects : Moves pending active
  ends_active : Moves active ended
  lapses : Moves pending expired

id_same : (a b : Uuid) → ((a == b) ≡ true) ↔ (a ≡ b)
id_same a b = nat_eq.beq_iff a b

sessions-insert :
    (id j : Uuid) (row : Session) (t : Table)
    → lookup j (insert id row t) ≡ (if id == j then some row else lookup j t)
sessions-insert = lookup-insert

-- What activation and the end of a session leave of a row.
pub lookup-activate :
    (id j : Uuid) (now : ℕ) (t : Table) (row : Session)
    → lookup j t ≡ some row
    → lookup j (activate id now t) ≡ some (if id == j then activated now row else row)
unfolding activate
lookup-activate id j now t row e = elim (Option-cases (lookup id t)) [
  | inl missing ↦ ground (arith, id_same id j)
  | inr (old, found) ↦ ground (arith, sessions-insert id j (activated now old) t, id_same id j)
]

pub lookup-mark_ended :
    (id j : Uuid) (now : ℕ) (t : Table) (row : Session)
    → lookup j t ≡ some row
    → lookup j (mark_ended id now t) ≡ some (if id == j then finished now row else row)
unfolding mark_ended
lookup-mark_ended id j now t row e = elim (Option-cases (lookup id t)) [
  | inl missing ↦ ground (arith, id_same id j)
  | inr (old, found) ↦ ground (arith, sessions-insert id j (finished now old) t, id_same id j)
]

pub lookup-expire_stale :
    (cutoff : ℕ) (j : Uuid) (t : Table) (row : Session)
    → lookup j t ≡ some row
    → lookup j (expire_stale cutoff t).0 ≡ some (lapsed cutoff row)
unfolding expire_stale lookup
lookup-expire_stale cutoff j [] row e = cc
lookup-expire_stale cutoff j ((id, r) ∷ t) row e =
    ground (arith, lookup-expire_stale cutoff j t row)

-- The row that a statement leaves of a row under an id.
abbrev pub row_after : Statement → Uuid → Session → Session
row_after (activates id now) j row = if id == j then activated now row else row
row_after (ends id now) j row = if id == j then finished now row else row
row_after (sweeps cutoff) j row = lapsed cutoff row

lookup-apply :
    (s : Statement) (j : Uuid) (t : Table) (row : Session)
    → lookup j t ≡ some row
    → lookup j (apply s t) ≡ some (row_after s j row)
unfolding apply
lookup-apply (activates id now) j t row e = lookup-activate id j now t row e
lookup-apply (ends id now) j t row e = lookup-mark_ended id j now t row e
lookup-apply (sweeps cutoff) j t row e = lookup-expire_stale cutoff j t row e

connect-Moves : (s : Status) (b : Bool) → Moves s (if b && is_pending s then active else s)
connect-Moves pending true = connects
connect-Moves s true = stays s
connect-Moves s false = stays s

end-Moves : (s : Status) (b : Bool) → Moves s (if b && is_active s then ended else s)
end-Moves active true = ends_active
end-Moves s true = stays s
end-Moves s false = stays s

lapse-Moves : (s : Status) (b : Bool) → Moves s (if is_pending s && b then expired else s)
lapse-Moves pending true = lapses
lapse-Moves pending false = stays pending
lapse-Moves active b = stays active
lapse-Moves ended b = stays ended
lapse-Moves expired b = stays expired

row_after-Moves :
    (s : Statement) (j : Uuid) (row : Session) → Moves row.status (row_after s j row).status
row_after-Moves (activates id now) j row =
    subst (Moves row.status) (ground arith) (connect-Moves row.status (id == j))
row_after-Moves (ends id now) j row =
    subst (Moves row.status) (ground arith) (end-Moves row.status (id == j))
row_after-Moves (sweeps cutoff) j row =
    subst (Moves row.status) (ground arith) (lapse-Moves row.status (ltb row.created_at cutoff))

-- A run of changes of status.
pub data Reaches (s : Status) : Status → Type 0 where
  here : Reaches s s
  next : {t u : Status} → Reaches s t → Moves t u → Reaches s u

joined : {s t u : Status} → Moves s t → Reaches t u → Reaches s u
joined m here = next here m
joined m (next r n) = next (joined m r) n

abbrev pub rows_after : List Statement → Uuid → Session → Session
rows_after [] j row = row
rows_after (s ∷ rest) j row = rows_after rest j (row_after s j row)

rows_after-Reaches :
    (ss : List Statement) (j : Uuid) (row : Session)
    → Reaches row.status (rows_after ss j row).status
rows_after-Reaches [] j row = here
rows_after-Reaches (s ∷ rest) j row =
    joined (row_after-Moves s j row) (rows_after-Reaches rest j (row_after s j row))

lookup-apply_all :
    (ss : List Statement) (j : Uuid) (t : Table) (row : Session)
    → lookup j t ≡ some row
    → lookup j (apply_all ss t) ≡ some (rows_after ss j row)
unfolding apply_all
lookup-apply_all [] j t row e = e
lookup-apply_all (s ∷ rest) j t row e =
    lookup-apply_all rest j (apply s t) (row_after s j row) (lookup-apply s j t row e)

-- Whatever order the activations, ends and sweeps of the backend come in, a session's row stays, and
-- its status goes only from pending to active, from active to ended and from pending to expired.
pub statements-Reaches :
    (ss : List Statement) (j : Uuid) (t : Table) (row : Session)
    → lookup j t ≡ some row
    → (row' : Session) × (lookup j (apply_all ss t) ≡ some row') × Reaches row.status row'.status
statements-Reaches ss j t row e =
    (rows_after ss j row, lookup-apply_all ss j t row e, rows_after-Reaches ss j row)

abbrev pub is_final : Status → Bool
is_final ended = true
is_final expired = true
is_final _ = false

row_after_final :
    (s : Statement) (j : Uuid) (row : Session)
    → is_final row.status ≡ true
    → row_after s j row ≡ row
row_after_final (activates id now) j row f = ground arith
row_after_final (ends id now) j row f = ground arith
row_after_final (sweeps cutoff) j row f = ground arith

rows_after_final :
    (ss : List Statement) (j : Uuid) (row : Session)
    → is_final row.status ≡ true
    → rows_after ss j row ≡ row
rows_after_final [] j row f = refl
rows_after_final (s ∷ rest) j row f = rw (row_after_final s j row f) (rows_after_final rest j row f)

-- The row of an ended or expired session is left as it is by whatever order of activations, ends and
-- sweeps.
pub final_stays :
    (ss : List Statement) (j : Uuid) (t : Table) (row : Session)
    → lookup j t ≡ some row
    → is_final row.status ≡ true
    → lookup j (apply_all ss t) ≡ some row
final_stays ss j t row e f = lookup-apply_all ss j t row e ∙ ap some (rows_after_final ss j row f)
