-- ===== src/Recordings/Service/Completion.antt =====
-- When Complete succeeds, and what the operations leave of a row.
use ar_app.Base.{
  ℕ, ◌≡◌, ◌≢◌, ◌↔◌, ◌⊎◌, inl, inr, refl, true, false, none, some, String, ◌==◌, nat_eq, string_eq,
  if◌then◌else◌, arith, Option-cases, Bool-cases,
}
use ar_app.Base.Map.{lookup, insert, lookup-insert}
use ar_app.Base.Int.{ℤ}
use ar_app.Platform.Uuid.{Uuid}
use ar_app.Recordings.Table.{pending, Row, Table, is_open, complete_row, completed}
use ar_app.Recordings.Service.{Result, ok, Query, answers, fails, is_bad_size, complete}

pub same_id : (a b : Uuid) → ((a == b) ≡ true) ↔ (a ≡ b)
same_id a b = nat_eq.beq_iff a b

pub rows-insert :
    (id j : Uuid) (row : Row) (t : Table)
    → lookup j (insert id row t) ≡ (if id == j then some row else lookup j t)
rows-insert = lookup-insert

-- A success of Complete replaces the row by the completed one.
pub complete-open :
    (org_id id : Uuid) (size : ℤ) (now : ℕ) (t : Table) (row : Row)
    → is_bad_size size ≡ false
    → lookup id t ≡ some row
    → is_open org_id row ≡ true
    → complete answers org_id id size now t ≡ (insert id (completed size now row) t, ok tt)
unfolding complete complete_row
complete-open org_id id size now t row h found o = rw (h, found, complete_row, o)

-- Otherwise it leaves the table alone, with an error.
abbrev pub Refuses : Table → Table × Result (Unit {0}) → Type 0
Refuses t r = (r.0 ≡ t) × (r.1 ≢ ok tt)

complete-missing :
    (q : Query) (org_id id : Uuid) (size : ℤ) (now : ℕ) (t : Table)
    → lookup id t ≡ none
    → Refuses t (complete q org_id id size now t)
unfolding complete complete_row
complete-missing (fails message) org_id id size now t e = ground arith
complete-missing answers org_id id size now t e = ground arith

pub complete-closed :
    (q : Query) (org_id id : Uuid) (size : ℤ) (now : ℕ) (t : Table) (row : Row)
    → lookup id t ≡ some row
    → is_open org_id row ≡ false
    → Refuses t (complete q org_id id size now t)
unfolding complete complete_row
complete-closed (fails message) org_id id size now t row found e = ground arith
complete-closed answers org_id id size now t row found e = ground arith

complete-bad_size :
    (q : Query) (org_id id : Uuid) (size : ℤ) (now : ℕ) (t : Table)
    → is_bad_size size ≡ true
    → Refuses t (complete q org_id id size now t)
unfolding complete
complete-bad_size q org_id id size now t e = ground (arith, e)

complete-fails :
    (message : String) (org_id id : Uuid) (size : ℤ) (now : ℕ) (t : Table)
    → Refuses t (complete (fails message) org_id id size now t)
unfolding complete
complete-fails message org_id id size now t = ground arith

-- The two ways that a call of Complete can go.
pub data Completes (q : Query) (org_id id : Uuid) (size : ℤ) (now : ℕ) (t : Table) : Type 0 where
  succeeds :
      (row : Row)
      → q ≡ answers
      → is_bad_size size ≡ false
      → lookup id t ≡ some row
      → is_open org_id row ≡ true
      → complete q org_id id size now t ≡ (insert id (completed size now row) t, ok tt)
      → Completes q org_id id size now t
  refuses : Refuses t (complete q org_id id size now t) → Completes q org_id id size now t

pub complete-Completes :
    (q : Query) (org_id id : Uuid) (size : ℤ) (now : ℕ) (t : Table)
    → Completes q org_id id size now t
complete-Completes (fails message) org_id id size now t =
    refuses (complete-fails message org_id id size now t)
complete-Completes answers org_id id size now t = elim (Option-cases (lookup id t)) [
  | inl missing ↦ refuses (complete-missing answers org_id id size now t missing)
  | inr (row, found) ↦ elim (Bool-cases (is_open org_id row)) [
    | inr e ↦ refuses (complete-closed answers org_id id size now t row found e)
    | inl o ↦ elim (Bool-cases (is_bad_size size)) [
      | inl e ↦ refuses (complete-bad_size answers org_id id size now t e)
      | inr h ↦ succeeds row refl h found o (complete-open org_id id size now t row h found o)
    ]
  ]
]

open_iff :
    (org_id : Uuid) (row : Row)
    → (is_open org_id row ≡ true) ↔ ((row.org_id ≡ org_id) × (row.status ≡ pending))
open_iff org_id row = ground (arith, same_id row.org_id org_id)

-- Complete succeeds exactly if the query reaches Postgres, the size is above 0 and at most 10 GiB, and
-- the caller's organization has a pending recording of that id.
pub complete_ok_iff :
    (q : Query) (org_id id : Uuid) (size : ℤ) (now : ℕ) (t : Table)
    → ((complete q org_id id size now t).1 ≡ ok tt) ↔ (
        (q ≡ answers)
        × (is_bad_size size ≡ false)
        × ((row : Row) × (lookup id t ≡ some row) × (row.org_id ≡ org_id) × (row.status ≡ pending)))
complete_ok_iff q org_id id size now t = (
  λ h. elim (complete-Completes q org_id id size now t) [
    | succeeds row e good found o done ↦
        let (mine, p) = (open_iff org_id row).0 o in (e, good, (row, found, mine, p))
    | refuses r ↦ absurd (r.1 h)
  ],
  λ h.
      let (e, good, (row, found, mine, p)) = h in
      rw (e, complete-open org_id id size now t row good found ((open_iff org_id row).1 (mine, p)))
        refl,
)

-- The row that Complete leaves of a row.
pub lookup-complete :
    (q : Query) (org_id id : Uuid) (size : ℤ) (now : ℕ) (t : Table) (j : Uuid) (row : Row)
    → lookup j t ≡ some row
    → (lookup j (complete q org_id id size now t).0 ≡ some row)
      ⊎ ((lookup j (complete q org_id id size now t).0 ≡ some (completed size now row))
          × (is_bad_size size ≡ false)
          × (is_open org_id row ≡ true))
lookup-complete q org_id id size now t j row found =
    elim (complete-Completes q org_id id size now t) [
      | refuses r ↦ inl (rw (r.0) found)
      | succeeds old e good there o done ↦
          ground (arith, done, rows-insert id j (completed size now old) t, same_id id j)
    ]
