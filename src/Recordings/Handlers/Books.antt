-- ===== src/Recordings/Handlers/Books.antt =====
-- What holds of the recordings table after any requests.
pub mod Kept
use ar_app.Base.{
  ℕ, ◌≡◌, ◌≢◌, ◌⊎◌, ◌∙◌, inl, inr, refl, ap, subst, Bool, true, false, not, ◌||◌, ◌&&◌, Option,
  none, some, List, [], ◌∷◌, String, ◌==◌, nat_eq, string_eq, ltb, if◌then◌else◌, arith, Bool-cases,
  Option-cases,
}
use ar_app.Base.Map.{lookup, insert}
use ar_app.Base.Int.{ℤ, pos, negsuc, pos_part, is_positive}
use ar_app.Platform.Uuid.{Uuid}
use ar_app.Auth.{Principal}
use ar_app.Session.Table.{Table as Sessions}
use ar_app.Identity.Handlers.{Response, Caller}
use ar_app.Recordings.Table.{
  Status, pending, available, failed, Row, Table, is_pending, is_open, completed,
}
use ar_app.Recordings.Service.{
  Result, ok, err, Deps, Query, is_bad_size, complete, create_upload, max_recording_size_bytes,
}
use ar_app.Recordings.Service.Completion.{
  lookup-complete, rows-insert, same_id, complete-Completes, refuses, succeeds,
}
use ar_app.Recordings.Service.Creation.{
  row_for, create_upload-Creates, reserves, refuses as refuses_upload,
}
use ar_app.Recordings.Handlers.{
  or_refused, serve_create_upload, serve_complete, complete_for, upload_for,
}

-- The requests that write, each with what it depends on.
pub data Call : Type 0 where
  creates : Query → Query → Sessions → Caller → Option Uuid → String → Uuid → ℕ → Call
  completes : Query → Caller → Option Uuid → ℤ → ℕ → Call

abbrev pub caller_of : Call → Caller
caller_of (creates q r sessions caller session_id content_type id now) = caller
caller_of (completes q caller id size now) = caller

or_refused-table : {A : Type 0} (status : ℕ) (r : Table × Result A) → (or_refused status r).0 ≡ r.0
or_refused-table status (t, ok a) = refl
or_refused-table status (t, err e) = refl

-- Who may write to a row: a member of its organization who is not a viewer.
abbrev pub may_write : Caller → Row → Bool
may_write none row = false
may_write (some p) row = not (p.role == "viewer") && row.org_id == p.org_id

-- What a call leaves of a row that is there.
data Leaves (caller : Caller) (row : Row) : Option Row → Type 0 where
  as_it_was : {o : Option Row} → o ≡ some row → Leaves caller row o
  was_completed :
      {o : Option Row} (size : ℤ) (now : ℕ)
      → is_bad_size size ≡ false
      → may_write caller row ≡ true
      → row.status ≡ pending
      → o ≡ some (completed size now row)
      → Leaves caller row o

module _ (D : Deps) where
  unfoldable pub apply : Call → Table → Table
  apply (creates q r sessions caller session_id content_type id now) t =
      (serve_create_upload D q r sessions caller session_id content_type id now t).0
  apply (completes q caller id size now) t = (serve_complete q caller id size now t).0

  unfoldable pub apply_all : List Call → Table → Table
  apply_all [] t = t
  apply_all (call ∷ calls) t = apply_all calls (apply call t)

  created_row :
      (q r : Query) (sessions : Sessions) (org_id session_id : Uuid) (content_type : String)
      (id : Uuid) (now : ℕ) (t : Table) (j : Uuid) (row : Row)
      → lookup j t ≡ some row
      → lookup j (create_upload D q r sessions org_id session_id content_type id now t).0 ≡ some row
  created_row q r sessions org_id session_id content_type id now t j row found =
      elim (create_upload-Creates D sessions org_id session_id content_type id now t q r) [
        | refuses_upload same never ↦ rw (same) found
        | reserves url s free signed done ↦ ground (
          arith,
          done,
          rows-insert id j (row_for D org_id session_id content_type id now) t,
          same_id id j,
        )
      ]

  completed-Leaves :
      (q : Query) (p : Principal) (id : Uuid) (size : ℤ) (now : ℕ) (t : Table) (j : Uuid)
      (row : Row)
      → (p.role == "viewer") ≡ false
      → lookup j t ≡ some row
      → Leaves (some p) row (lookup j (complete q p.org_id id size now t).0)
  completed-Leaves q p id size now t j row writer found =
      elim (lookup-complete q p.org_id id size now t j row found) [
        | inl same ↦ as_it_was same
        | inr (e, good, o) ↦
            was_completed size now good (ground (arith, o, writer)) (ground (arith, o)) e
      ]

  -- What a call does to the table.
  data Writes (call : Call) (t : Table) : Type 0 where
    idle : apply call t ≡ t → Writes call t
    uploads :
        (q r : Query) (sessions : Sessions) (org_id s : Uuid) (content_type : String) (id : Uuid)
        (now : ℕ)
        → apply call t ≡ (create_upload D q r sessions org_id s content_type id now t).0
        → Writes call t
    finishes :
        (q : Query) (p : Principal) (id : Uuid) (size : ℤ) (now : ℕ)
        → caller_of call ≡ some p
        → (p.role == "viewer") ≡ false
        → apply call t ≡ (complete q p.org_id id size now t).0
        → Writes call t

  apply-Writes : (call : Call) (t : Table) → Writes call t
  unfolding apply serve_complete serve_create_upload
  apply-Writes (creates q r sessions none session_id content_type id now) t = idle refl
  apply-Writes (creates q r sessions (some p) none content_type id now) t = idle (ground arith)
  apply-Writes (creates q r sessions (some p) (some s) content_type id now) t =
      elim (Bool-cases (p.role == "viewer")) [
        | inl viewer ↦ idle (ground (arith, viewer))
        | inr writer ↦ uploads q r sessions p.org_id s content_type id now (
            ground (
              arith,
              writer,
              or_refused-table 201 (create_upload D q r sessions p.org_id s content_type id now t),
            ))
      ]
  apply-Writes (completes q none id size now) t = idle refl
  apply-Writes (completes q (some p) none size now) t = idle (ground arith)
  apply-Writes (completes q (some p) (some id) size now) t =
      elim (Bool-cases (p.role == "viewer")) [
        | inl viewer ↦ idle (ground (arith, viewer))
        | inr writer ↦
            finishes q p id size now refl writer
              (ground (arith, writer, or_refused-table 200 (complete q p.org_id id size now t)))
      ]

  apply-Leaves :
      (call : Call) (t : Table) (j : Uuid) (row : Row)
      → lookup j t ≡ some row
      → Leaves (caller_of call) row (lookup j (apply call t))
  apply-Leaves call t j row found = elim (apply-Writes call t) [
    | idle e ↦ as_it_was (rw (e) found)
    | uploads q r sessions org_id s content_type id now e ↦
        as_it_was (rw (e) (created_row q r sessions org_id s content_type id now t j row found))
    | finishes q p id size now c writer e ↦
        rw (c, e) (completed-Leaves q p id size now t j row writer found)
  ]

  -- No request changes a recording of another organization, and none by a viewer or without a principal
  -- changes any recording.
  pub apply_spares :
      (call : Call) (t : Table) (j : Uuid) (row : Row)
      → lookup j t ≡ some row
      → may_write (caller_of call) row ≡ false
      → lookup j (apply call t) ≡ some row
  apply_spares call t j row found stranger = elim (apply-Leaves call t j row found) [
    | as_it_was e ↦ e
    | was_completed size now good w p e ↦ absurd (cc (w, stranger))
  ]

  -- Whatever requests follow, a recording that is available keeps its row, its size among it: it is never
  -- completed again.
  pub available_stays :
      (calls : List Call) (t : Table) (j : Uuid) (row : Row)
      → lookup j t ≡ some row
      → row.status ≡ available
      → lookup j (apply_all calls t) ≡ some row
  unfolding apply_all
  available_stays [] t j row found a = found
  available_stays (call ∷ calls) t j row found a = elim (apply-Leaves call t j row found) [
    | as_it_was e ↦ available_stays calls (apply call t) j row e a
    | was_completed size now good w p e ↦ absurd (cc (p, a))
  ]
