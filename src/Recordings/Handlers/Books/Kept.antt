-- ===== src/Recordings/Handlers/Books/Kept.antt =====
-- The sizes and statuses of the recordings.
use ar_app.Base.{
  ℕ, ◌≡◌, ◌&&◌, leb, inl, inr, refl, Bool, true, false, Option, none, some, List, [], ◌∷◌, String,
  ◌==◌, nat_eq, string_eq, arith, Bool-cases, Option-cases,
}
use ar_app.Base.Map.{lookup}
use ar_app.Base.Int.{pos, negsuc, ℤ, is_positive, pos_part}
use ar_app.Platform.Uuid.{Uuid}
use ar_app.Session.Table.{Table as Sessions}
use ar_app.Identity.Handlers.{Caller}
use ar_app.Recordings.Table.{pending, available, failed, Row, Table, completed}
use ar_app.Recordings.Service.{Deps, Query, complete, create_upload}
use ar_app.Recordings.Service.Completion.{
  rows-insert, same_id, complete-Completes, refuses, succeeds,
}
use ar_app.Recordings.Service.Creation.{
  row_for, create_upload-Creates, reserves, refuses as refuses_upload,
}
use ar_app.Recordings.Handlers.Books.{
  Call, caller_of, Leaves, as_it_was, was_completed, idle, uploads, finishes, apply, apply_all,
  apply-Writes, apply-Leaves,
}

module _ (D : Deps) where
  abbrev pub is_zero : ℤ → Bool
  is_zero (pos n) = n == 0
  is_zero (negsuc n) = false

  -- A pending recording has size 0, and an available one a size above 0 and at most 10 GiB; no other
  -- status is in use.
  abbrev pub is_kept : Row → Bool
  is_kept row = elim row.status [
    | pending ↦ is_zero row.size_bytes
    | available ↦ is_positive row.size_bytes && leb (pos_part row.size_bytes) 10737418240
    | failed ↦ false
  ]

  -- What a call puts where no row was.
  data Adds : Option Row → Type 0 where
    nothing : {o : Option Row} → o ≡ none → Adds o
    kept_row : {o : Option Row} (row : Row) → is_kept row ≡ true → o ≡ some row → Adds o

  created-Adds :
      (q r : Query) (sessions : Sessions) (org_id session_id : Uuid) (content_type : String)
      (id : Uuid) (now : ℕ) (t : Table) (j : Uuid)
      → lookup j t ≡ none
      → Adds (lookup j (create_upload D q r sessions org_id session_id content_type id now t).0)
  created-Adds q r sessions org_id session_id content_type id now t j free =
      elim (create_upload-Creates D sessions org_id session_id content_type id now t q r) [
        | refuses_upload same never ↦ nothing (rw (same) free)
        | reserves url s fresh signed done ↦ elim (Bool-cases (id == j)) [
          | inl e ↦ kept_row (row_for D org_id session_id content_type id now) refl (
              ground
                (arith, done, rows-insert id j (row_for D org_id session_id content_type id now) t))
          | inr e ↦ nothing (
              ground
                (arith, done, rows-insert id j (row_for D org_id session_id content_type id now) t))
        ]
      ]

  completed-Adds :
      (q : Query) (org_id id : Uuid) (size : ℤ) (now : ℕ) (t : Table) (j : Uuid)
      → lookup j t ≡ none
      → lookup j (complete q org_id id size now t).0 ≡ none
  completed-Adds q org_id id size now t j free = elim (complete-Completes q org_id id size now t) [
    | refuses r ↦ rw (r.0) free
    | succeeds row e good found o done ↦
        ground (arith, done, rows-insert id j (completed size now row) t, same_id id j)
  ]

  apply-Adds :
      (call : Call) (t : Table) (j : Uuid) → lookup j t ≡ none → Adds (lookup j (apply D call t))
  apply-Adds call t j free = elim (apply-Writes D call t) [
    | idle e ↦ nothing (rw (e) free)
    | uploads q r sessions org_id s content_type id now e ↦
        rw (e) (created-Adds q r sessions org_id s content_type id now t j free)
    | finishes q p id size now c writer e ↦
        nothing (rw (e) (completed-Adds q p.org_id id size now t j free))
  ]

  -- Every row is kept.
  abbrev pub Kept : Table → Type 0
  Kept t = (j : Uuid) (row : Row) → lookup j t ≡ some row → is_kept row ≡ true

  same_row : (o : Option Row) (a b : Row) → o ≡ some a → o ≡ some b → a ≡ b
  same_row o a b h k = ground (arith, h, k)

  left-kept :
      (caller : Caller) (old row : Row) (o : Option Row)
      → is_kept old ≡ true
      → Leaves caller old o
      → o ≡ some row
      → is_kept row ≡ true
  left-kept caller old row o k (as_it_was e) h = rw (same_row o row old h e) k
  left-kept caller old row o k (was_completed size now good w p e) h =
      rw (same_row o row (completed size now old) h e) (ground (arith, good))

  added-kept : (row : Row) (o : Option Row) → Adds o → o ≡ some row → is_kept row ≡ true
  added-kept row o (nothing e) h = absurd (cc (e, h))
  added-kept row o (kept_row new k e) h = rw (same_row o row new h e) k

  apply-Kept : (call : Call) (t : Table) → Kept t → Kept (apply D call t)
  apply-Kept call t k j row e = elim (Option-cases (lookup j t)) [
    | inl free ↦ added-kept row (lookup j (apply D call t)) (apply-Adds call t j free) e
    | inr (old, found) ↦
        left-kept (caller_of call) old row (lookup j (apply D call t)) (k j old found)
          (apply-Leaves D call t j old found) e
  ]

  all-Kept : (calls : List Call) (t : Table) → Kept t → Kept (apply_all D calls t)
  unfolding apply_all
  all-Kept [] t k = k
  all-Kept (call ∷ calls) t k = all-Kept calls (apply D call t) (apply-Kept call t k)

  -- After any requests of any callers, from an empty table, each recording is pending with size 0 or
  -- available with a size above 0 and at most 10 GiB.
  pub recordings_kept :
      (calls : List Call) (j : Uuid) (row : Row)
      → lookup j (apply_all D calls []) ≡ some row
      → is_kept row ≡ true
  unfolding lookup
  recordings_kept calls = all-Kept calls [] λ j row e. absurd (cc e)
