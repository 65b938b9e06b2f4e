-- ===== src/Recordings/Service/Creation.antt =====
-- What CreateUpload leaves in the table.
use ar_app.Base.{
  ◌<◌, ◌≤◌, ℕ, ◌≡◌, ◌≢◌, ◌∙◌, sym, ap, refl, true, false, none, some, String, ◌⊎◌, inl, inr, nat_eq,
  string_eq, arith, Option-cases, Bool-cases,
}
use ar_app.Base.Map.{lookup, insert}
use ar_app.Platform.Uuid.{Uuid}
use ar_app.Session.Table.{Table as Sessions}
use ar_app.Base.Int.{ℤ, pos}
use ar_app.Recordings.Service.Completion.{rows-insert, same_id, complete-open, complete-closed}
use ar_app.Recordings.Table.{
  Row, Table, available, completed, is_open, new_row, session_exists, insert_recording,
}
use ar_app.Recordings.Service.{
  Result, ok, err, Error, complete, Upload, Deps, Query, answers, fails, create_upload,
  object_key_of, or_webm, seconds,
}

module _ (D : Deps) where
  -- The row and the answer of an upload.
  abbrev pub row_for : Uuid → Uuid → String → Uuid → ℕ → Row
  row_for org_id session_id content_type id now =
      new_row session_id org_id (object_key_of D session_id id) (or_webm content_type) now

  abbrev pub upload_to : Uuid → Uuid → String → Upload
  upload_to session_id id url = record {
    recording_id = id;
    object_key = object_key_of D session_id id;
    url = url;
    expires_in = seconds D.url_ttl;
  }

  -- The two ways that a call of CreateUpload can go.
  pub data Creates (q r : Query) (sessions : Sessions) (org_id session_id : Uuid)
      (content_type : String) (id : Uuid) (now : ℕ) (t : Table) : Type 0 where
    reserves :
        (url : String)
        → session_exists session_id org_id sessions ≡ true
        → lookup id t ≡ none
        → D.presign_put (object_key_of D session_id id) (or_webm content_type) D.url_ttl ≡ ok url
        → create_upload D q r sessions org_id session_id content_type id now t ≡ (
          insert id (row_for org_id session_id content_type id now) t,
          ok (upload_to session_id id url),
        )
        → Creates q r sessions org_id session_id content_type id now t
    refuses :
        (create_upload D q r sessions org_id session_id content_type id now t).0 ≡ t
        → ((upload : Upload)
            → (create_upload D q r sessions org_id session_id content_type id now t).1 ≢ ok upload)
        → Creates q r sessions org_id session_id content_type id now t

  insert_fresh :
      (row : Row) (id : Uuid) (t : Table)
      → lookup id t ≡ none
      → insert_recording id row t ≡ some (insert id row t)
  unfolding insert_recording
  insert_fresh row id t e = rw (e, insert_recording)

  insert_taken :
      (row old : Row) (id : Uuid) (t : Table)
      → lookup id t ≡ some old
      → insert_recording id row t ≡ none
  unfolding insert_recording
  insert_taken row old id t e = rw (e, insert_recording)

  module _ (sessions : Sessions) (org_id session_id : Uuid) (content_type : String) (id : Uuid)
      (now : ℕ) (t : Table) where
    abbrev Outcome : Query → Query → Type 0
    Outcome q r = Creates q r sessions org_id session_id content_type id now t

    abbrev signed : Result String
    signed = D.presign_put (object_key_of D session_id id) (or_webm content_type) D.url_ttl

    Result-cases :
        (s : Result String) → ((e : Error) × (s ≡ err e)) ⊎ ((url : String) × (s ≡ ok url))
    Result-cases (err e) = inl (e, refl)
    Result-cases (ok url) = inr (url, refl)

    fails_create : (message : String) (r : Query) → Outcome (fails message) r
    unfolding create_upload
    fails_create message r = refuses refl λ u e. absurd (cc e)

    no_session : (r : Query) → session_exists session_id org_id sessions ≡ false → Outcome answers r
    unfolding create_upload
    no_session r h = refuses (rw (h) refl) λ u. rw (h) λ e. absurd (cc e)

    no_url : (r : Query) (e : Error) → signed ≡ err e → Outcome answers r
    unfolding create_upload
    no_url r e h = refuses (ground (arith, h)) λ u x. ground (arith, h, x)

    insert_lost : (message : String) → Outcome answers (fails message)
    unfolding create_upload
    insert_lost message = refuses (ground arith) λ u x. ground (arith, x)

    id_taken : (old : Row) → lookup id t ≡ some old → Outcome answers answers
    unfolding create_upload
    id_taken old h =
        refuses
          (ground (arith, insert_taken (row_for org_id session_id content_type id now) old id t h))
          λ u x.
            ground
              (arith, x, insert_taken (row_for org_id session_id content_type id now) old id t h)

    reserved :
        (url : String)
        → session_exists session_id org_id sessions ≡ true
        → lookup id t ≡ none
        → signed ≡ ok url
        → Outcome answers answers
    unfolding create_upload
    reserved url s f h =
        reserves url s f h
          (rw (s, h, insert_fresh (row_for org_id session_id content_type id now) id t f) refl)

    pub create_upload-Creates : (q r : Query) → Outcome q r
    create_upload-Creates (fails message) r = fails_create message r
    create_upload-Creates answers (fails message) = insert_lost message
    create_upload-Creates answers answers =
        elim (Bool-cases (session_exists session_id org_id sessions)) [
          | inr h ↦ no_session answers h
          | inl s ↦ elim (Result-cases signed) [
            | inl (e, h) ↦ no_url answers e h
            | inr (url, h) ↦ elim (Option-cases (lookup id t)) [
              | inr (old, taken) ↦ id_taken old taken
              | inl free ↦ reserved url s free h
            ]
          ]
        ]

  granted_upload : (a b : Upload) → ◌≡◌ {A = Result Upload} (ok a) (ok b) → a ≡ b
  granted_upload a b h = ground (arith, h)

  row_id : (id : Uuid) (row : Row) (t : Table) → lookup id (insert id row t) ≡ some row
  row_id id row t = ground (arith, rows-insert id id row t, same_id id id)

  granted_open :
      (org_id session_id : Uuid) (content_type : String) (id : Uuid) (now : ℕ)
      → is_open org_id (row_for org_id session_id content_type id now) ≡ true
  granted_open org_id session_id content_type id now = ground (arith, same_id org_id org_id)

  -- An upload that CreateUpload has granted can be completed by the same organization with any size above
  -- 0 and at most 10 GiB, while Postgres answers; the recording is then available with that size, for the
  -- session, under the key of the upload. It can be completed once: a second call leaves the table as it
  -- is and does not succeed, whatever its size, its caller's organization and the answer of Postgres are.
  pub complete-create_upload :
      (sessions : Sessions) (org_id session_id : Uuid) (content_type : String) (id : Uuid)
      (now later last : ℕ) (size : ℕ) (again : ℤ) (other : Uuid) (q : Query) (t t' : Table)
      (u : Upload)
      → create_upload D answers answers sessions org_id session_id content_type id now t
        ≡ (t', ok u)
      → 0 < size
      → size ≤ 10737418240
      → (row : Row) × (complete answers org_id u.recording_id (pos size) later t'
          ≡ (insert u.recording_id row t', ok tt))
        × (row.status ≡ available)
        × (row.size_bytes ≡ pos size)
        × (row.session_id ≡ session_id)
        × (row.org_id ≡ org_id)
        × (row.object_key ≡ u.object_key)
        × (session_exists session_id org_id sessions ≡ true)
        × ((complete q other u.recording_id again last (insert u.recording_id row t')).0
            ≡ insert u.recording_id row t')
        × ((complete q other u.recording_id again last (insert u.recording_id row t')).1 ≢ ok tt)
  complete-create_upload sessions org_id session_id content_type id now later last size again other
        q t t' u h some_bytes small =
      elim (create_upload-Creates sessions org_id session_id content_type id now t answers
        answers) [
          | refuses same never ↦ absurd (never u (ap (λ r. r.1) h))
          | reserves url s free signed done ↦
              let row = row_for org_id session_id content_type id now in
              let e = sym h ∙ done in
              let same_table : t' ≡ insert id row t = ap (λ r. r.0) e in
              let same_upload : u ≡ upload_to session_id id url =
                granted_upload u _ (ap (λ r. r.1) e) in
              let closed =
                complete-closed q other u.recording_id again last
                  (insert u.recording_id (completed (pos size) later row) t')
                  (completed (pos size) later row)
                  (row_id u.recording_id (completed (pos size) later row) t') (ground arith) in
              (
                completed (pos size) later row,
                rw (same_table, same_upload)
                    (complete-open org_id id (pos size) later (insert id row t) row
                      (ground (arith, some_bytes, small)) (row_id id row t)
                      (granted_open org_id session_id content_type id now)),
                refl,
                refl,
                refl,
                refl,
                rw (same_upload) refl,
                s,
                closed.0,
                closed.1,
              )
        ]
