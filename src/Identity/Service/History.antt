-- ===== src/Identity/Service/History.antt =====
-- What every history of calls of the service leaves of a row of the users table.
use ar_app.Base.{
  ℕ, zero, suc, ◌≡◌, refl, ap, ◌∙◌, inl, inr, Bool, true, false, some, List, [], ◌∷◌, String, ◌==◌,
  nat_eq, string_eq, arith, if◌then◌else◌, Option-cases, Bool-cases,
}
use ar_app.Base.Map.{lookup, insert}
use ar_app.Platform.Uuid.{Uuid}
use ar_app.Identity.Table.{Row, Table, with_disabled, bumped}
use ar_app.Identity.Table.Versions.{
  id_same, users-insert, lookup-update_user, Succeeds, Succeeds-refl, Succeeds-trans,
  update-Succeeds, with_disabled-Succeeds, bumped-Succeeds,
}
use ar_app.Identity.Service.{
  Deps, insert_user, create_user, register_org, affected, set_disabled, bump_token_version,
}

-- The calls of the service that change the table.
pub data Op : Type 0 where
  creates : Bool → Uuid → String → String → String → String → ℕ → Op
  registers : Bool → Uuid → String → String → String → ℕ → Op
  toggles : Bool → Uuid → Uuid → Bool → Op
  bumps : Bool → Uuid → Uuid → Op

module _ (D : Deps) where
  unfoldable pub apply : Op → Table → Table
  apply (creates up org email password name role now) t =
      (create_user D up org email password name role now t).0
  apply (registers up org email password name now) t =
      (register_org D up org email password name now t).0
  apply (toggles up org user d) t = (set_disabled up org user d t).0
  apply (bumps up org user) t = (bump_token_version up org user t).0

  unfoldable pub apply_all : List Op → Table → Table
  apply_all [] t = t
  apply_all (o ∷ rest) t = apply_all rest (apply o t)

  lookup-fresh :
      (t : Table) (id : Uuid) (row new : Row)
      → lookup id t ≡ some row
      → lookup id (insert (D.new_id t) new t) ≡ some row
  lookup-fresh t id row new e =
      ground (arith, users-insert (D.new_id t) id new t, id_same (D.new_id t) id, D.new_id_fresh t)

  lookup-insert_user :
      (org : Uuid) (email hash name role : String) (now : ℕ) (t : Table) (id : Uuid) (row : Row)
      → lookup id t ≡ some row
      → lookup id (insert_user D org email hash name role now t).0 ≡ some row
  unfolding insert_user
  lookup-insert_user org email hash name role now t id row e =
      grind (arith, λ (new : Row). lookup-fresh t id row new e)

  abbrev pub Kept : Uuid → Row → Table → Type 0
  Kept id row t = (row' : Row) × (lookup id t ≡ some row') × Succeeds row row'

  affected-table : (r : Table × ℕ) → (affected r).0 ≡ r.0
  affected-table (t, zero) = refl
  affected-table (t, suc n) = refl

  set_disabled-Kept :
      (up : Bool) (org user : Uuid) (d : Bool) (t : Table) (id : Uuid) (row : Row)
      → lookup id t ≡ some row
      → Kept id row (set_disabled up org user d t).0
  unfolding set_disabled
  set_disabled-Kept false org user d t id row e = (row, e, Succeeds-refl row)
  set_disabled-Kept true org user d t id row e = (
    _,
    ap (lookup id) (affected-table _) ∙ lookup-update_user (with_disabled d) user org id t row e,
    update-Succeeds (with_disabled d) user org id row (with_disabled-Succeeds d row),
  )

  bump-Kept :
      (up : Bool) (org user : Uuid) (t : Table) (id : Uuid) (row : Row)
      → lookup id t ≡ some row
      → Kept id row (bump_token_version up org user t).0
  unfolding bump_token_version
  bump-Kept false org user t id row e = (row, e, Succeeds-refl row)
  bump-Kept true org user t id row e = (
    _,
    lookup-update_user bumped user org id t row e,
    update-Succeeds bumped user org id row (bumped-Succeeds row),
  )

  create-Kept :
      (up : Bool) (org : Uuid) (email password name role : String) (now : ℕ) (t : Table) (id : Uuid)
      (row : Row)
      → lookup id t ≡ some row
      → Kept id row (create_user D up org email password name role now t).0
  unfolding create_user
  create-Kept up org email password name role now t id row e = (
    row,
    elim (Option-cases (D.hash_password password)) [
      | inl h ↦ rw (h, create_user) e
      | inr (hash, h) ↦ elim (Bool-cases up) [
        | inl u ↦
            rw (h, create_user, u)
              (lookup-insert_user org _ hash name (if role == "" then "agent" else role) now t id
                row e)
        | inr d ↦ rw (h, create_user, d) e
      ]
    ],
    Succeeds-refl row,
  )

  register-Kept :
      (up : Bool) (org : Uuid) (email password name : String) (now : ℕ) (t : Table) (id : Uuid)
      (row : Row)
      → lookup id t ≡ some row
      → Kept id row (register_org D up org email password name now t).0
  unfolding register_org
  register-Kept up org email password name now t id row e = (
    row,
    elim (Option-cases (D.hash_password password)) [
      | inl h ↦ rw (h, register_org) e
      | inr (hash, h) ↦ elim (Bool-cases up) [
        | inl u ↦
            rw (h, register_org, u) (lookup-insert_user org _ hash name "admin" now t id row e)
        | inr d ↦ rw (h, register_org, d) e
      ]
    ],
    Succeeds-refl row,
  )

  apply-Kept :
      (o : Op) (t : Table) (id : Uuid) (row : Row)
      → lookup id t ≡ some row
      → Kept id row (apply o t)
  unfolding apply
  apply-Kept (creates up org email password name role now) t id row e =
      create-Kept up org email password name role now t id row e
  apply-Kept (registers up org email password name now) t id row e =
      register-Kept up org email password name now t id row e
  apply-Kept (toggles up org user d) t id row e = set_disabled-Kept up org user d t id row e
  apply-Kept (bumps up org user) t id row e = bump-Kept up org user t id row e

  pub apply_all-Kept :
      (ops : List Op) (t : Table) (id : Uuid) (row : Row)
      → lookup id t ≡ some row
      → Kept id row (apply_all ops t)
  unfolding apply_all
  apply_all-Kept [] t id row e = (row, e, Succeeds-refl row)
  apply_all-Kept (o ∷ rest) t id row e =
      let (mid, found, s) = apply-Kept o t id row e in
      let (last, found', s') = apply_all-Kept rest (apply o t) id mid found in
      (last, found', Succeeds-trans row mid last s s')
