-- ===== src/Store/Order.antt =====
-- A first run of Migrate.
use ar_app.Base.{
  ◌≡◌, refl, ◌∙◌, ap, true, false, none, some, List, [], ◌∷◌, ◌++◌, String, ◌==◌, string_eq, any,
  arith, inl, inr, Option-cases,
}
use mathlib.Core.List.{append-nil, append_assoc}
use ar_app.Base.Map.{lookup}
use ar_app.Store.{
  Answer, Database, Entry, Directory, fine, is_applied, with_version, migrate_one, migrate_all,
}
use ar_app.Store.Rounds.{any-append, clean}
use ar_app.Store.Migrations.{scripts_after, is_fresh}

module _ {Data : Type 0} (dir : Directory Data) where
  fresh_still :
      (names : List String) (db : Database Data) (name : String) (contents : Data)
      → is_fresh dir db names ≡ true
      → any (λ x. x == name) names ≡ false
      → is_fresh dir (with_version db name contents) names ≡ true
  fresh_still [] db name contents f h = refl
  fresh_still (other ∷ names) db name contents f h = ground (
    arith,
    f,
    h,
    any-append other db.versions name,
    string_eq.beq_iff name other,
    string_eq.beq_iff other name,
    fresh_still names db name contents,
  )

  one_fresh :
      (db : Database Data) (name : String) (entry : Entry Data) (contents : Data)
      → is_applied db name ≡ false
      → lookup name dir ≡ some entry
      → entry.script db.contents ≡ some contents
      → migrate_one fine dir name db ≡ (with_version db name contents, none)
  unfolding migrate_one
  one_fresh db name entry contents new e s = rw (new, e, s) refl

  run_of : Data → List String → Answer Data
  run_of contents versions = (record { contents = contents; versions = versions }, none)

  -- When none of the names is applied and none comes twice, and each text applies to what the ones before
  -- it have made, a run in which Postgres answers succeeds: it has run each text once, in the order of the
  -- names, and has recorded each name, in that order.
  pub clean_fresh :
      (names : List String) (db : Database Data) (contents : Data)
      → is_fresh dir db names ≡ true
      → scripts_after dir names db.contents ≡ some contents
      → clean dir names db ≡ (record { contents = contents; versions = db.versions ++ names }, none)
  unfolding migrate_all run_of
  clean_fresh [] db contents f h = cc (append-nil db.versions, h)
  clean_fresh (name ∷ names) db contents f h = elim (Option-cases (lookup name dir)) [
    | inl missing ↦ absurd (ground (arith, h, missing))
    | inr (entry, e) ↦ elim (Option-cases (entry.script db.contents)) [
      | inl s ↦ absurd (ground (arith, h, e, s))
      | inr (next, s) ↦ rw (one_fresh db name entry next (ground (arith, f)) e s) (
          clean_fresh names (with_version db name next) contents
            (fresh_still names db name next (ground (arith, f)) (ground (arith, f)))
            (ground (arith, h, e, s))
          ∙ ap (run_of contents) (append_assoc db.versions (name ∷ []) names))
    ]
  ]
