-- ===== src/Store/Migrations.antt =====
-- Runs of Migrate that fail, and the run that comes after them.
use ar_app.Base.{
  ◌≡◌, refl, sym, ◌∙◌, Bool, true, false, not, ◌&&◌, Option, none, some, List, [], ◌∷◌, String,
  ◌==◌, string_eq, any, arith, beq_refl,
}
use ar_app.Base.Map.{lookup}
use ar_app.Store.{
  Database, Directory, Fault, fine, is_applied, Answer, with_version, migrate_one, migrate_all,
  names_of, migrate,
}
use ar_app.Store.Rounds.{any-append, clean, skips, stays, applies, round_cases}

module _ {Data : Type 0} (dir : Directory Data) where
  applied_now :
      (db : Database Data) (name : String) (contents : Data)
      → is_applied (with_version db name contents) name ≡ true
  applied_now db name contents = ground (arith, any-append name db.versions name, beq_refl name)

  -- A version that is applied stays applied.
  one_keeps :
      (fault : Fault) (name other : String) (db : Database Data)
      → is_applied db other ≡ true
      → is_applied (migrate_one fault dir name db).0 other ≡ true
  one_keeps fault name other db h = elim (round_cases dir fault name db) [
    | skips old e ↦ rw (e) h
    | stays r e ↦ rw (e) h
    | applies contents r new e f ↦ rw (e) (ground (arith, any-append other db.versions name, h))
  ]

  all_keep :
      (fault : String → Fault) (names : List String) (other : String) (db : Database Data)
      → is_applied db other ≡ true
      → is_applied (migrate_all fault dir names db).0 other ≡ true
  unfolding migrate_all
  all_keep fault [] other db h = h
  all_keep fault (name ∷ names) other db h = elim (round_cases dir (fault name) name db) [
    | skips old e ↦ rw (e) (all_keep fault names other db h)
    | stays r e ↦ rw (e) h
    | applies contents none new e f ↦ rw (e) (
        all_keep fault names other (with_version db name contents)
          (ground (arith, any-append other db.versions name, h)))
    | applies contents (some r) new e f ↦
        rw (e) (ground (arith, any-append other db.versions name, h))
  ]

  clean_skip :
      (name : String) (names : List String) (db : Database Data)
      → is_applied db name ≡ true
      → clean dir (name ∷ names) db ≡ clean dir names db
  unfolding migrate_all migrate_one
  clean_skip name names db h = rw (h) refl

  clean_apply :
      (name : String) (names : List String) (db db' : Database Data)
      → migrate_one fine dir name db ≡ (db', none)
      → clean dir (name ∷ names) db ≡ clean dir names db'
  unfolding migrate_all
  clean_apply name names db db' h = rw (h) refl

  -- What a run has left, whatever failed in it, a clean run completes to what a clean run alone gives.
  clean_after :
      (fault : String → Fault) (names : List String) (db : Database Data)
      → clean dir names (migrate_all fault dir names db).0 ≡ clean dir names db
  unfolding migrate_all
  clean_after fault [] db = refl
  clean_after fault (name ∷ names) db = elim (round_cases dir (fault name) name db) [
    | skips old e ↦ rw (e) (
        clean_skip name names (migrate_all fault dir names db).0 (all_keep fault names name db old)
        ∙ clean_after fault names db
        ∙ sym (clean_skip name names db old))
    | stays r e ↦ rw (e) refl
    | applies contents none new e f ↦
        let db' = with_version db name contents in
        rw (e) (
          clean_skip name names (migrate_all fault dir names db').0
            (all_keep fault names name db' (applied_now db name contents))
          ∙ clean_after fault names db'
          ∙ sym (clean_apply name names db db' f))
    | applies contents (some r) new e f ↦
        let db' = with_version db name contents in
        rw (e) (
          clean_skip name names db' (applied_now db name contents)
          ∙ sym (clean_apply name names db db' f))
  ]

  -- A call of Migrate: whether the table can be made and the directory be read, and what fails after it.
  pub record Attempt : Type 0 where
    pub ensured : Bool
    pub listed : Bool
    pub fault : String → Fault

  module _ (is_sql : String → Bool) (sort : List String → List String) where
    -- The database after some calls of Migrate.
    abbrev pub after_attempts : List Attempt → Database Data → Database Data
    after_attempts [] db = db
    after_attempts (a ∷ rest) db =
        after_attempts rest (migrate a.ensured a.listed is_sql sort a.fault dir db).0

    abbrev pub clean_migrate : Database Data → Answer Data
    clean_migrate db = migrate true true is_sql sort (λ name. fine) dir db

    after_attempt :
        (ensured listed : Bool) (fault : String → Fault) (db : Database Data)
        → clean_migrate (migrate ensured listed is_sql sort fault dir db).0 ≡ clean_migrate db
    unfolding migrate
    after_attempt false listed fault db = refl
    after_attempt true false fault db = refl
    after_attempt true true fault db = clean_after fault (sort (names_of is_sql dir)) db

    -- However many calls of Migrate have failed, and wherever, a commit whose answer was lost included, a
    -- call in which Postgres answers leaves the database, and answers, as if it had been the only call.
    pub migrate_resumes :
        (attempts : List Attempt) (db : Database Data)
        → clean_migrate (after_attempts attempts db) ≡ clean_migrate db
    migrate_resumes [] db = refl
    migrate_resumes (a ∷ rest) db =
        migrate_resumes rest (migrate a.ensured a.listed is_sql sort a.fault dir db).0
        ∙ after_attempt a.ensured a.listed a.fault db

    -- A second call after one in which Postgres answered changes nothing, and succeeds if the first did.
    pub migrate_idempotent :
        (db : Database Data) → clean_migrate (clean_migrate db).0 ≡ clean_migrate db
    migrate_idempotent db = after_attempt true true (λ name. fine) db

  -- The texts of the names, in order, as long as each one is there and is not refused.
  abbrev pub scripts_after : List String → Data → Option Data
  scripts_after [] contents = some contents
  scripts_after (name ∷ names) contents = elim (lookup name dir) [
    | none ↦ none
    | some entry ↦ elim (entry.script contents) [
      | none ↦ none
      | some next ↦ scripts_after names next
    ]
  ]

  -- No name is applied, and none comes twice.
  abbrev pub is_fresh : Database Data → List String → Bool
  is_fresh db [] = true
  is_fresh db (name ∷ names) =
      not (is_applied db name) && (not (any (λ x. x == name) names) && is_fresh db names)
