-- ===== src/Store/Rounds.antt =====
-- The outcomes of one round of the loop of Migrate.
use ar_app.Base.{
  ◌≡◌, refl, true, false, ◌||◌, Option, none, some, List, [], ◌∷◌, ◌++◌, String, ◌==◌, string_eq,
  any, arith, inl, inr, Bool-cases, Option-cases,
}
use ar_app.Base.Map.{lookup}
use ar_app.Store.{
  Database, Entry, Directory, Fault, fine, check_fails, read_fails, begin_fails, apply_fails,
  record_fails, commit_lost, commit_unanswered, Error, check_migration, read_migration,
  begin_migration, apply_migration, record_migration, commit_migration, is_applied, Answer,
  with_version, migrate_one, migrate_all,
}

pub any-append :
    (name : String) (versions : List String) (v : String)
    → any (λ x. x == name) (versions ++ v ∷ []) ≡ (any (λ x. x == name) versions || v == name)
any-append name [] v = ground arith
any-append name (x ∷ rest) v = ground (arith, any-append name rest v)

module _ {Data : Type 0} (dir : Directory Data) where
  -- A run in which nothing fails but a text that is refused.
  abbrev pub clean : List String → Database Data → Answer Data
  clean names db = migrate_all (λ name. fine) dir names db

  -- The outcomes of one round.
  pub data Round (fault : Fault) (name : String) (db : Database Data) : Type 0 where
    skips :
        is_applied db name ≡ true → migrate_one fault dir name db ≡ (db, none) → Round fault name db
    stays : (e : Error) → migrate_one fault dir name db ≡ (db, some e) → Round fault name db
    applies :
        (contents : Data) (r : Option Error)
        → is_applied db name ≡ false
        → migrate_one fault dir name db ≡ (with_version db name contents, r)
        → migrate_one fine dir name db ≡ (with_version db name contents, none)
        → Round fault name db

  round_found :
      (fault : Fault) (name : String) (db : Database Data) (contents : Data) (entry : Entry Data)
      → is_applied db name ≡ false
      → lookup name dir ≡ some entry
      → entry.script db.contents ≡ some contents
      → Round fault name db
  unfolding migrate_one
  round_found fine name db contents entry new e s =
      applies contents none new (rw (new, e, s) refl) (rw (new, e, s) refl)
  round_found commit_unanswered name db contents entry new e s =
      applies contents (some (commit_migration name)) new (rw (new, e, s) refl)
        (rw (new, e, s) refl)
  round_found check_fails name db contents entry new e s = stays (check_migration name) refl
  round_found read_fails name db contents entry new e s =
      stays (read_migration name) (rw (new) refl)
  round_found begin_fails name db contents entry new e s =
      stays (begin_migration name) (rw (new, e) refl)
  round_found apply_fails name db contents entry new e s =
      stays (apply_migration name) (rw (new, e) refl)
  round_found record_fails name db contents entry new e s =
      stays (record_migration name) (rw (new, e, s) refl)
  round_found commit_lost name db contents entry new e s =
      stays (commit_migration name) (rw (new, e, s) refl)

  fails_as : Fault → String → Error → Error
  fails_as check_fails name e = check_migration name
  fails_as read_fails name e = read_migration name
  fails_as begin_fails name e = begin_migration name
  fails_as _ name e = e

  round_refused :
      (fault : Fault) (name : String) (db : Database Data) (entry : Entry Data)
      → is_applied db name ≡ false
      → lookup name dir ≡ some entry
      → entry.script db.contents ≡ none
      → migrate_one fault dir name db ≡ (db, some (fails_as fault name (apply_migration name)))
  unfolding migrate_one fails_as
  round_refused fine name db entry new e s = rw (new, e, s) refl
  round_refused commit_unanswered name db entry new e s = rw (new, e, s) refl
  round_refused check_fails name db entry new e s = refl
  round_refused read_fails name db entry new e s = rw (new) refl
  round_refused begin_fails name db entry new e s = rw (new, e) refl
  round_refused apply_fails name db entry new e s = rw (new, e) refl
  round_refused record_fails name db entry new e s = rw (new, e, s) refl
  round_refused commit_lost name db entry new e s = rw (new, e, s) refl

  -- A name that the directory does not have.
  unread : Fault → String → Error
  unread check_fails name = check_migration name
  unread _ name = read_migration name

  round_missing :
      (fault : Fault) (name : String) (db : Database Data)
      → is_applied db name ≡ false
      → lookup name dir ≡ none
      → migrate_one fault dir name db ≡ (db, some (unread fault name))
  unfolding migrate_one unread
  round_missing fine name db new e = rw (new, e) refl
  round_missing commit_unanswered name db new e = rw (new, e) refl
  round_missing check_fails name db new e = refl
  round_missing read_fails name db new e = rw (new) refl
  round_missing begin_fails name db new e = rw (new, e) refl
  round_missing apply_fails name db new e = rw (new, e) refl
  round_missing record_fails name db new e = rw (new, e) refl
  round_missing commit_lost name db new e = rw (new, e) refl

  round_done :
      (fault : Fault) (name : String) (db : Database Data)
      → is_applied db name ≡ true
      → Round fault name db
  unfolding migrate_one
  round_done fine name db old = skips old (rw (old) refl)
  round_done commit_unanswered name db old = skips old (rw (old) refl)
  round_done check_fails name db old = stays (check_migration name) refl
  round_done read_fails name db old = skips old (rw (old) refl)
  round_done begin_fails name db old = skips old (rw (old) refl)
  round_done apply_fails name db old = skips old (rw (old) refl)
  round_done record_fails name db old = skips old (rw (old) refl)
  round_done commit_lost name db old = skips old (rw (old) refl)

  pub round_cases : (fault : Fault) (name : String) (db : Database Data) → Round fault name db
  round_cases fault name db = elim (Bool-cases (is_applied db name)) [
    | inl old ↦ round_done fault name db old
    | inr new ↦ elim (Option-cases (lookup name dir)) [
      | inl missing ↦ stays (unread fault name) (round_missing fault name db new missing)
      | inr (entry, e) ↦ elim (Option-cases (entry.script db.contents)) [
        | inl s ↦ stays _ (round_refused fault name db entry new e s)
        | inr (contents, s) ↦ round_found fault name db contents entry new e s
      ]
    ]
  ]
