-- ===== src/Store.antt =====
-- backend/internal/store/store.go: Migrate. The database is its data and the table schema_migrations; a
-- migration's text is what Postgres makes of the data with it, unless it is refused.
pub mod Rounds
pub mod Migrations
pub mod Order
use ar_app.Base.{
  ℕ, Bool, true, false, not, ◌&&◌, ◌||◌, Option, none, some, List, [], ◌∷◌, ◌++◌, String, ◌==◌,
  string_eq, any, if◌then◌else◌,
}
use ar_app.Base.Map.{Map, lookup}

module _ (Data : Type 0) where
  pub record Database : Type 0 where
    pub contents : Data
    -- The versions of schema_migrations, in the order of their insertion.
    pub versions : List String

  abbrev pub Script : Type 0
  Script = Data → Option Data

  pub record Entry : Type 0 where
    pub is_dir : Bool
    pub script : Script

  -- The embedded directory.
  abbrev pub Directory : Type 0
  Directory = Map String Entry

-- What goes wrong at one migration: nothing, or the check, the read, the begin, the text or the insert of the
-- version fails; or the commit fails, and has or has not taken effect.
pub data Fault : Type 0 where
  fine check_fails read_fails begin_fails apply_fails record_fails commit_lost commit_unanswered :
      Fault

-- The step at which Migrate gives up.
pub data Error : Type 0 where
  ensure_table read_directory : Error
  check_migration read_migration begin_migration apply_migration record_migration commit_migration :
      String → Error

abbrev pub is_applied : {Data : Type 0} → Database Data → String → Bool
is_applied db name = any (λ v. v == name) db.versions

abbrev pub Answer : Type 0 → Type 0
Answer Data = Database Data × Option Error

module _ {Data : Type 0} where
  abbrev pub with_version : Database Data → String → Data → Database Data
  with_version db name contents = record {
    contents = contents;
    versions = db.versions ++ name ∷ [];
  }

  -- The transaction of a migration whose text has been read.
  abbrev transact : Fault → String → Option Data → Database Data → Answer Data
  transact begin_fails name result db = (db, some (begin_migration name))
  transact apply_fails name result db = (db, some (apply_migration name))
  transact fault name none db = (db, some (apply_migration name))
  transact record_fails name (some contents) db = (db, some (record_migration name))
  transact commit_lost name (some contents) db = (db, some (commit_migration name))
  transact commit_unanswered name (some contents) db =
      (with_version db name contents, some (commit_migration name))
  transact fault name (some contents) db = (with_version db name contents, none)

  abbrev read_script : Fault → String → Option (Entry Data) → Database Data → Answer Data
  read_script read_fails name entry db = (db, some (read_migration name))
  read_script fault name none db = (db, some (read_migration name))
  read_script fault name (some entry) db = transact fault name (entry.script db.contents) db

  -- One round of the loop.
  unfoldable pub migrate_one : Fault → Directory Data → String → Database Data → Answer Data
  migrate_one check_fails dir name db = (db, some (check_migration name))
  migrate_one fault dir name db =
      if is_applied db name then (db, none) else read_script fault name (lookup name dir) db

  abbrev go_on : (Database Data → Answer Data) → Answer Data → Answer Data
  go_on next (db, none) = next db
  go_on next (db, some e) = (db, some e)

  -- The loop over the names; each round has its fault.
  unfoldable pub migrate_all :
      (String → Fault) → Directory Data → List String → Database Data → Answer Data
  migrate_all fault dir [] db = (db, none)
  migrate_all fault dir (name ∷ names) db =
      go_on (migrate_all fault dir names) (migrate_one (fault name) dir name db)

  -- `!e.IsDir() && strings.HasSuffix(e.Name(), ".sql")`, where `is_sql` is the test of the suffix.
  unfoldable pub names_of : (String → Bool) → Directory Data → List String
  names_of is_sql [] = []
  names_of is_sql ((name, entry) ∷ dir) =
      let rest = names_of is_sql dir in
      if not entry.is_dir && is_sql name then name ∷ rest else rest

  -- Migrate: whether the table can be made and the directory be read, and sort.Strings.
  unfoldable pub migrate :
      Bool
      → Bool
      → (String → Bool)
      → (List String → List String)
      → (String → Fault)
      → Directory Data
      → Database Data
      → Answer Data
  migrate false listed is_sql sort fault dir db = (db, some ensure_table)
  migrate true false is_sql sort fault dir db = (db, some read_directory)
  migrate true true is_sql sort fault dir db = migrate_all fault dir (sort (names_of is_sql dir)) db
