-- ===== src/Examples/Settings.antt =====
-- Runs of the start-up: configuration and migrations.
use ar_app.Base.{
  ◌*◌, ◌≤◌, ◌≡◌, ◌↔◌, refl, true, false, Option, none, some, List, [], ◌∷◌, String, ◌==◌, string_eq,
  nat_eq, arith, if◌then◌else◌,
}
use ar_app.Base.Map.{lookup}
use ar_app.Base.Int.{pos}
use ar_app.Config.{seconds, second}
use ar_app.Config.Durations.{seconds_exact_iff}
use ar_app.Store.{Database, Directory, Fault, fine, commit_unanswered, record_fails}
use ar_app.Store.Migrations.{Attempt, after_attempts, clean_migrate, migrate_resumes, scripts_after}
use ar_app.Store.Rounds.{clean}
use ar_app.Store.Order.{clean_fresh}

seconds_exact_iff_example :
    (seconds (pos 9223372037) ≡ pos (9223372037 * second)) ↔ (9223372037 ≤ 9223372036)
seconds_exact_iff_example = seconds_exact_iff 9223372037 (omega arith)

-- A schema is the list of its tables; the second file needs the first.
abbrev Schema : Type 0
Schema = List String

abbrev init : Schema → Option Schema
init [] = some ("users" ∷ [])
init (t ∷ rest) = none

abbrev extend : Schema → Option Schema
extend [] = none
extend (t ∷ rest) = some ("recordings" ∷ t ∷ rest)

abbrev files : Directory Schema
files =
    ("0001_init.sql", record { is_dir = false; script = init })
    ∷ ("0002_recordings.sql", record { is_dir = false; script = extend })
    ∷ []

abbrev names : List String
names = "0001_init.sql" ∷ "0002_recordings.sql" ∷ []

abbrev bare : Database Schema
bare = record { contents = []; versions = [] }

-- The second file fails, then the first one's commit is not answered.
abbrev second_fails : String → Fault
second_fails name = if name == "0002_recordings.sql" then record_fails else fine

abbrev first_unanswered : String → Fault
first_unanswered name = if name == "0001_init.sql" then commit_unanswered else fine

abbrev attempts : List (Attempt files)
attempts =
    record { ensured = true; listed = true; fault = first_unanswered }
    ∷ record { ensured = true; listed = true; fault = second_fails }
    ∷ record { ensured = false; listed = true; fault = second_fails }
    ∷ []

migrate_resumes_example :
    clean_migrate files
      (λ name. true)
      (λ l. l)
      (after_attempts files (λ name. true) (λ l. l) attempts bare)
    ≡ clean_migrate files (λ name. true) (λ l. l) bare
migrate_resumes_example = migrate_resumes files (λ name. true) (λ l. l) attempts bare

applies_both : scripts_after files names [] ≡ some ("recordings" ∷ "users" ∷ [])
unfolding lookup
applies_both = refl

clean_fresh_example :
    clean files names bare
    ≡ (record { contents = "recordings" ∷ "users" ∷ []; versions = names }, none)
clean_fresh_example = clean_fresh files names bare ("recordings" ∷ "users" ∷ []) refl applies_both
