-- ===== src/Identity/Table.antt =====
-- The users table of store/migrations (0001, 0003, 0004) and the SQL statements of
-- backend/internal/identity/service.go on it. A row is found by its id.
pub mod Versions
use ar_app.Base.{
  filter, ℕ, ◌+◌, Bool, true, false, ◌&&◌, ◌||◌, Option, none, some, List, [], ◌∷◌, ◌++◌, String,
  ◌==◌, string_eq, nat_eq, leb, if◌then◌else◌,
}
use ar_app.Base.Map.{Map, lookup, insert}
use ar_app.Platform.Uuid.{Uuid}

pub record Row : Type 0 where
  pub org_id : Uuid
  pub email : String
  pub password_hash : String
  pub display_name : String
  pub role : String
  pub disabled : Bool
  pub created_at : ℕ
  pub token_version : ℕ

abbrev pub Table : Type 0
Table = Map Uuid Row

-- lower() of Postgres.
module _ (sql_lower : String → String) where
  abbrev pub pick : Uuid × Row → Option (Uuid × Row) → Option (Uuid × Row)
  pick a none = some a
  pick a (some b) = if leb a.1.created_at b.1.created_at then some a else some b

  -- SELECT … WHERE lower(email) = $1 ORDER BY created_at LIMIT 1
  unfoldable pub find_email : String → Table → Option (Uuid × Row)
  find_email email [] = none
  find_email email ((id, row) ∷ t) =
      let rest = find_email email t in
      if sql_lower row.email == email then pick (id, row) rest else rest

  -- The unique index on lower(email).
  unfoldable pub email_taken : String → Table → Bool
  email_taken email [] = false
  email_taken email ((id, row) ∷ t) = sql_lower row.email == sql_lower email || email_taken email t

-- The CHECK on the role.
abbrev pub role_allowed : String → Bool
role_allowed role = role == "admin" || (role == "agent" || role == "viewer")

-- SELECT … WHERE id = $1 AND org_id = $2
unfoldable pub find_user : Uuid → Uuid → Table → Option Row
find_user id org_id t = elim (lookup id t) [
  | none ↦ none
  | some row ↦ if row.org_id == org_id then some row else none
]

-- UPDATE … WHERE id = … AND org_id = …, with the number of rows affected.
unfoldable pub update_user : (Row → Row) → Uuid → Uuid → Table → Table × ℕ
unfolding find_user
update_user f id org_id t = elim (find_user id org_id t) [
  | none ↦ (t, 0)
  | some row ↦ (insert id (f row) t, 1)
]

-- SET disabled = $1, token_version = token_version + CASE WHEN $1 THEN 1 ELSE 0 END
abbrev pub with_disabled : Bool → Row → Row
with_disabled d row = record row {
  disabled = d;
  token_version = row.token_version + (if d then 1 else 0);
}

-- SET token_version = token_version + 1
abbrev pub bumped : Row → Row
bumped row = record row { token_version = row.token_version + 1 }

-- SELECT … WHERE org_id = $1
unfoldable pub of_org : Uuid → Table → Table
of_org org_id t = filter (λ (e : Uuid × Row). e.1.org_id == org_id) t

-- What ORDER BY created_at orders by.
abbrev pub created_at_of : Uuid × Row → ℕ
created_at_of e = e.1.created_at
