-- ===== src/Identity/Service.antt =====
-- backend/internal/identity/service.go and validate.go. A method is a function of the users table;
-- the answers of Postgres that it depends on are arguments.
pub mod Login
pub mod History
pub mod Listing
use ar_app.Base.{
  map, ℕ, zero, suc, ◌≡◌, Bool, true, false, not, ◌&&◌, ◌||◌, Option, none, some, List, [], ◌∷◌,
  String, ◌==◌, string_eq, nat_eq, ltb, if◌then◌else◌,
}
use ar_app.Base.Texts.{byte_length}
use ar_app.Base.Map.{lookup, insert}
use ar_app.Base.Newest.{order_rows}
use ar_app.Platform.Uuid.{Uuid}
use ar_app.Identity.Table.{
  Row, Table, find_email, email_taken, role_allowed, find_user, update_user, with_disabled, bumped,
  of_org, created_at_of,
}

pub record User : Type 0 where
  pub id : Uuid
  pub org_id : Uuid
  pub email : String
  pub display_name : String
  pub role : String
  pub created_at : ℕ
  pub token_version : ℕ

pub data Error : Type 0 where
  email_in_use invalid_credentials account_disabled user_not_found : Error
  failure : String → Error

pub data Result (A : Type 0) : Type 0 where
  ok : A → Result A
  err : Error → Result A

-- strings.ToLower and TrimSpace, lower() of Postgres, Contains of "@", and backend/internal/crypto.
pub record Deps : Type 0 where
  pub lower : String → String
  pub trim : String → String
  pub sql_lower : String → String
  -- What the code has lowered Postgres leaves as it is.
  pub sql_lower-lower : (s : String) → sql_lower (lower s) ≡ lower s
  pub has_at : String → Bool
  pub hash_password : String → Option String
  pub verify_password : String → String → Bool
  pub verify-hash :
      (password hash : String)
      → hash_password password ≡ some hash
      → verify_password password hash ≡ true
  pub new_id : Table → Uuid
  pub new_id_fresh : (t : Table) → lookup (new_id t) t ≡ none

abbrev pub user_of : Uuid → Row → User
user_of id row = record {
  id = id;
  org_id = row.org_id;
  email = row.email;
  display_name = row.display_name;
  role = row.role;
  created_at = row.created_at;
  token_version = row.token_version;
}

module _ (D : Deps) where
  abbrev pub normalize_email : String → String
  normalize_email email = D.lower (D.trim email)

  -- validateCredentials: the message of the error, if any.
  unfoldable pub validate_credentials : String → String → Option String
  validate_credentials email password =
      if D.trim email == "" || not (D.has_at (D.trim email))
      then some "a valid email is required"
      else if ltb (byte_length password) 8
      then some "password must be at least 8 characters"
      else none

  -- INSERT INTO users … RETURNING: refused by the CHECK on the role, or by the unique index.
  unfoldable pub insert_user :
      Uuid → String → String → String → String → ℕ → Table → Table × Result User
  insert_user org_id email hash display_name role now t =
      let id = D.new_id t in
      let row : Row = record {
        org_id = org_id;
        email = email;
        password_hash = hash;
        display_name = display_name;
        role = role;
        disabled = false;
        created_at = now;
        token_version = 0;
      } in
      if role_allowed role
      then (if email_taken D.sql_lower email t
          then (t, err email_in_use)
          else (insert id row t, ok (user_of id row)))
      else (t, err (failure "insert user"))

  abbrev pub or_agent : String → String
  or_agent role = if role == "" then "agent" else role

  -- CreateUser; `up` is false if the statement fails.
  unfoldable pub create_user :
      Bool → Uuid → String → String → String → String → ℕ → Table → Table × Result User
  unfolding insert_user
  create_user up org_id email password display_name role now t = elim (D.hash_password password) [
    | none ↦ (t, err (failure "hash password"))
    | some hash ↦
        if up
        then insert_user org_id (normalize_email email) hash display_name (or_agent role) now t
        else (t, err (failure "insert user"))
  ]

  -- RegisterOrg: the organization's id is that of the row that the transaction inserts first, and a
  -- failed transaction changes nothing.
  unfoldable pub register_org :
      Bool → Uuid → String → String → String → ℕ → Table → Table × Result User
  unfolding insert_user
  register_org up new_org email password display_name now t = elim (D.hash_password password) [
    | none ↦ (t, err (failure "hash password"))
    | some hash ↦
        if up
        then insert_user new_org (normalize_email email) hash display_name "admin" now t
        else (t, err (failure "begin"))
  ]

  -- Authenticate. The comparison with the dummy hash has no effect but its time.
  unfoldable pub authenticate : Bool → String → String → Table → Result User
  authenticate up email password t =
      if up
      then elim (find_email D.sql_lower (normalize_email email) t) [
        | none ↦ err invalid_credentials
        | some (id, row) ↦
            if D.verify_password password row.password_hash
            then (if row.disabled then err account_disabled else ok (user_of id row))
            else err invalid_credentials
      ]
      else err (failure "select user")

-- SetDisabled
abbrev pub affected : Table × ℕ → Table × Result (Unit {0})
affected (t, zero) = (t, err user_not_found)
affected (t, suc n) = (t, ok tt)

unfoldable pub set_disabled : Bool → Uuid → Uuid → Bool → Table → Table × Result (Unit {0})
unfolding update_user
set_disabled up org_id user_id d t =
    if up
    then affected (update_user (with_disabled d) user_id org_id t)
    else (t, err (failure "update user"))

-- GetUser
unfoldable pub get_user : Bool → Uuid → Uuid → Table → Result User
unfolding find_user
get_user up org_id user_id t =
    if up
    then elim (find_user user_id org_id t) [
      | none ↦ err (failure "no rows")
      | some row ↦ ok (user_of user_id row)
    ]
    else err (failure "select user")

-- BumpTokenVersion: the number of rows is not looked at.
unfoldable pub bump_token_version : Bool → Uuid → Uuid → Table → Table × Result (Unit {0})
unfolding update_user
bump_token_version up org_id user_id t =
    if up
    then ((update_user bumped user_id org_id t).0, ok tt)
    else (t, err (failure "update user"))

-- A user as ListUsers scans it: the version of its tokens is not selected, and stays 0.
abbrev pub scanned : Uuid × Row → User
scanned (id, row) = record (user_of id row) { token_version = 0 }

-- ListUsers
unfoldable pub list_users : Bool → Uuid → Table → Result (List User)
list_users false org_id t = err (failure "list users")
list_users true org_id t = ok (map scanned (order_rows created_at_of (of_org org_id t)))
