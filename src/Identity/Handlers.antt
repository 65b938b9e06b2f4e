-- ===== src/Identity/Handlers.antt =====
-- backend/internal/identity/handlers.go and admin_handlers.go: the HTTP operations on users. A
-- handler is a function of its request and of the users table.
pub mod Revocation
pub mod Admins
use ar_app.Base.{
  List, ℕ, ◌≡◌, Bool, true, false, not, ◌&&◌, ◌||◌, Option, none, some, String, ◌==◌, string_eq,
  nat_eq, if◌then◌else◌,
}
use ar_app.Platform.Uuid.{Uuid, Uuids}
use ar_app.Platform.Jwt.{Jwt}
use ar_app.Auth.{Claims, Issuer, Principal, kind_access, kind_refresh, issue, parse}
use ar_app.Identity.Table.{Table}
use ar_app.Identity.Service.{
  User, Error, email_in_use, invalid_credentials, account_disabled, failure, Result, ok, err, Deps,
  validate_credentials, create_user, register_org, authenticate, set_disabled, get_user,
  bump_token_version, list_users,
}

-- A status with an error message, or with a body.
pub data Response (A : Type 0) : Type 0 where
  refused : ℕ → String → Response A
  answered : ℕ → A → Response A

-- What httputil.DecodeJSON makes of a request's body.
pub data Body (A : Type 0) : Type 0 where
  malformed : String → Body A
  body : A → Body A

pub record TokenPair : Type 0 where
  pub access_token : String
  pub refresh_token : String
  pub expires_at : ℕ
  pub user : User

pub record RegisterRequest : Type 0 where
  pub org_name : String
  pub email : String
  pub password : String
  pub display_name : String

pub record LoginRequest : Type 0 where
  pub email : String
  pub password : String

pub record CreateUserRequest : Type 0 where
  pub email : String
  pub password : String
  pub display_name : String
  pub role : String

-- The instant of a request, whether Postgres answers, and the ids of the tokens that it may issue.
pub record Moment : Type 0 where
  pub now : ℕ
  pub up : Bool
  pub access_id : String
  pub refresh_id : String

module _ (J : Jwt) (U : Uuids) (i : Issuer) where
  abbrev pair_of : Option (String × ℕ) → Option (String × ℕ) → ℕ → User → Response TokenPair
  pair_of none refresh status u = refused 500 "could not issue token"
  pair_of (some access) none status u = refused 500 "could not issue token"
  pair_of (some access) (some refresh) status u = answered status (record {
    access_token = access.0;
    refresh_token = refresh.0;
    expires_at = access.1;
    user = u;
  })

  unfoldable pub respond_with_tokens : Moment → ℕ → User → Response TokenPair
  respond_with_tokens m status u =
      pair_of (issue J U i kind_access u.id u.org_id u.role u.token_version m.now m.access_id)
        (issue J U i kind_refresh u.id u.org_id u.role u.token_version m.now m.refresh_id) status u

  abbrev same_version : Moment → Claims → Result User → Response TokenPair
  same_version m claims (err e) = refused 401 "user no longer exists"
  same_version m claims (ok u) =
      if claims.ver == u.token_version
      then respond_with_tokens m 200 u
      else refused 401 "token revoked"

  abbrev reload : Moment → Table → Claims → Option Uuid → Option Uuid → Response TokenPair
  reload m t claims none user = refused 401 "invalid refresh token"
  reload m t claims (some org) none = refused 401 "invalid refresh token"
  reload m t claims (some org) (some user) = same_version m claims (get_user m.up org user t)

  abbrev refresh_claims : Moment → Table → Option Claims → Response TokenPair
  refresh_claims m t none = refused 401 "invalid refresh token"
  refresh_claims m t (some claims) =
      if claims.kind == kind_refresh
      then reload m t claims (U.parse claims.org_id) (U.parse claims.subject)
      else refused 401 "invalid refresh token"

  -- Refresh
  unfoldable pub refresh : Moment → Table → Body String → Response TokenPair
  refresh m t (malformed message) = refused 400 message
  refresh m t (body raw) = refresh_claims m t (parse J i m.now raw)

  module _ (D : Deps) where
    abbrev logged_in : Moment → Result User → Response TokenPair
    logged_in m (ok u) = respond_with_tokens m 200 u
    logged_in m (err invalid_credentials) = refused 401 "invalid email or password"
    logged_in m (err account_disabled) = refused 403 "account disabled"
    logged_in m (err e) = refused 500 "login failed"

    unfoldable pub login : Moment → Table → Body LoginRequest → Response TokenPair
    login m t (malformed message) = refused 400 message
    login m t (body r) = logged_in m (authenticate D m.up r.email r.password t)

    abbrev registered : Moment → Table × Result User → Table × Response TokenPair
    registered m (t, ok u) = (t, respond_with_tokens m 201 u)
    registered m (t, err email_in_use) = (t, refused 409 "email already registered")
    registered m (t, err e) = (t, refused 500 "could not register")

    abbrev register_valid :
        Moment → Uuid → Table → RegisterRequest → Option String → Table × Response TokenPair
    register_valid m org t r (some message) = (t, refused 400 message)
    register_valid m org t r none =
        if r.org_name == ""
        then (t, refused 400 "org_name is required")
        else registered m (register_org D m.up org r.email r.password r.display_name m.now t)

    -- Register; the id is that of the new organization.
    unfoldable pub register :
        Moment → Uuid → Table → Body RegisterRequest → Table × Response TokenPair
    register m org t (malformed message) = (t, refused 400 message)
    register m org t (body r) = register_valid m org t r (validate_credentials D r.email r.password)

-- A principal is missing from the context of a request that the middleware has not let through.
abbrev pub Caller : Type 0
Caller = Option Principal

abbrev logged_out : Table × Result (Unit {0}) → Table × Response (Unit {0})
logged_out (t, ok u) = (t, answered 200 tt)
logged_out (t, err e) = (t, refused 500 "could not log out")

unfoldable pub logout : Bool → Table → Caller → Table × Response (Unit {0})
logout up t none = (t, refused 401 "unauthenticated")
logout up t (some p) = logged_out (bump_token_version up p.org_id p.user_id t)

abbrev profile : Result User → Response User
profile (ok u) = answered 200 u
profile (err e) = refused 404 "user not found"

unfoldable pub me : Bool → Table → Caller → Response User
me up t none = refused 401 "unauthenticated"
me up t (some p) = profile (get_user up p.org_id p.user_id t)

-- requireAdmin: the principal of an admin, or the refusal.
unfoldable pub require_admin {ℓ} : {A : Type ℓ} → Caller → (ℕ → String → A) → (Principal → A) → A
require_admin none refuse serve = refuse 401 "unauthenticated"
require_admin (some p) refuse serve =
    if p.role == "admin" then serve p else refuse 403 "admin role required"

module _ (D : Deps) where
  abbrev created : Table × Result User → Table × Response User
  created (t, ok u) = (t, answered 201 u)
  created (t, err email_in_use) = (t, refused 409 "email already registered")
  created (t, err e) = (t, refused 500 "could not create user")

  abbrev pub known_role : String → Bool
  known_role role = role == "" || (role == "admin" || (role == "agent" || role == "viewer"))

  abbrev create_valid :
      Moment → Table → Principal → CreateUserRequest → Option String → Table × Response User
  create_valid m t p r (some message) = (t, refused 400 message)
  create_valid m t p r none =
      if known_role r.role
      then created (create_user D m.up p.org_id r.email r.password r.display_name r.role m.now t)
      else (t, refused 400 "role must be admin, agent, or viewer")

  abbrev create_body : Moment → Table → Principal → Body CreateUserRequest → Table × Response User
  create_body m t p (malformed message) = (t, refused 400 message)
  create_body m t p (body r) = create_valid m t p r (validate_credentials D r.email r.password)

  -- Handlers.CreateUser
  unfoldable pub add_user : Moment → Table → Caller → Body CreateUserRequest → Table × Response User
  unfolding require_admin
  add_user m t caller request =
      require_admin caller (λ status message. (t, refused status message))
        λ p. create_body m t p request

abbrev users_listed : Result (List User) → Response (List User)
users_listed (ok users) = answered 200 users
users_listed (err e) = refused 500 "could not list users"

-- Handlers.ListUsers
unfoldable pub serve_list_users : Bool → Table → Caller → Response (List User)
unfolding require_admin
serve_list_users up t caller =
    require_admin caller (λ status message. refused status message)
      λ p. users_listed (list_users up p.org_id t)

abbrev toggled : Bool → Table × Result (Unit {0}) → Table × Response Bool
toggled d (t, ok u) = (t, answered 200 d)
toggled d (t, err (failure message)) = (t, refused 404 message)
toggled d (t, err e) = (t, refused 404 "user not found")

abbrev toggle : Bool → Bool → Table → Principal → Option Uuid → Table × Response Bool
toggle d up t p none = (t, refused 400 "invalid user id")
toggle d up t p (some user) =
    if user == p.user_id && d
    then (t, refused 400 "cannot disable your own account")
    else toggled d (set_disabled up p.org_id user d t)

-- SetUserDisabled; the id is that of the path, parsed.
unfoldable pub set_user_disabled :
    Bool → Bool → Table → Caller → Option Uuid → Table × Response Bool
unfolding require_admin
set_user_disabled d up t caller id =
    require_admin caller (λ status message. (t, refused status message)) λ p. toggle d up t p id
