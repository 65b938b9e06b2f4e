-- ===== src/Examples/Users.antt =====
-- Runs of the operations on users.
use ar_app.Base.{
  ◌≡◌, ◌≢◌, inl, refl, true, false, Option, some, List, [], ◌∷◌, String, ℕ, ◌==◌, nat_eq, string_eq,
  arith,
}
use Prim.Native.String
use ar_app.Base.Map.{lookup, insert}
use ar_app.Platform.Jwt.{Jwt}
use ar_app.Auth.{Principal, kind_refresh, user_payload, issue}
use ar_app.Identity.Table.{Row, Table, find_email, email_taken}
use ar_app.Identity.Service.{Deps, ok, user_of, create_user, authenticate}
use ar_app.Identity.Service.Login.{Found, authenticate-Found, authenticate-create_user}
use ar_app.Identity.Handlers.{refused, body, Moment, refresh, logout, set_user_disabled}
use ar_app.Identity.Service.History.{Op, bumps, toggles, apply_all}
use ar_app.Identity.Handlers.Revocation.{exchanged, refresh-issue, logout_revokes}
use ar_app.Identity.Handlers.Admins.{set_user_disabled_others}
use ar_app.Examples.Codec.{unary, next_id, next_id_fresh}
use ar_app.Examples.Tokens.{signer, issuer, blank}

abbrev seal : String → String
seal p = String.◌++◌ "#" p

sealed : (p h : String) → ◌≡◌ {A = Option String} (some (seal p)) (some h) → (h == seal p) ≡ true
sealed p h e = ground (arith, string_eq.beq_iff h (seal p))

abbrev demo : Deps
demo = record {
  lower = λ s. s;
  trim = λ s. s;
  sql_lower = λ s. s;
  sql_lower-lower = λ s. refl;
  has_at = λ s. true;
  hash_password = λ p. some (seal p);
  verify_password = λ p h. h == seal p;
  verify-hash = sealed;
  new_id = next_id;
  new_id_fresh = next_id_fresh;
}

abbrev member : Row
member = record {
  org_id = 2;
  email = "b@x";
  password_hash = "#password";
  display_name = "B";
  role = "agent";
  disabled = false;
  created_at = 50;
  token_version = 3;
}

abbrev boss : Row
boss = record member { email = "a@x"; role = "admin"; token_version = 0 }

abbrev people : Table
people = (1, boss) ∷ (2, member) ∷ []

abbrev newcomer : Row
newcomer = record member { email = "c@x"; token_version = 0; created_at = 60 }

creates_newcomer :
    create_user demo true 2 "c@x" "password" "B" "" 60 people
    ≡ (insert (next_id people) newcomer people, ok (user_of (next_id people) newcomer))
unfolding create_user email_taken
creates_newcomer = refl

authenticate-create_user_example :
    authenticate demo true "c@x" "password" (insert (next_id people) newcomer people)
    ≡ ok (user_of (next_id people) newcomer)
authenticate-create_user_example =
    authenticate-create_user demo 2 "c@x" "password" "B" "" 60 people
      (insert (next_id people) newcomer people) (user_of (next_id people) newcomer) creates_newcomer

logs_in : authenticate demo true "b@x" "password" people ≡ ok (user_of 2 member)
unfolding authenticate find_email
logs_in = refl

authenticate-Found_example :
    (row : Row) × Found demo "b@x" people 2 row
    × (user_of 2 member ≡ user_of 2 row)
    × ((row.password_hash == "#password") ≡ true)
    × (row.disabled ≡ false)
authenticate-Found_example =
    authenticate-Found demo true "b@x" "password" people (user_of 2 member) logs_in

-- A refresh token of the member, with the version of its row.
abbrev refresher : Jwt
refresher =
    signer "ref" "s"
      (user_payload (signer "" "" blank) unary issuer kind_refresh 2 2 "agent" 3 100 "j")

issued_refresh :
    issue refresher unary issuer kind_refresh 2 2 "agent" 3 100 "j" ≡ some ("ref", 9100)
unfolding issue
issued_refresh = refl

abbrev moment : Moment
moment = record { now = 200; up = true; access_id = "k"; refresh_id = "l" }

member_found : lookup 2 people ≡ some member
unfolding lookup
member_found = refl

-- A library that signs the token again, and the access token of the same instant not.
abbrev at_once : Moment
at_once = record { now = 100; up = true; access_id = "k"; refresh_id = "j" }

refresh-issue_example :
    refresh refresher unary issuer at_once people (body "ref")
    ≡ exchanged refresher unary issuer
        (issue refresher unary issuer "access" 2 2 "agent" 3 100 "k")
        (issue refresher unary issuer "refresh" 2 2 "agent" 3 100 "j")
        2
        member
refresh-issue_example =
    refresh-issue refresher unary issuer at_once people 2 2 "agent" 3 100 9100 "j" "ref" member
      issued_refresh refl member_found refl

abbrev caller : Principal
caller = record { user_id = 2; org_id = 2; role = "agent" }

abbrev admin : Principal
admin = record { user_id = 1; org_id = 2; role = "admin" }

abbrev later : List Op
later = bumps true 2 1 ∷ toggles true 2 2 false ∷ []

logout_revokes_example :
    refresh refresher unary issuer moment
      (apply_all demo later (logout true people (some caller)).0)
      (body "ref")
    ≡ refused 401 "token revoked"
logout_revokes_example =
    logout_revokes refresher unary issuer demo moment later people caller "agent" 3 100 9100 "j"
      "ref" member issued_refresh refl member_found refl (omega arith)

abbrev outsider : Principal
outsider = record { user_id = 5; org_id = 6; role = "admin" }

two_not_six : ◌≢◌ {A = ℕ} 2 6
two_not_six h = omega arith

set_user_disabled_others_example :
    lookup 2 (set_user_disabled true true people (some outsider) (some 2)).0 ≡ some member
set_user_disabled_others_example =
    set_user_disabled_others true true people outsider (some 2) 2 member member_found
      (inl two_not_six)
