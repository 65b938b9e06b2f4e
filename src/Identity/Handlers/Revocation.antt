-- ===== src/Identity/Handlers/Revocation.antt =====
-- How long a refresh token can be exchanged.
use ar_app.Base.{
  Option, Option-cases, inl, inr, refl, ap, ℕ, ◌≤◌, ◌<◌, ◌≡◌, ◌≢◌, ◌∙◌, true, some, List, String,
  ◌==◌, nat_eq, string_eq, arith, ltb, if◌then◌else◌,
}
use ar_app.Base.Map.{lookup}
use ar_app.Platform.Uuid.{Uuid, Uuids}
use ar_app.Platform.Jwt.{Jwt}
use ar_app.Auth.{Issuer, Principal, kind_refresh, issue}
use ar_app.Auth.Tokens.{parse-issue}
use ar_app.Identity.Table.{Row, Table, with_disabled, bumped}
use ar_app.Identity.Table.Versions.{
  id_same, users-insert, find_user-some, update_user-some, lookup-update_user,
}
use ar_app.Identity.Service.{Deps, user_of, set_disabled, get_user, bump_token_version}
use ar_app.Identity.Service.History.{Op, apply_all, apply_all-Kept}
use ar_app.Identity.Handlers.{
  Response, TokenPair, refused, answered, body, Moment, respond_with_tokens, refresh, logout,
  set_user_disabled,
}

-- The tests that Refresh makes of a token that was issued here.
module _ (J : Jwt) (U : Uuids) (i : Issuer) where
  -- The answer to a refresh that is granted: an access token with its expiry, a refresh token, and the
  -- user of the row, unless the issuer does not sign.
  abbrev pub exchanged : Option (String × ℕ) → Option (String × ℕ) → Uuid → Row → Response TokenPair
  exchanged (some (access, access_exp)) (some (renewed, renewed_exp)) user row =
      answered 200 (record {
        access_token = access;
        refresh_token = renewed;
        expires_at = access_exp;
        user = record {
          id = user;
          org_id = row.org_id;
          email = row.email;
          display_name = row.display_name;
          role = row.role;
          created_at = row.created_at;
          token_version = row.token_version;
        };
      })
  exchanged _ _ user row = refused 500 "could not issue token"

  responds :
      (m : Moment) (user : Uuid) (row : Row)
      → respond_with_tokens J U i m 200 (user_of user row)
        ≡ exchanged
            (issue J U i "access" user row.org_id row.role row.token_version m.now m.access_id)
            (issue J U i "refresh" user row.org_id row.role row.token_version m.now m.refresh_id)
            user
            row
  unfolding respond_with_tokens
  responds m user row =
      elim (Option-cases
        (issue J U i "access" user row.org_id row.role row.token_version m.now m.access_id)) [
          | inl a ↦ rw (a) refl
          | inr (access, a) ↦
              elim (Option-cases (
                issue J U i "refresh" user row.org_id row.role row.token_version m.now
                  m.refresh_id)) [ inl r ↦ rw (a, r) refl | inr (renewed, r) ↦ rw (a, r) refl ]
        ]

  refresh-responds :
      (m : Moment) (t : Table) (user org : Uuid) (role : String) (ver now exp : ℕ)
      (id token : String) (row : Row)
      → issue J U i kind_refresh user org role ver now id ≡ some (token, exp)
      → m.up ≡ true
      → lookup user t ≡ some row
      → row.org_id ≡ org
      → refresh J U i m t (body token) ≡ (
          if ltb m.now exp
          then (if ver == row.token_version
              then respond_with_tokens J U i m 200 (user_of user row)
              else refused 401 "token revoked")
          else refused 401 "invalid refresh token")
  unfolding refresh get_user
  refresh-responds m t user org role ver now exp id token row e up found o = ground (
    arith,
    parse-issue J U i kind_refresh user org role ver now m.now exp id token e,
    U.parse-to_text user,
    U.parse-to_text org,
    find_user-some user org t row found o,
    string_eq.beq_iff kind_refresh kind_refresh,
  )

  -- Refresh of a refresh token that was issued here, for a user whose row is found while Postgres
  -- answers: until the token expires, if its version is the row's, it is exchanged, with 200, for the
  -- access token, with its expiry, and the refresh token that the issuer makes now of the organization,
  -- the role and the version of the row, along with the user as the row is now, or refused with 500 if the
  -- issuer does not sign; with another version, and from the token's expiry on, it is refused with 401.
  pub refresh-issue :
      (m : Moment) (t : Table) (user org : Uuid) (role : String) (ver now exp : ℕ)
      (id token : String) (row : Row)
      → issue J U i "refresh" user org role ver now id ≡ some (token, exp)
      → m.up ≡ true
      → lookup user t ≡ some row
      → row.org_id ≡ org
      → refresh J U i m t (body token) ≡ (
          if ltb m.now exp
          then (if ver == row.token_version
              then exchanged
                  (issue J U i "access" user row.org_id row.role row.token_version m.now
                    m.access_id)
                  (issue J U i "refresh" user row.org_id row.role row.token_version m.now
                    m.refresh_id)
                  user
                  row
              else refused 401 "token revoked")
          else refused 401 "invalid refresh token")
  refresh-issue m t user org role ver now exp id token row e up found o =
      refresh-responds m t user org role ver now exp id token row e up found o
      ∙ ap
          (λ x.
            if ltb m.now exp
            then (if ver == row.token_version then x else refused 401 "token revoked")
            else refused 401 "invalid refresh token")
          (responds m user row)

  stale_refused :
      (m : Moment) (t : Table) (user org : Uuid) (role : String) (ver now exp : ℕ)
      (id token : String) (row : Row)
      → issue J U i kind_refresh user org role ver now id ≡ some (token, exp)
      → m.up ≡ true
      → lookup user t ≡ some row
      → row.org_id ≡ org
      → ver < row.token_version
      → refresh J U i m t (body token)
        ≡ refused 401 (if ltb m.now exp then "token revoked" else "invalid refresh token")
  stale_refused m t user org role ver now exp id token row e up found o l =
      ground (arith, refresh-responds m t user org role ver now exp id token row e up found o)

  module _ (D : Deps) where
    -- A row whose version has passed a token's: no later call of the service makes the token good.
    refused_forever :
        (m : Moment) (ops : List Op) (t : Table) (user org : Uuid) (role : String) (ver now exp : ℕ)
        (id token : String) (row : Row)
        → issue J U i kind_refresh user org role ver now id ≡ some (token, exp)
        → m.up ≡ true
        → lookup user t ≡ some row
        → row.org_id ≡ org
        → ver < row.token_version
        → refresh J U i m (apply_all D ops t) (body token)
          ≡ refused 401 (if ltb m.now exp then "token revoked" else "invalid refresh token")
    refused_forever m ops t user org role ver now exp id token row e up found o l =
        let (last, found', s) = apply_all-Kept D ops t user row found in
        stale_refused m (apply_all D ops t) user org role ver now exp id token last e up found'
          (s.org ∙ o) (omega (arith, s.version))

    logged_out_row :
        (t : Table) (p : Principal) (row : Row)
        → lookup p.user_id t ≡ some row
        → row.org_id ≡ p.org_id
        → lookup p.user_id (logout true t (some p)).0 ≡ some (bumped row)
    unfolding logout bump_token_version
    logged_out_row t p row e o =
        lookup-update_user bumped p.user_id p.org_id p.user_id t row e
        ∙ ground (arith, id_same p.user_id p.user_id, id_same row.org_id p.org_id)

    -- After a logout that Postgres has carried out, every refresh token that was issued to the user
    -- with the version of that time or an earlier one is refused with 401, whatever calls of the
    -- service come in between, while Postgres answers the refresh.
    pub logout_revokes :
        (m : Moment) (ops : List Op) (t : Table) (p : Principal) (role : String) (ver now exp : ℕ)
        (id token : String) (row : Row)
        → issue J U i kind_refresh p.user_id p.org_id role ver now id ≡ some (token, exp)
        → m.up ≡ true
        → lookup p.user_id t ≡ some row
        → row.org_id ≡ p.org_id
        → ver ≤ row.token_version
        → refresh J U i m (apply_all D ops (logout true t (some p)).0) (body token)
          ≡ refused 401 (if ltb m.now exp then "token revoked" else "invalid refresh token")
    logout_revokes m ops t p role ver now exp id token row e up found o l =
        refused_forever m ops (logout true t (some p)).0 p.user_id p.org_id role ver now exp id
          token (bumped row) e up (logged_out_row t p row found o) o (omega arith)

    disabled_row :
        (t : Table) (admin : Principal) (user : Uuid) (row : Row)
        → admin.role ≡ "admin"
        → user ≢ admin.user_id
        → lookup user t ≡ some row
        → row.org_id ≡ admin.org_id
        → lookup user (set_user_disabled true true t (some admin) (some user)).0
          ≡ some (with_disabled true row)
    unfolding set_user_disabled set_disabled
    disabled_row t admin user row r ne e o = ground (
      arith,
      update_user-some (with_disabled true) user admin.org_id t row e o,
      users-insert user user (with_disabled true row) t,
      id_same user user,
      id_same user admin.user_id,
      string_eq.beq_iff admin.role "admin",
    )

    -- After an admin of the user's organization has disabled the user, every refresh token that was
    -- issued to the user with the version of that time or an earlier one is refused with 401, whatever
    -- calls of the service come in between (the user being enabled again is one of them), while
    -- Postgres answers the refresh.
    pub disable_revokes :
        (m : Moment) (ops : List Op) (t : Table) (admin : Principal) (user : Uuid) (role : String)
        (ver now exp : ℕ) (id token : String) (row : Row)
        → issue J U i kind_refresh user admin.org_id role ver now id ≡ some (token, exp)
        → m.up ≡ true
        → admin.role ≡ "admin"
        → user ≢ admin.user_id
        → lookup user t ≡ some row
        → row.org_id ≡ admin.org_id
        → ver ≤ row.token_version
        → refresh J U i m
            (apply_all D ops (set_user_disabled true true t (some admin) (some user)).0)
            (body token)
          ≡ refused 401 (if ltb m.now exp then "token revoked" else "invalid refresh token")
    disable_revokes m ops t admin user role ver now exp id token row e up a ne found o l =
        refused_forever m ops (set_user_disabled true true t (some admin) (some user)).0 user
          admin.org_id role ver now exp id token (with_disabled true row) e up
          (disabled_row t admin user row a ne found o) o (omega arith)
