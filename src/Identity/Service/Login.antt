-- ===== src/Identity/Service/Login.antt =====
-- Who can log in.
use ar_app.Base.{
  ℕ, ◌≡◌, refl, sym, subst, ap, ◌∙◌, ◌↔◌, inl, inr, ◌⊎◌, Bool, true, false, none, some, [], ◌∷◌,
  String, ◌==◌, nat_eq, string_eq, arith, leb, if◌then◌else◌, Option-cases, Bool-cases,
}
use mathlib.Core.List.{Memᴰ}
use ar_app.Base.Map.{lookup, insert}
use ar_app.Platform.Uuid.{Uuid}
use ar_app.Identity.Table.{Row, Table, find_email, email_taken}
use ar_app.Identity.Service.{
  User, Deps, ok, user_of, normalize_email, insert_user, create_user, register_org, authenticate,
}

module _ (D : Deps) where
  same_text : (a b : String) → ((a == b) ≡ true) ↔ (a ≡ b)
  same_text a b = string_eq.beq_iff a b

  -- A row of the table that has the email.
  pub record Found (email : String) (t : Table) (id : Uuid) (row : Row) : Type 0 where
    pub stored : Memᴰ (id, row) t
    pub matched : D.sql_lower row.email ≡ email

  -- The first row, or what is found in the rest.
  find_email-cons :
      (email : String) (t : Table) (j id : Uuid) (r row : Row)
      → find_email D.sql_lower email ((j, r) ∷ t) ≡ some (id, row)
      → ((D.sql_lower r.email ≡ email) × (◌≡◌ {A = Uuid × Row} (j, r) (id, row)))
        ⊎ (find_email D.sql_lower email t ≡ some (id, row))
  unfolding find_email
  find_email-cons email t j id r row h = elim (Bool-cases (D.sql_lower r.email == email)) [
    | inr e ↦ inr (ground arith)
    | inl e ↦ elim (Option-cases (find_email D.sql_lower email t)) [
      | inl n ↦ inl (ground (arith, same_text (D.sql_lower r.email) email), ground arith)
      | inr (b, q) ↦ elim (Bool-cases (leb r.created_at b.1.created_at)) [
        | inl le ↦ inl (ground (arith, same_text (D.sql_lower r.email) email), ground arith)
        | inr gt ↦ inr (ground arith)
      ]
    ]
  ]

  find_email-Found :
      (email : String) (t : Table) (id : Uuid) (row : Row)
      → find_email D.sql_lower email t ≡ some (id, row)
      → Found email t id row
  unfolding find_email
  find_email-Found email [] id row h = absurd (cc h)
  find_email-Found email ((j, r) ∷ t) id row h = elim (find_email-cons email t j id r row h) [
    | inl (m, same) ↦ record {
      stored = Memᴰ.head (sym same);
      matched = ap (λ e. D.sql_lower e.1.email) (sym same) ∙ m;
    }
    | inr later ↦
        let f = find_email-Found email t id row later in
        record { stored = Memᴰ.tail f.stored; matched = f.matched }
  ]

  find_email_free :
      (email : String) (t : Table)
      → D.sql_lower email ≡ email
      → email_taken D.sql_lower email t ≡ false
      → find_email D.sql_lower email t ≡ none
  unfolding find_email email_taken
  find_email_free email [] e h = refl
  find_email_free email ((j, r) ∷ t) e h =
      ground (arith, find_email_free email t e, same_text (D.sql_lower r.email) email)

  find_email-insert :
      (email : String) (t : Table) (id : Uuid) (row : Row)
      → find_email D.sql_lower email t ≡ none
      → lookup id t ≡ none
      → D.sql_lower row.email ≡ email
      → find_email D.sql_lower email (insert id row t) ≡ some (id, row)
  unfolding find_email lookup insert
  find_email-insert email [] id row f l e = ground (arith, same_text (D.sql_lower row.email) email)
  find_email-insert email ((j, r) ∷ t) id row f l e = ground (
    arith,
    find_email-insert email t id row,
    same_text (D.sql_lower r.email) email,
    same_text (D.sql_lower row.email) email,
  )

  -- Authenticate gives a user only for a row of the table that has the email that was given, trimmed
  -- and without regard to case, whose password hash the password verifies, and that is not disabled;
  -- the user is that row's.
  pub authenticate-Found :
      (up : Bool) (email password : String) (t : Table) (u : User)
      → authenticate D up email password t ≡ ok u
      → (row : Row) × Found (normalize_email D email) t u.id row
        × (u ≡ user_of u.id row)
        × (D.verify_password password row.password_hash ≡ true)
        × (row.disabled ≡ false)
  unfolding authenticate
  authenticate-Found up email password t u h =
      elim (Option-cases (find_email D.sql_lower (normalize_email D email) t)) [
        | inl n ↦ ground arith
        | inr ((id, row), e) ↦
            let same : user_of id row ≡ u = ground arith in
            (
              row,
              subst (λ x. Found (normalize_email D email) t x row) (ap (λ (x : User). x.id) same)
                  (find_email-Found (normalize_email D email) t id row e),
              sym same ∙ ap (λ (x : User). user_of x.id row) same,
              ground arith,
              ground arith,
            )
      ]

  abbrev row_of : Uuid → String → String → String → String → ℕ → Row
  row_of org email hash name role now = record {
    org_id = org;
    email = email;
    password_hash = hash;
    display_name = name;
    role = role;
    disabled = false;
    created_at = now;
    token_version = 0;
  }

  insert_user-ok :
      (org : Uuid) (email hash name role : String) (now : ℕ) (t t' : Table) (u : User)
      → insert_user D org email hash name role now t ≡ (t', ok u)
      → (email_taken D.sql_lower email t ≡ false)
        × (insert (D.new_id t) (row_of org email hash name role now) t ≡ t')
        × (user_of (D.new_id t) (row_of org email hash name role now) ≡ u)
  unfolding insert_user
  insert_user-ok org email hash name role now t t' u h = (ground arith, ground arith, ground arith)

  known_login :
      (email password : String) (t : Table) (id : Uuid) (row : Row)
      → find_email D.sql_lower (normalize_email D email) t ≡ some (id, row)
      → D.verify_password password row.password_hash ≡ true
      → row.disabled ≡ false
      → authenticate D true email password t ≡ ok (user_of id row)
  unfolding authenticate
  known_login email password t id row f v d = rw (f, authenticate, v, d)

  inserted_login :
      (org : Uuid) (email password hash name role : String) (now : ℕ) (t t' : Table) (u : User)
      → D.hash_password password ≡ some hash
      → insert_user D org (normalize_email D email) hash name role now t ≡ (t', ok u)
      → authenticate D true email password t' ≡ ok u
  inserted_login org email password hash name role now t t' u p h =
      let e = normalize_email D email in
      let (free, table, user) = insert_user-ok org e hash name role now t t' u h in
      let lowered = D.sql_lower-lower (D.trim email) in
      let row = row_of org e hash name role now in
      subst (λ x. authenticate D true email password x ≡ ok u) table
        (known_login email password (insert (D.new_id t) row t) (D.new_id t) row
            (find_email-insert e t (D.new_id t) row (find_email_free e t lowered free)
              (D.new_id_fresh t) lowered)
            (D.verify-hash password hash p) refl
          ∙ ap ok user)

  -- A user that CreateUser has made, in whatever role, can log in at once with the same email and the
  -- same password, while Postgres answers: Authenticate gives that very user.
  pub authenticate-create_user :
      (org : Uuid) (email password name role : String) (now : ℕ) (t t' : Table) (u : User)
      → create_user D true org email password name role now t ≡ (t', ok u)
      → authenticate D true email password t' ≡ ok u
  unfolding create_user
  authenticate-create_user org email password name role now t t' u h =
      elim (Option-cases (D.hash_password password)) [
        | inl n ↦ ground arith
        | inr (hash, p) ↦
            inserted_login org email password hash name (if role == "" then "agent" else role) now t
              t' u p (ground arith)
      ]

  -- The first admin of an organization that RegisterOrg has made can log in at once with the same email
  -- and the same password, while Postgres answers: Authenticate gives that very user.
  pub authenticate-register_org :
      (org : Uuid) (email password name : String) (now : ℕ) (t t' : Table) (u : User)
      → register_org D true org email password name now t ≡ (t', ok u)
      → authenticate D true email password t' ≡ ok u
  unfolding register_org
  authenticate-register_org org email password name now t t' u h =
      elim (Option-cases (D.hash_password password)) [
        | inl n ↦ ground arith
        | inr (hash, p) ↦
            inserted_login org email password hash name "admin" now t t' u p (ground arith)
      ]
