-- ===== src/Identity/Table/Versions.antt =====
-- What the statements on the users table leave of a row: its organization, and a token version that
-- never falls.
use ar_app.Base.{
  ◌≤◌, ◌≡◌, refl, ◌↔◌, inl, inr, Bool, true, some, ◌==◌, nat_eq, arith, if◌then◌else◌, Option-cases,
}
use ar_app.Base.Map.{lookup, insert, lookup-insert}
use ar_app.Platform.Uuid.{Uuid}
use ar_app.Identity.Table.{Row, Table, find_user, update_user, with_disabled, bumped}

pub id_same : (a b : Uuid) → ((a == b) ≡ true) ↔ (a ≡ b)
id_same a b = nat_eq.beq_iff a b

pub users-insert :
    (id j : Uuid) (row : Row) (t : Table)
    → lookup j (insert id row t) ≡ (if id == j then some row else lookup j t)
users-insert = lookup-insert

pub find_user-some :
    (id org : Uuid) (t : Table) (row : Row)
    → lookup id t ≡ some row
    → row.org_id ≡ org
    → find_user id org t ≡ some row
unfolding find_user
find_user-some id org t row e o = rw (e, find_user) (ground (arith, id_same row.org_id org))

-- The update of a row that is found, and of any other row.
pub update_user-some :
    (f : Row → Row) (id org : Uuid) (t : Table) (row : Row)
    → lookup id t ≡ some row
    → row.org_id ≡ org
    → update_user f id org t ≡ (insert id (f row) t, 1)
unfolding update_user
update_user-some f id org t row e o = rw (find_user-some id org t row e o, update_user)

-- An update leaves a row as it is, or applies its function to it; the latter only in its own
-- organization.
pub lookup-update_user :
    (f : Row → Row) (id org j : Uuid) (t : Table) (row : Row)
    → lookup j t ≡ some row
    → lookup j (update_user f id org t).0
      ≡ some (if id == j then (if row.org_id == org then f row else row) else row)
unfolding update_user
lookup-update_user f id org j t row e = elim (Option-cases (lookup id t)) [
  | inl missing ↦ ground (arith, id_same id j)
  | inr (old, found) ↦ ground (arith, users-insert id j (f old) t, id_same id j)
]

-- What every statement keeps of a row.
pub record Succeeds (old new : Row) : Type 0 where
  pub org : new.org_id ≡ old.org_id
  pub version : old.token_version ≤ new.token_version

pub Succeeds-refl : (row : Row) → Succeeds row row
Succeeds-refl row = record { org = refl; version = omega arith }

pub Succeeds-trans : (a b c : Row) → Succeeds a b → Succeeds b c → Succeeds a c
Succeeds-trans a b c x y = record {
  org = ground arith;
  version = omega (arith, x.version, y.version);
}

pub update-Succeeds :
    (f : Row → Row) (id org j : Uuid) (row : Row)
    → Succeeds row (f row)
    → Succeeds row (if id == j then (if row.org_id == org then f row else row) else row)
update-Succeeds f id org j row h = ground (arith, Succeeds-refl row)

pub with_disabled-Succeeds : (d : Bool) (row : Row) → Succeeds row (with_disabled d row)
with_disabled-Succeeds d row = record { org = refl; version = omega arith }

pub bumped-Succeeds : (row : Row) → Succeeds row (bumped row)
bumped-Succeeds row = record { org = refl; version = omega arith }
