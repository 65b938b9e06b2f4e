-- ===== src/Identity/Handlers/Admins.antt =====
-- What an admin can do, and who can log in.
use ar_app.Base.{
  ℕ, zero, suc, ◌≡◌, ◌≢◌, refl, ap, ◌∙◌, inl, inr, ◌⊎◌, Bool, true, false, Option, none, some,
  nat_eq, string_eq, arith,
}
use ar_app.Base.Map.{lookup}
use ar_app.Platform.Uuid.{Uuid}
use ar_app.Auth.{Principal}
use ar_app.Identity.Table.{Row, Table, update_user, with_disabled}
use ar_app.Identity.Table.Versions.{id_same, lookup-update_user}
use ar_app.Identity.Service.{Result, ok, err, set_disabled, affected}
use ar_app.Identity.Handlers.{set_user_disabled, toggled}

toggled-table : (d : Bool) (r : Table × Result (Unit {0})) → (toggled d r).0 ≡ r.0
toggled-table d (t, ok u) = refl
toggled-table d (t, err e) = ground arith

affected-table : (r : Table × ℕ) → (affected r).0 ≡ r.0
affected-table (t, zero) = refl
affected-table (t, suc n) = refl

set_disabled_others :
    (up : Bool) (org user : Uuid) (d : Bool) (t : Table) (id : Uuid) (row : Row)
    → lookup id t ≡ some row
    → row.org_id ≢ org
    → lookup id (set_disabled up org user d t).0 ≡ some row
unfolding set_disabled
set_disabled_others false org user d t id row e ne = e
set_disabled_others true org user d t id row e ne =
    ap (lookup id) (affected-table (update_user (with_disabled d) user org t))
    ∙ lookup-update_user (with_disabled d) user org id t row e
    ∙ ground (arith, id_same row.org_id org)

-- Enabling or disabling a user, by any authenticated caller and with any id, leaves a row as it is if
-- the row is of another organization than the caller's, or if the caller is not an admin.
pub set_user_disabled_others :
    (d up : Bool) (t : Table) (p : Principal) (target : Option Uuid) (id : Uuid) (row : Row)
    → lookup id t ≡ some row
    → (row.org_id ≢ p.org_id) ⊎ (p.role ≢ "admin")
    → lookup id (set_user_disabled d up t (some p) target).0 ≡ some row
unfolding set_user_disabled
set_user_disabled_others d up t p target id row e (inr stranger) =
    ground (arith, string_eq.beq_iff p.role "admin")
set_user_disabled_others d up t p none id row e (inl ne) = ground arith
set_user_disabled_others d up t p (some user) id row e (inl ne) = ground (
  arith,
  toggled-table d (set_disabled up p.org_id user d t),
  set_disabled_others up p.org_id user d t id row e ne,
)
