-- ===== src/Identity/Service/Listing.antt =====
-- What the list of users answers.
use ar_app.Base.{◌≡◌, refl, true, List, map, filter, nat_eq, ◌==◌}
use mathlib.Core.List.{Perm}
use ar_app.Base.Newest.{order_rows, IsNewestFirst, order_rows-IsNewestFirst, order_rows-Perm}
use ar_app.Platform.Uuid.{Uuid}
use ar_app.Identity.Table.{Row, Table, of_org, created_at_of}
use ar_app.Identity.Service.{ok, scanned, list_users}

-- ListUsers answers the users of the organization, each once for each of its rows and the newest first.
pub list_users_lem :
    (org_id : Uuid) (t : Table)
    → (rows : List (Uuid × Row)) × (list_users true org_id t ≡ ok (map scanned rows))
      × IsNewestFirst created_at_of rows
      × Perm rows (filter (λ (e : Uuid × Row). e.1.org_id == org_id) t)
unfolding list_users of_org
list_users_lem org_id t = (
  order_rows created_at_of (of_org org_id t),
  refl,
  order_rows-IsNewestFirst created_at_of (of_org org_id t),
  order_rows-Perm created_at_of (of_org org_id t),
)
