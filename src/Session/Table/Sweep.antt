-- ===== src/Session/Table/Sweep.antt =====
-- What the sweep of stale sessions takes, and what it counts.
use ar_app.Base.{ℕ, ◌+◌, ◌*◌, ◌≤◌, ◌≡◌, refl, some, [], ◌∷◌, arith, if◌then◌else◌, ◌-◌}
use ar_app.Base.Map.{lookup, total}
use ar_app.Platform.Uuid.{Uuid}
use ar_app.Session.Table.{Session, Table, expire_stale, is_stale, sweep, cutoff_multiplier}
use ar_app.Session.Table.Life.{lookup-expire_stale}
use ar_app.Base.{nat_eq}

abbrev pub stale_weight : ℕ → Session → ℕ
stale_weight cutoff row = if is_stale cutoff row then 1 else 0

-- The sweep reports exactly the number of pending rows created before the cutoff, and a second sweep
-- with the same cutoff finds none.
pub expire_stale_count :
    (cutoff : ℕ) (t : Table)
    → ((expire_stale cutoff t).1 ≡ total (stale_weight cutoff) t)
      × ((expire_stale cutoff (expire_stale cutoff t).0).1 ≡ 0)
unfolding expire_stale total
expire_stale_count cutoff [] = (refl, refl)
expire_stale_count cutoff ((id, row) ∷ t) = ground (arith, expire_stale_count cutoff t)

-- Up to twice the token's time to live after a session's creation, a sweep leaves its row as it is.
pub sweep_spares :
    (now token_ttl : ℕ) (t : Table) (id : Uuid) (row : Session)
    → lookup id t ≡ some row
    → now ≤ row.created_at + cutoff_multiplier * token_ttl
    → lookup id (sweep now token_ttl t).0 ≡ some row
unfolding sweep
sweep_spares now token_ttl t id row e h =
    ground (arith, lookup-expire_stale (now - cutoff_multiplier * token_ttl) id t row e)
