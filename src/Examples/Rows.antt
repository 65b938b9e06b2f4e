-- ===== src/Examples/Rows.antt =====
-- Runs of the statements on the sessions table.
use ar_app.Base.{◌≡◌, refl, none, some, List, [], ◌∷◌, nat_eq}
use ar_app.Base.Map.{lookup}
use ar_app.Session.Table.{Session, pending, ended, Table}
use ar_app.Session.Table.Life.{
  Statement, activates, ends, sweeps, apply_all, Reaches, statements-Reaches,
}

abbrev fresh : Session
fresh = record {
  org_id = 7;
  agent_id = 8;
  connect_id = "123456789";
  status = pending;
  created_at = 100;
  connected_at = none;
  ended_at = none;
}

abbrev over : Session
over = record fresh { status = ended; ended_at = some 300 }

abbrev rows : Table
rows = (1, fresh) ∷ (2, over) ∷ []

fresh_found : lookup 1 rows ≡ some fresh
unfolding lookup
fresh_found = refl

abbrev day : List Statement
day = activates 1 150 ∷ sweeps 200 ∷ activates 2 210 ∷ ends 1 220 ∷ ends 2 230 ∷ []

statements-Reaches_example :
    (row : Session) × (lookup 1 (apply_all day rows) ≡ some row) × Reaches pending row.status
statements-Reaches_example = statements-Reaches day 1 rows fresh fresh_found
