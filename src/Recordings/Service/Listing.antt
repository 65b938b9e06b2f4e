-- ===== src/Recordings/Service/Listing.antt =====
-- What List answers.
use ar_app.Base.{◌==◌, ◌&&◌, filter, map, List, nat_eq}
use ar_app.Platform.Uuid.{Uuid}
use ar_app.Recordings.Table.{Row, recording_of, Table, Recording}

-- The rows of a session and an organization, as List shows them.
abbrev pub rows_of : Uuid → Uuid → Table → List Recording
rows_of org_id session_id t =
    map (λ (e : Uuid × Row). recording_of e.0 e.1)
      (filter (λ (e : Uuid × Row). e.1.session_id == session_id && e.1.org_id == org_id) t)
