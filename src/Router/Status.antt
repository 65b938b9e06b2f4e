-- ===== src/Router/Status.antt =====
-- backend/internal/httpapi/router.go and backend/internal/metrics/metrics.go: what is logged and counted
-- of a request. A handler is what it does to its ResponseWriter; the writers of net/http send the first
-- status that is written, and 200 before a body that comes first.
pub mod Agreement
use ar_app.Base.{
  ℕ, Bool, true, false, not, Option, none, some, List, [], ◌∷◌, ◌++◌, String, ◌==◌, string_eq,
  if◌then◌else◌,
}

-- WriteHeader with a final status, Write, and Hijack, whose caller then sends a status on the raw
-- connection.
pub data Write : Type 0 where
  header : ℕ → Write
  body : String → Write
  hijack : ℕ → Write

pub record Handler : Type 0 where
  pub writes : List Write
  -- Whether it ends in a panic.
  pub panics : Bool

-- The connection's writer: the status that was sent.
abbrev pub Sent : Type 0
Sent = Option ℕ

abbrev pub send_header : ℕ → Sent → Sent
send_header code none = some code
send_header code (some first) = some first

-- statusWriter, and statusRecorder of metrics: the status, and whether a header was written.
pub record StatusWriter : Type 0 where
  pub status : ℕ
  pub wrote_header : Bool

abbrev pub new_status_writer : StatusWriter
new_status_writer = record { status = 200; wrote_header = false }

abbrev pub note_header : ℕ → StatusWriter → StatusWriter
note_header code w = if w.wrote_header then w else record { status = code; wrote_header = true }

-- The writers around a handler, from the inside: the logger's, the recorder's and the connection's.
-- Write is not intercepted, and Hijack only passed on.
pub record Writers : Type 0 where
  pub logger : StatusWriter
  pub recorder : StatusWriter
  pub sent : Sent

abbrev pub write_one : Write → Writers → Writers
write_one (header code) w = record {
  logger = note_header code w.logger;
  recorder = note_header code w.recorder;
  sent = send_header code w.sent;
}
write_one (body text) w = record w { sent = send_header 200 w.sent }
write_one (hijack code) w = record w { sent = send_header code w.sent }

unfoldable pub write_all : List Write → Writers → Writers
write_all [] w = w
write_all (x ∷ rest) w = write_all rest (write_one x w)

-- recoverer: http.Error after a panic.
abbrev pub recovered : Handler → List Write
recovered h = if h.panics then h.writes ++ header 500 ∷ body "internal error" ∷ [] else h.writes

abbrev pub new_writers : Writers
new_writers = record { logger = new_status_writer; recorder = new_status_writer; sent = none }

-- What the server ends a request with: 200 if the handler has written nothing.
abbrev pub status_sent : Sent → ℕ
status_sent none = 200
status_sent (some code) = code

abbrev pub signaling_route : String
signaling_route = "GET /v1/signaling"

-- routePattern
abbrev pub route_pattern : String → String
route_pattern pattern = if pattern == "" then "unmatched" else pattern

-- The collectors: the labels of each increment of the counter, and the route of each observation of
-- the histogram.
pub record Metrics : Type 0 where
  pub requests : List (String × String × ℕ)
  pub observed : List String

-- MiddlewareDynamic around logging and recoverer: the collectors, the status of the log line and the one
-- that the client gets. The pattern is what ServeMux has put into the request.
unfoldable pub serve : String → String → Handler → Metrics → Metrics × ℕ × ℕ
serve method pattern h m =
    let w = write_all (recovered h) new_writers in
    let route = route_pattern pattern in
    (
      record {
        requests = m.requests ++ (method, route, w.recorder.status) ∷ [];
        observed = if route == signaling_route then m.observed else m.observed ++ route ∷ [];
      },
      w.logger.status,
      status_sent w.sent,
    )
