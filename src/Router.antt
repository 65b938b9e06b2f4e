-- ===== src/Router.antt =====
-- backend/internal/httpapi/router.go: the table of routes, and what stands before each handler. Which
-- of the registered patterns a request matches is the answer of http.ServeMux.
pub mod Access
pub mod Status
use ar_app.Base.{
  ℕ, Bool, true, false, Option, none, some, List, [], ◌∷◌, ◌++◌, String, ◌==◌, string_eq,
  if◌then◌else◌,
}
use ar_app.Base.Map.{Map, lookup}
use ar_app.Platform.Redis.{Redis}
use ar_app.Platform.Uuid.{Uuids}
use ar_app.Platform.Jwt.{Jwt}
use ar_app.Auth.{Issuer, Principal, unauthorized, authenticated, Verdict, middleware}
use ar_app.Identity.Handlers.{Caller}
use ar_app.Ratelimit.{Net, Limiter, TrustedProxies, Sender, admits}

pub data Handler : Type 0 where
  to_healthz to_readyz to_metrics : Handler
  to_register to_login to_refresh to_redeem to_serve_ws : Handler
  to_me to_logout to_mint : Handler
  to_list_users to_create_user to_disable_user to_enable_user : Handler
  to_create_upload to_list_recordings to_complete_recording : Handler

-- What a route puts before its handler: nothing, a limiter with its prefix if there is one, or the
-- middleware of the issuer.
pub data Guard : Type 0 where
  open_to_all authed : Guard
  throttle : Option Limiter → String → Guard

pub record Deps : Type 0 where
  pub readiness : Bool
  pub recordings : Bool
  pub register_limiter : Option Limiter
  pub auth_limiter : Option Limiter
  pub redeem_limiter : Option Limiter

pub record Route : Type 0 where
  pub guard : Guard
  pub handler : Handler

abbrev route : Guard → Handler → Route
route guard handler = record { guard = guard; handler = handler }

abbrev pub readiness_routes : Bool → Map String Route
readiness_routes true = ("GET /readyz", route open_to_all to_readyz) ∷ []
readiness_routes false = []

abbrev pub recording_routes : Bool → Map String Route
recording_routes true =
    ("POST /v1/sessions/{id}/recordings", route authed to_create_upload)
    ∷ ("GET /v1/sessions/{id}/recordings", route authed to_list_recordings)
    ∷ ("POST /v1/recordings/{id}/complete", route authed to_complete_recording)
    ∷ []
recording_routes false = []

unfoldable pub routes : Deps → Map String Route
routes d =
    ("GET /healthz", route open_to_all to_healthz) ∷ readiness_routes d.readiness
    ++ ("GET /metrics", route open_to_all to_metrics)
      ∷ ("POST /v1/auth/register", route (throttle d.register_limiter "register") to_register)
      ∷ ("POST /v1/auth/login", route (throttle d.auth_limiter "login") to_login)
      ∷ ("POST /v1/auth/refresh", route open_to_all to_refresh)
      ∷ ("POST /v1/sessions/redeem", route (throttle d.redeem_limiter "redeem") to_redeem)
      ∷ ("GET /v1/signaling", route open_to_all to_serve_ws)
      ∷ ("GET /v1/me", route authed to_me)
      ∷ ("POST /v1/auth/logout", route authed to_logout)
      ∷ ("POST /v1/sessions", route authed to_mint)
      ∷ ("GET /v1/users", route authed to_list_users)
      ∷ ("POST /v1/users", route authed to_create_user)
      ∷ ("POST /v1/users/{id}/disable", route authed to_disable_user)
      ∷ ("POST /v1/users/{id}/enable", route authed to_enable_user)
      ∷ recording_routes d.recordings

-- What becomes of a request: a refusal, or a handler that runs with the principal of its context.
pub data Outcome : Type 0 where
  not_found too_many_requests : Outcome
  refused : String → Outcome
  runs : Handler → Caller → Outcome

-- What a request shows to the guards: its sender, and its Authorization header.
pub record Request : Type 0 where
  pub sender : Sender
  pub authorization : String

module _ (N : Net) (R : Redis) (nets : TrustedProxies N) (equal_fold : String → String → Bool)
    (trim_space : String → String) (J : Jwt) (U : Uuids) (i : Issuer) (now : ℕ) where
  abbrev pub admitted : Handler → R.Store × Bool → R.Store × Outcome
  admitted h (s, true) = (s, runs h none)
  admitted h (s, false) = (s, too_many_requests)

  abbrev identified : Handler → Verdict → Outcome
  identified h (unauthorized message) = refused message
  identified h (authenticated p) = runs h (some p)

  unfoldable pub pass_guard : Guard → Handler → Request → R.Store → R.Store × Outcome
  pass_guard open_to_all h r s = (s, runs h none)
  pass_guard (throttle none prefix) h r s = (s, runs h none)
  pass_guard (throttle (some l) prefix) h r s = admitted h (admits N R l prefix nets r.sender s)
  pass_guard authed h r s =
      (s, identified h (middleware equal_fold trim_space J U i now r.authorization))

  -- The pattern is the one that ServeMux has matched, if any.
  unfoldable pub dispatch : Deps → Option String → Request → R.Store → R.Store × Outcome
  dispatch d none r s = (s, not_found)
  dispatch d (some pattern) r s = elim (lookup pattern (routes d)) [
    | none ↦ (s, not_found)
    | some found ↦ pass_guard found.guard found.handler r s
  ]
