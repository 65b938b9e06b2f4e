-- ===== src/Router/Access.antt =====
-- Who reaches which handler.
use ar_app.Base.{
  ℕ, ◌≡◌, ◌⊎◌, inl, inr, subst, refl, Bool, true, false, Option, none, some, [], ◌∷◌, ◌++◌, String,
  string_eq, arith, if◌then◌else◌, All, Option-cases,
}
use ar_app.Base.Map.{Map, lookup}
use ar_app.Platform.Redis.{Redis}
use ar_app.Platform.Uuid.{Uuids}
use ar_app.Platform.Jwt.{Jwt}
use ar_app.Auth.{Issuer, Principal, Verdict, unauthorized, authenticated, middleware}
use ar_app.Identity.Handlers.{Caller}
use ar_app.Ratelimit.{Net, Limiter, TrustedProxies, admits}
use ar_app.Router.{
  Handler, to_healthz, to_readyz, to_metrics, to_register, to_login, to_refresh, to_redeem,
  to_serve_ws, Guard, open_to_all, authed, throttle, Deps, Route, routes, readiness_routes,
  recording_routes, Outcome, runs, Request, admitted, pass_guard, dispatch,
}

-- The handlers that a request without a token may reach.
abbrev pub is_public : Handler → Bool
is_public to_healthz = true
is_public to_readyz = true
is_public to_metrics = true
is_public to_register = true
is_public to_login = true
is_public to_refresh = true
is_public to_redeem = true
is_public to_serve_ws = true
is_public _ = false

-- The guard that each handler is meant to have.
abbrev pub guard_for : Deps → Handler → Guard
guard_for d to_register = throttle d.register_limiter "register"
guard_for d to_login = throttle d.auth_limiter "login"
guard_for d to_redeem = throttle d.redeem_limiter "redeem"
guard_for d h = if is_public h then open_to_all else authed

abbrev Meant : Deps → String × Route → Type 0
Meant d e = e.1.guard ≡ guard_for d e.1.handler

lookup-All :
    (d : Deps) (pattern : String) (found : Route) (table : Map String Route)
    → All (Meant d) table
    → lookup pattern table ≡ some found
    → found.guard ≡ guard_for d found.handler
unfolding lookup
lookup-All d pattern found [] all h = absurd (cc h)
lookup-All d pattern found ((other, r) ∷ rest) (m, all) h =
    ground (arith, h, m, lookup-All d pattern found rest all)

All-append :
    (d : Deps) (a b : Map String Route) → All (Meant d) a → All (Meant d) b → All (Meant d) (a ++ b)
All-append d [] b x y = y
All-append d (e ∷ a) b (m, x) y = (m, All-append d a b x y)

readiness-All : (d : Deps) (b : Bool) → All (Meant d) (readiness_routes b)
readiness-All d true = (refl, tt)
readiness-All d false = tt

recording-All : (d : Deps) (b : Bool) → All (Meant d) (recording_routes b)
recording-All d true = (refl, (refl, (refl, tt)))
recording-All d false = tt

routes-All : (d : Deps) → All (Meant d) (routes d)
unfolding routes
routes-All d = (
  refl,
  All-append d (readiness_routes d.readiness) _ (readiness-All d d.readiness) (
    refl,
    (
      refl,
      (
        refl,
        (
          refl,
          (
            refl,
            (
              refl,
              (refl, (refl, (refl, (refl, (refl, (refl, (refl, recording-All d d.recordings))))))),
            ),
          ),
        ),
      ),
    ),
  ),
)

Verdict-cases :
    (v : Verdict)
    → ((message : String) × (v ≡ unauthorized message)) ⊎ ((p : Principal) × (v ≡ authenticated p))
Verdict-cases (unauthorized message) = inl (message, refl)
Verdict-cases (authenticated p) = inr (p, refl)

module _ (N : Net) (R : Redis) (nets : TrustedProxies N) (equal_fold : String → String → Bool)
    (trim_space : String → String) (J : Jwt) (U : Uuids) (i : Issuer) (now : ℕ) where
  abbrev guarded : Guard → Handler → Request → R.Store → R.Store × Outcome
  guarded = pass_guard N R nets equal_fold trim_space J U i now

  runs_handler :
      (g : Guard) (h k : Handler) (c : Caller) (r : Request) (s s' : R.Store)
      → guarded g h r s ≡ (s', runs k c)
      → h ≡ k
  unfolding pass_guard
  runs_handler open_to_all h k c r s s' e = ground (arith, e)
  runs_handler (throttle none prefix) h k c r s s' e = ground (arith, e)
  runs_handler (throttle (some l) prefix) h k c r s s' e = ground (arith, e)
  runs_handler authed h k c r s s' e = ground (arith, e)

  -- A handler that runs has passed the guard that it is meant to have.
  dispatch_passed :
      (d : Deps) (pattern : Option String) (r : Request) (s s' : R.Store) (h : Handler) (c : Caller)
      → dispatch N R nets equal_fold trim_space J U i now d pattern r s ≡ (s', runs h c)
      → guarded (guard_for d h) h r s ≡ (s', runs h c)
  unfolding dispatch
  dispatch_passed d none r s s' h c e = absurd (cc e)
  dispatch_passed d (some pattern) r s s' h c e = elim (Option-cases (lookup pattern (routes d))) [
    | inl missing ↦ absurd (ground (arith, e, missing))
    | inr (found, l) ↦
        let passed : guarded found.guard found.handler r s ≡ (s', runs h c) =
          ground (arith, e, l) in
        let same = runs_handler found.guard found.handler h c r s s' passed in
        cc (same, passed, lookup-All d pattern found (routes d) (routes-All d) l)
  ]

  private_guard : (d : Deps) (h : Handler) → is_public h ≡ false → guard_for d h ≡ authed
  private_guard d h e = ground (arith, e)

  authed_runs :
      (r : Request) (s s' : R.Store) (h : Handler) (c : Caller)
      → guarded authed h r s ≡ (s', runs h c)
      → (p : Principal) × (c ≡ some p)
        × (middleware equal_fold trim_space J U i now r.authorization ≡ authenticated p)
  unfolding pass_guard
  authed_runs r s s' h c e =
      elim (Verdict-cases (middleware equal_fold trim_space J U i now r.authorization)) [
        | inl (message, m) ↦ absurd (ground (arith, e, m))
        | inr (p, m) ↦ (p, ground (arith, e, m), m)
      ]

  -- Whatever the configuration, a handler that is not one of the eight public ones runs only for a request
  -- whose bearer token the middleware accepts, and finds its principal in its context: their answer to a
  -- request without a principal is never given.
  pub dispatch_authed :
      (d : Deps) (pattern : Option String) (r : Request) (s s' : R.Store) (h : Handler) (c : Caller)
      → dispatch N R nets equal_fold trim_space J U i now d pattern r s ≡ (s', runs h c)
      → is_public h ≡ false
      → (p : Principal) × (c ≡ some p)
        × (middleware equal_fold trim_space J U i now r.authorization ≡ authenticated p)
  dispatch_authed d pattern r s s' h c e q =
      let passed = dispatch_passed d pattern r s s' h c e in
      authed_runs r s s' h c
        (subst (λ g. guarded g h r s ≡ (s', runs h c)) (private_guard d h q) passed)

  admitted_runs :
      (h : Handler) (c : Caller) (a : R.Store × Bool) (s' : R.Store)
      → admitted N R nets equal_fold trim_space J U i now h a ≡ (s', runs h c)
      → a ≡ (s', true)
  admitted_runs h c (s, true) s' e = ground (arith, e)
  admitted_runs h c (s, false) s' e = absurd (ground (arith, e))

  throttled_runs :
      (l : Limiter) (prefix : String) (r : Request) (s s' : R.Store) (h : Handler) (c : Caller)
      → guarded (throttle (some l) prefix) h r s ≡ (s', runs h c)
      → admits N R l prefix nets r.sender s ≡ (s', true)
  unfolding pass_guard
  throttled_runs l prefix r s s' h c e =
      admitted_runs h c (admits N R l prefix nets r.sender s) s' e

  -- With a limiter configured for it, registration, login and redemption run only for requests that their
  -- limiter admits, counted under the prefix of the route and the address of the client.
  pub dispatch_throttled :
      (d : Deps) (l : Limiter) (prefix : String) (pattern : Option String) (r : Request)
      (s s' : R.Store) (h : Handler) (c : Caller)
      → dispatch N R nets equal_fold trim_space J U i now d pattern r s ≡ (s', runs h c)
      → guard_for d h ≡ throttle (some l) prefix
      → admits N R l prefix nets r.sender s ≡ (s', true)
  dispatch_throttled d l prefix pattern r s s' h c e q =
      throttled_runs l prefix r s s' h c
        (subst (λ g. guarded g h r s ≡ (s', runs h c)) q (dispatch_passed d pattern r s s' h c e))
