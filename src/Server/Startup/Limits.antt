-- ===== src/Server/Startup/Limits.antt =====
-- What the limiters that main configures let through.
use ar_app.Base.{
  All, ◌<◌, ◌⊎◌, ℕ, ◌+◌, ◌≡◌, inl, inr, refl, sym, subst, Bool, true, false, Option, some, List, [],
  ◌∷◌, String, ◌==◌, string_eq, nat_eq, leb, arith, if◌then◌else◌, Bool-cases, beq_refl,
}
use Prim.Native.Nat.{min}
use Prim.Native.String
use Prim.Native.String.append
use ar_app.Base.Int.{ℤ}
use ar_app.Base.Map.{lookup}
use ar_app.Platform.Redis.{Redis, reply, Answers}
use ar_app.Platform.Uuid.{Uuids}
use ar_app.Platform.Jwt.{Jwt}
use ar_app.Auth.{Issuer}
use ar_app.Config.{Environment, Config}
use ar_app.Ratelimit.{Net, Limiter, TrustedProxies, allow, client_ip, admits}
use ar_app.Ratelimit.Window.{one, allow_counted, countable-allow}
use ar_app.Ratelimit.Clients.{IsFrom, client_ip-IsFrom}
use ar_app.Recordings.Presigner.{S3Presigner}
use ar_app.Router.{
  Handler, to_register, to_login, to_redeem, Outcome, runs, Request, routes, admitted, pass_guard,
  dispatch,
}
use ar_app.Store.{Database, Answer}
use ar_app.Server.Startup.Launching.{startup_listens}
use ar_app.Server.Startup.{App, listens, wired, startup, minute}

-- The routes with a limiter.
pub data Limited : Type 0 where
  registering logging_in redeeming : Limited

abbrev pub pattern_of : Limited → String
pattern_of registering = "POST /v1/auth/register"
pattern_of logging_in = "POST /v1/auth/login"
pattern_of redeeming = "POST /v1/sessions/redeem"

abbrev pub prefix_of : Limited → String
prefix_of registering = "register"
prefix_of logging_in = "login"
prefix_of redeeming = "redeem"

abbrev pub handler_of : Limited → Handler
handler_of registering = to_register
handler_of logging_in = to_login
handler_of redeeming = to_redeem

abbrev pub limit_of : Limited → ℕ
limit_of registering = 5
limit_of logging_in = 10
limit_of redeeming = 20

abbrev limiter_of : Limited → Limiter
limiter_of k = record { max = limit_of k; window = minute }

positive : 0 < minute
positive = omega arith

-- 1 if the handler of the route runs.
abbrev pub reached : Limited → Outcome → ℕ
reached registering (runs to_register c) = 1
reached logging_in (runs to_login c) = 1
reached redeeming (runs to_redeem c) = 1
reached k o = 0

abbrev pub key_for : Limited → String → String
key_for k ip = String.◌++◌ (String.◌++◌ (prefix_of k) ":") ip

append_cancel : (p a b : String) → String.◌++◌ p a ≡ String.◌++◌ p b → a ≡ b
append_cancel String.[] a b h = cc (h, append.nil a, append.nil b)
append_cancel (String.◌∷◌ c p) a b h =
    append_cancel p a b (cc (h, append.cons c p a, append.cons c p b))

module _ (N : Net) (R : Redis) (equal_fold : String → String → Bool) (trim_space : String → String)
    (J : Jwt) (U : Uuids) (i : Issuer) (now : ℕ) where
  abbrev pub answer : App N → Limited → Request → R.Store → R.Store × Outcome
  answer app k r s =
      dispatch N R app.proxies equal_fold trim_space J U i now app.deps (some (pattern_of k)) r s

  -- Requests, each with the client that it is from; the number of those from a client, in order, that reach
  -- the handler, and the store after all of them.
  abbrev pub Arrivals : Type 0
  Arrivals = List (Request × String)

  unfoldable pub let_through : App N → Limited → String → Arrivals → R.Store → ℕ
  let_through app k ip [] s = 0
  let_through app k ip ((r, from) ∷ rs) s =
      let later = let_through app k ip rs (answer app k r s).0 in
      if from == ip then reached k (answer app k r s).1 + later else later

  unfoldable pub store_after : App N → Limited → Arrivals → R.Store → R.Store
  store_after app k [] s = s
  store_after app k ((r, from) ∷ rs) s = store_after app k rs (answer app k r s).0

  -- The number of requests from a client.
  abbrev pub sent_by : String → Arrivals → ℕ
  sent_by ip [] = 0
  sent_by ip ((r, from) ∷ rs) = let later = sent_by ip rs in if from == ip then 1 + later else later

  reached-one :
      (k : Limited) (a : R.Store × Bool)
      → reached k (admitted N R [] equal_fold trim_space J U i now (handler_of k) a).1
        ≡ one R (limiter_of k) positive a.1
  reached-one registering (s, true) = refl
  reached-one registering (s, false) = refl
  reached-one logging_in (s, true) = refl
  reached-one logging_in (s, false) = refl
  reached-one redeeming (s, true) = refl
  reached-one redeeming (s, false) = refl

  answer-admitted :
      (c : Config) (proxies : TrustedProxies N) (p : Option S3Presigner) (k : Limited) (r : Request)
      (s : R.Store)
      → answer (wired N c proxies p) k r s
        ≡ admitted N R [] equal_fold trim_space J U i now
            (handler_of k)
            (allow R (limiter_of k) (key_for k (client_ip N proxies r.sender)) s)
  unfolding wired dispatch lookup routes pass_guard admits
  answer-admitted c proxies p registering r s = refl
  answer-admitted c proxies p logging_in r s = refl
  answer-admitted c proxies p redeeming r s = refl

  store_admitted :
      (h : Handler) (a : R.Store × Bool)
      → (admitted N R [] equal_fold trim_space J U i now h a).0 ≡ a.0
  store_admitted h (s, true) = refl
  store_admitted h (s, false) = refl

  -- An event under one key leaves the count of another.
  allow_elsewhere :
      (l : Limiter) (lasts : 0 < l.window) (other key : String) (s : R.Store) (n : ℕ)
      → (R.incr s other).1 ≡ reply n
      → (other == key) ≡ false
      → R.counter (allow R l other s).0 key ≡ R.counter s key
  unfolding allow
  allow_elsewhere l lasts other key s n e d = ground (
    arith,
    R.incr_reply s other n e,
    R.counter-incr s other n key e,
    R.counter-expire (R.incr s other).0 other l.window key lasts,
    d,
  )

  other_key : (k : Limited) (a b : String) → (a == b) ≡ false → (key_for k a == key_for k b) ≡ false
  other_key k a b d = elim (Bool-cases (key_for k a == key_for k b)) [
    | inl same ↦ absurd (
        cc (
          d,
          beq_refl a,
          append_cancel (String.◌++◌ (prefix_of k) ":") a b
              ((string_eq.beq_iff (key_for k a) (key_for k b)).0 same),
        ))
    | inr differs ↦ differs
  ]

  -- No count without its time to live.
  abbrev pub Expires : R.Store → String → Type 0
  Expires s key = (R.counter s key ≡ 0) ⊎ (R.lifetime s key ≡ some 60000000000)

  allow-Expires :
      (up : Answers R) (l : Limiter) (other key : String) (s : R.Store)
      → l.window ≡ 60000000000
      → R.countable s other ≡ true
      → Expires s key
      → Expires (allow R l other s).0 key
  unfolding allow
  allow-Expires up l other key s w free x =
      let (n, e) = up.incr_answers s other free in
      let s1 = (R.incr s other).0 in
      let counted = R.counter-incr s other n other e in
      ground (
        arith,
        beq_refl other,
        string_eq.beq_iff other key,
        R.incr_reply s other n e,
        counted,
        R.counter-incr s other n key e,
        R.lifetime-incr s other key,
        R.counter-expire s1 other l.window key (omega (arith, w)),
        R.lifetime-expire s1 other l.window key
            (up.expire_answers s1 other l.window
              (ground (arith, counted, beq_refl other, R.incr_reply s other n e)))
            (omega (arith, w)),
      )

  abbrev Countable : Limited → R.Store → Type 0
  Countable k s = (from : String) → R.countable s (key_for k from) ≡ true

  module _ (up : Answers R) (c : Config) (proxies : TrustedProxies N) (p : Option S3Presigner)
      (k : Limited) (ip : String) where
    abbrev app : App N
    app = wired N c proxies p

    -- What a request of a client does to the store and to the outcome.
    store_answer :
        (r : Request) (from : String) (s : R.Store)
        → IsFrom N proxies r.sender from
        → (answer app k r s).0 ≡ (allow R (limiter_of k) (key_for k from) s).0
    store_answer r from s f = cc (
      answer-admitted c proxies p k r s,
      store_admitted (handler_of k)
          (allow R (limiter_of k) (key_for k (client_ip N proxies r.sender)) s),
      client_ip-IsFrom N proxies r.sender from f,
    )

    reached-answer :
        (r : Request) (from : String) (s : R.Store)
        → IsFrom N proxies r.sender from
        → reached k (answer app k r s).1
          ≡ one R (limiter_of k) positive (allow R (limiter_of k) (key_for k from) s).1
    reached-answer r from s f = cc (
      answer-admitted c proxies p k r s,
      reached-one k (allow R (limiter_of k) (key_for k (client_ip N proxies r.sender)) s),
      client_ip-IsFrom N proxies r.sender from f,
    )

    answer_mine :
        (r : Request) (from : String) (s : R.Store)
        → IsFrom N proxies r.sender from
        → Countable k s
        → (from == ip) ≡ true
        → (reached k (answer app k r s).1
            ≡ one R (limiter_of k) positive (leb (R.counter s (key_for k ip) + 1) (limit_of k)))
          × (R.counter (answer app k r s).0 (key_for k ip) ≡ R.counter s (key_for k ip) + 1)
    answer_mine r from s f free mine =
        let (n, e) = up.incr_answers s (key_for k from) (free from) in
        let (allowed, counted) = allow_counted R (limiter_of k) positive (key_for k from) s n e in
        let same = (string_eq.beq_iff from ip).0 mine in
        (cc (reached-answer r from s f, allowed, same), cc (store_answer r from s f, counted, same))

    answer_other :
        (r : Request) (from : String) (s : R.Store)
        → IsFrom N proxies r.sender from
        → Countable k s
        → (from == ip) ≡ false
        → R.counter (answer app k r s).0 (key_for k ip) ≡ R.counter s (key_for k ip)
    answer_other r from s f free other =
        let (n, e) = up.incr_answers s (key_for k from) (free from) in
        cc (
          store_answer r from s f,
          allow_elsewhere (limiter_of k) positive (key_for k from) (key_for k ip) s n e
              (other_key k from ip other),
        )

    answer-Countable :
        (r : Request) (from : String) (s : R.Store)
        → IsFrom N proxies r.sender from
        → Countable k s
        → Countable k (answer app k r s).0
    answer-Countable r from s f free other = cc (
      store_answer r from s f,
      countable-allow R (limiter_of k) positive (key_for k from) (key_for k other) s (free other),
    )

    abbrev AllFrom : Arrivals → Type 0
    AllFrom rs = All (λ (a : Request × String). IsFrom N proxies a.0.sender a.1) rs

    let_through_from :
        (rs : Arrivals) (s : R.Store)
        → AllFrom rs
        → Countable k s
        → (let_through app k ip rs s + min (R.counter s (key_for k ip)) (limit_of k)
            ≡ min (R.counter s (key_for k ip) + sent_by ip rs) (limit_of k))
          × (R.counter (store_after app k rs s) (key_for k ip)
              ≡ R.counter s (key_for k ip) + sent_by ip rs)
    unfolding let_through store_after
    let_through_from [] s all free = (omega arith, omega arith)
    let_through_from ((r, from) ∷ rs) s (f, all) free =
        let (later, counts) =
          let_through_from rs (answer app k r s).0 all (answer-Countable r from s f free) in
        elim (Bool-cases (from == ip)) [
          | inl mine ↦
              let (allowed, counted) = answer_mine r from s f free mine in
              (
                rw (mine, allowed) (ground (arith, later, counted)),
                rw (mine) (omega (arith, counts, counted)),
              )
          | inr other ↦
              let counted = answer_other r from s f free other in
              (
                rw (other) (ground (arith, later, counted)),
                rw (other) (omega (arith, counts, counted)),
              )
        ]

    Expires-from :
        (rs : Arrivals) (s : R.Store)
        → AllFrom rs
        → Countable k s
        → Expires s (key_for k ip)
        → Expires (store_after app k rs s) (key_for k ip)
    unfolding store_after
    Expires-from [] s all free x = x
    Expires-from ((r, from) ∷ rs) s (f, all) free x =
        Expires-from rs (answer app k r s).0 all (answer-Countable r from s f free) (
          subst (λ (y : R.Store). Expires y (key_for k ip)) (sym (store_answer r from s f))
            (allow-Expires up (limiter_of k) (key_for k from) (key_for k ip) s refl (free from) x))

  module _ {Data : Type 0} (parse_duration : String → Option ℤ) (atoi : String → Option ℤ) where
    -- With what the server listens with after a start that succeeds, in whatever environment, while Redis
    -- answers and holds nothing but counts under the keys of a limiter, and in a window that starts with an
    -- empty counter for a client: of a sequence of requests to register, to log in or to redeem, from any
    -- clients in any order, exactly the smaller of the number of the client's and 5, 10 or 20 of the
    -- client's reach the handler. Each request is counted for its client: the host of a connection that is
    -- no trusted proxy's, else what the proxy forwards, without the port. The counter is then the number of
    -- the client's requests, and unless it is 0 its key expires after a minute.
    pub server_throttles :
        (env : Environment) (opens : Bool) (migrates : Database Data → Answer Data)
        (db db' : Database Data) (app : App N) (k : Limited) (ip : String) (rs : Arrivals)
        (s : R.Store)
        → startup N parse_duration atoi env opens migrates db ≡ (db', listens app)
        → Answers R
        → All (λ (a : Request × String). IsFrom N app.proxies a.0.sender a.1) rs
        → ((from : String) → R.countable s (key_for k from) ≡ true)
        → R.counter s (key_for k ip) ≡ 0
        → (let_through app k ip rs s ≡ min (sent_by ip rs) (limit_of k))
          × (R.counter (store_after app k rs s) (key_for k ip) ≡ sent_by ip rs)
          × ((R.counter (store_after app k rs s) (key_for k ip) ≡ 0)
              ⊎ (R.lifetime (store_after app k rs s) (key_for k ip) ≡ some 60000000000))
    server_throttles env opens migrates db db' app k ip rs s h up all free z =
        let (loaded, opened, done, parsed, stored, same) =
          startup_listens N parse_duration atoi env opens migrates db db' app h in
        let (through, counts) =
          let_through_from up app.config app.proxies app.presigner k ip rs s all free in
        let expires =
          Expires-from up app.config app.proxies app.presigner k ip rs s all free (inl z) in
        subst
          (λ a.
            (let_through a k ip rs s ≡ min (sent_by ip rs) (limit_of k))
            × (R.counter (store_after a k rs s) (key_for k ip) ≡ sent_by ip rs)
            × Expires (store_after a k rs s) (key_for k ip))
          (sym same) (omega (arith, z, through), omega (arith, z, counts), expires)
