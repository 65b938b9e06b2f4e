-- ===== src/Ratelimit/Window.antt =====
-- How many events the limiter lets through.
use ar_app.Base.{
  ◌<◌, ◌∙◌, ℕ, zero, suc, ◌+◌, ◌≡◌, Bool, true, false, String, string_eq, nat_eq, leb, arith,
  beq_refl,
}
use Prim.Native.Nat.{min}
use ar_app.Platform.Redis.{Redis, reply, Answers}
use ar_app.Ratelimit.{Limiter, allow}

module _ (R : Redis) (l : Limiter) (lasts : 0 < l.window) where
  -- A counted event is allowed exactly while the count does not pass the maximum.
  pub allow_counted :
      (key : String) (s : R.Store) (n : ℕ)
      → (R.incr s key).1 ≡ reply n
      → ((allow R l key s).1 ≡ leb (R.counter s key + 1) l.max)
        × (R.counter (allow R l key s).0 key ≡ R.counter s key + 1)
  unfolding allow
  allow_counted key s n e = ground (
    arith,
    R.incr_reply s key n e,
    R.counter-incr s key n key e,
    R.counter-expire (R.incr s key).0 key l.window key lasts,
    beq_refl key,
  )

  pub countable-allow :
      (key other : String) (s : R.Store)
      → R.countable s other ≡ true
      → R.countable (allow R l key s).0 other ≡ true
  unfolding allow
  countable-allow key other s h =
      let kept = R.countable-incr s key other ∙ h in
      ground (arith, kept, R.countable-expire (R.incr s key).0 key l.window other kept)

  abbrev pub one : Bool → ℕ
  one true = 1
  one false = 0

  -- The number of events of one key that are let through, of so many in a row inside one window.
  unfoldable pub passed : String → ℕ → R.Store → ℕ
  passed key zero s = 0
  passed key (suc n) s = one (allow R l key s).1 + passed key n (allow R l key s).0

  passed_from :
      (up : Answers R) (key : String) (n : ℕ) (s : R.Store)
      → R.countable s key ≡ true
      → passed key n s + min (R.counter s key) l.max ≡ min (R.counter s key + n) l.max
  unfolding passed
  passed_from up key zero s free = omega arith
  passed_from up key (suc n) s free =
      let (m, e) = up.incr_answers s key free in
      let (allowed, counted) = allow_counted key s m e in
      ground (
        arith,
        passed_from up key n (allow R l key s).0 (countable-allow key key s free),
        allowed,
        counted,
      )

  -- In a window that starts with an empty counter, and while Redis answers, of n events under one key
  -- exactly the smaller of n and the maximum are let through.
  pub passed-min :
      (key : String) (n : ℕ) (s : R.Store)
      → Answers R
      → R.countable s key ≡ true
      → R.counter s key ≡ 0
      → passed key n s ≡ min n l.max
  passed-min key n s up free z = omega (arith, passed_from up key n s free)
