-- ===== src/Config/Durations.antt =====
-- Which durations the configuration holds, and when it is refused.
use ar_app.Base.{
  ℕ, ◌*◌, ◌^◌, ◌≤◌, ◌<◌, ◌≡◌, ◌↔◌, ◌⊎◌, inl, inr, refl, Bool, true, false, Option, none, some, List,
  [], ◌∷◌, String, ◌==◌, string_eq, arith, if◌then◌else◌, All,
}
use ar_app.Base.Int.{ℤ, pos}
use ar_app.Config.{
  seconds, second, getdur, Environment, Config, load, minutes, ok, Result, invalid_duration,
  config_of, ◌>>=◌,
}

-- A number of seconds that Atoi has read, so below 2 ^ 63, becomes that many nanoseconds exactly if it is
-- at most 9223372036, some 292 years; a larger one wraps around to another duration.
pub seconds_exact_iff :
    (n : ℕ) → n < 2 ^ 63 → (seconds (pos n) ≡ pos (n * second)) ↔ (n ≤ 9223372036)
seconds_exact_iff n h = ground arith

pub Result-cases :
    {A : Type 0} (r : Result A)
    → ((a : A) × (r ≡ ok a)) ⊎ ((k : String) × (v : String) × (r ≡ invalid_duration k v))
Result-cases (ok a) = inl (a, refl)
Result-cases (invalid_duration k v) = inr (k, v, refl)

bound :
    {A B : Type 0} (m : Result A) (k : A → Result B) (b : B)
    → (m >>= k) ≡ ok b
    → (a : A) × (m ≡ ok a) × (k a ≡ ok b)
bound (ok a) k b h = (a, refl, h)
bound (invalid_duration key v) k b h = absurd (cc h)

module _ (parse_duration : String → Option ℤ) (atoi : String → Option ℤ) (env : Environment) where
  -- The value of a key is missing, empty, a duration, or a number.
  abbrev pub is_readable : Option String → Bool
  is_readable none = true
  is_readable (some v) = if v == "" then true else elim (parse_duration v) [
    | some d ↦ true
    | none ↦ elim (atoi v) [ some secs ↦ true | none ↦ false ]
  ]

  abbrev pub Reads : String → ℤ → Type 0
  Reads key default = (d : ℤ) × (getdur parse_duration atoi env key default ≡ ok d)

  unreadable :
      (key k v : String) (default : ℤ)
      → getdur parse_duration atoi env key default ≡ invalid_duration k v
      → is_readable (env key) ≡ false
  unfolding getdur
  unreadable key k v default h = ground (arith, h)

  reads : (key : String) (default : ℤ) → is_readable (env key) ≡ true → Reads key default
  reads key default h = elim (Result-cases (getdur parse_duration atoi env key default)) [
    | inl r ↦ r
    | inr (k, v, e) ↦ absurd (cc (unreadable key k v default e, h))
  ]

  readable :
      (key : String) (default d : ℤ)
      → getdur parse_duration atoi env key default ≡ ok d
      → is_readable (env key) ≡ true
  unfolding getdur
  readable key default d h = ground (arith, h)

  abbrev pub duration_keys : List String
  duration_keys =
      "ACCESS_TOKEN_TTL" ∷ "REFRESH_TOKEN_TTL" ∷ "SESSION_TOKEN_TTL" ∷ "SIGNALING_TOKEN_TTL"
      ∷ "TURN_CRED_TTL" ∷ "RECORDING_URL_TTL" ∷ []

  -- Load succeeds exactly if the value of each of the six durations is missing, empty, a duration of
  -- ParseDuration or a number of Atoi; no other value makes it fail.
  pub load_ok_iff :
      ((c : Config) × (load parse_duration atoi env ≡ ok c))
      ↔ All (λ key. is_readable (env key) ≡ true) duration_keys
  unfolding load
  load_ok_iff = (
    λ r.
        let (a, ea, h1) = bound _ _ (r.0) (r.1) in
        let (b, eb, h2) = bound _ _ (r.0) h1 in
        let (c, ec, h3) = bound _ _ (r.0) h2 in
        let (d, ed, h4) = bound _ _ (r.0) h3 in
        let (e, ee, h5) = bound _ _ (r.0) h4 in
        let (f, ef, h6) = bound _ _ (r.0) h5 in
        (
          readable "ACCESS_TOKEN_TTL" _ a ea,
          (
            readable "REFRESH_TOKEN_TTL" _ b eb,
            (
              readable "SESSION_TOKEN_TTL" _ c ec,
              (
                readable "SIGNALING_TOKEN_TTL" _ d ed,
                (readable "TURN_CRED_TTL" _ e ee, (readable "RECORDING_URL_TTL" _ f ef, tt)),
              ),
            ),
          ),
        ),
    λ all.
        let (a, ea) = reads "ACCESS_TOKEN_TTL" (minutes 15) all.0 in
        let (b, eb) = reads "REFRESH_TOKEN_TTL" (minutes 43200) all.1.0 in
        let (c, ec) = reads "SESSION_TOKEN_TTL" (minutes 10) all.1.1.0 in
        let (d, ed) = reads "SIGNALING_TOKEN_TTL" (minutes 240) all.1.1.1.0 in
        let (e, ee) = reads "TURN_CRED_TTL" (minutes 60) all.1.1.1.1.0 in
        let (f, ef) = reads "RECORDING_URL_TTL" (minutes 15) all.1.1.1.1.1.0 in
        (config_of env a b c d e f, rw (ea, eb, ec, ed, ee, ef) refl),
  )
