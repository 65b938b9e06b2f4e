-- ===== src/Session/Service/Commands.antt =====
-- What each command of Redeem does to the world, and what its success says.
use ar_app.Base.{
  ℕ, ◌+◌, ◌≤◌, ◌≡◌, ◌≢◌, refl, ap, ◌⊎◌, inl, inr, some, String, List, [], ◌∷◌, string_eq, nat_eq,
  arith, Option-cases, Bool, true, false,
}
use ar_app.Platform.Uuid.{Uuid}
use ar_app.Session.Table.{Table}
use ar_app.Session.Service.Keys.{keys_differ}
use ar_app.Session.Service.{
  statement, exec, TokenRecord, Deps, Error, invalid_token, Result, ok, err, token_key,
  attempts_key, max_redeem_tries, World, M, bind_result, ◌>>=◌, load_token, track_attempt,
  check_limit, verify, hash_pin,
}

module _ (D : Deps) where
  open D use {redis, uuids}

  result_cases : {A : Type 0} (r : Result A) → ((e : Error) × (r ≡ err e)) ⊎ ((a : A) × (r ≡ ok a))
  result_cases (ok a) = inr (a, refl)
  result_cases (err e) = inl (e, refl)

  -- Inversion of a successful bind.
  pub >>=-eq-ok :
      {A B : Type 0} (m : M D A) (k : A → M D B) (w w' : World D) {b : B}
      → ◌>>=◌ D m k w ≡ (w', ok b)
      → (a : A) × ((m w).1 ≡ ok a) × (k a (m w).0 ≡ (w', ok b))
  >>=-eq-ok m k w w' h = elim (result_cases (m w).1) [
    | inl (e, q) ↦ ground arith
    | inr (a, q) ↦ (a, q, ground arith)
  ]

  -- A bind after an action whose result is known.
  pub >>=-ok :
      {A B : Type 0} (m : M D A) (k : A → M D B) (w w' : World D) (a : A)
      → m w ≡ (w', ok a)
      → ◌>>=◌ D m k w ≡ k a w'
  >>=-ok {A} m k w w' a h = ap (λ (r : World D × Result A). bind_result D r.0 r.1 k) h

  pub load_token-ok :
      (c : String) (w : World D) (raw : String)
      → (load_token D c w).1 ≡ ok raw
      → redis.text w.store (token_key c) ≡ some raw
  unfolding load_token
  load_token-ok c w raw h = ground (arith, redis.get_reply w.store (token_key c) (some raw))

  pub track_attempt-ok :
      (c : String) (w : World D) (n : ℕ)
      → (track_attempt D c w).1 ≡ ok n
      → n ≡ redis.counter w.store (attempts_key c) + 1
  unfolding track_attempt
  track_attempt-ok c w n h = ground (arith, redis.incr_reply w.store (attempts_key c) n)

  pub text-track_attempt :
      (c : String) (w : World D)
      → redis.text (track_attempt D c w).0.store (token_key c) ≡ redis.text w.store (token_key c)
  unfolding track_attempt
  text-track_attempt c w = ground (
    arith,
    redis.text-incr w.store (attempts_key c) (token_key c) (keys_differ c c),
    redis.text-expire (redis.incr w.store (attempts_key c)).0 (attempts_key c) D.ttl (token_key c)
        (keys_differ c c),
  )

  pub sessions-track_attempt :
      (c : String) (w : World D) → (track_attempt D c w).0.sessions ≡ w.sessions
  unfolding track_attempt
  sessions-track_attempt c w = ground arith

  -- Below the limit the world is unchanged.
  pub check_limit-ok :
      (c : String) (n : ℕ) (w : World D) (u : Unit {0})
      → (check_limit D c n w).1 ≡ ok u
      → (n ≤ max_redeem_tries) × ((check_limit D c n w).0 ≡ w)
  unfolding check_limit
  check_limit-ok c n w u h = ground arith

  pub verify-ok :
      (pin raw : String) (w : World D) (id : Uuid)
      → (verify D pin raw w).1 ≡ ok id
      → (rec : TokenRecord) × (D.decode raw ≡ some rec)
        × (hash_pin D pin ≡ rec.pin_hash)
        × (uuids.parse rec.session_id ≡ some id)
  unfolding verify
  verify-ok pin raw w id h = elim (Option-cases (D.decode raw)) [
    | inl e ↦ ground arith
    | inr (rec, e) ↦
        (rec, e, ground (arith, string_eq.beq_iff (hash_pin D pin) rec.pin_hash), ground arith)
  ]

  -- `verify` reads nothing of the world and changes nothing.
  pub verify-world : (pin raw : String) (w : World D) → (verify D pin raw w).0 ≡ w
  unfolding verify
  verify-world pin raw w = ground arith

  -- A record that decodes, with the hash of the PIN and a session id that parses, is verified.
  pub verify-intro :
      (pin raw : String) (w : World D) (rec : TokenRecord) (id : Uuid)
      → D.decode raw ≡ some rec
      → hash_pin D pin ≡ rec.pin_hash
      → uuids.parse rec.session_id ≡ some id
      → verify D pin raw w ≡ (w, ok id)
  unfolding verify
  verify-intro pin raw w rec id d h p =
      ground (arith, string_eq.beq_iff (hash_pin D pin) rec.pin_hash)

  pub verify_wrong :
      (pin raw : String) (w : World D) (rec : TokenRecord)
      → D.decode raw ≡ some rec
      → hash_pin D pin ≢ rec.pin_hash
      → verify D pin raw w ≡ (w, err invalid_token)
  unfolding verify
  verify_wrong pin raw w rec d h = ground (arith, string_eq.beq_iff (hash_pin D pin) rec.pin_hash)

  statement-ok :
      (o : List Bool) (f : Table → Table) (e : Error) (w : World D) (u : Unit {0})
      → (statement D o f e w).1 ≡ ok u
      → (statement D o f e w).0.sessions ≡ f w.sessions
  statement-ok [] f e w u h = refl
  statement-ok (false ∷ rest) f e w u h = refl
  statement-ok (true ∷ rest) f e w u h = cc

  -- A statement that succeeds has changed the table.
  pub exec-ok :
      (f : Table → Table) (e : Error) (w : World D) (u : Unit {0})
      → (exec D f e w).1 ≡ ok u
      → (exec D f e w).0.sessions ≡ f w.sessions
  unfolding exec
  exec-ok f e w u h = statement-ok w.outages f e w u h
