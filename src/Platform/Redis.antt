-- ===== src/Platform/Redis.antt =====
-- The Redis commands of the session tokens and of the rate limiter. A store is seen through the
-- texts and the counters that a client would read at each key, and a command may fail.
use ar_app.Base.{
  ℕ, ◌+◌, ◌<◌, ◌≡◌, ◌≢◌, Bool, true, false, ◌||◌, Option, none, some, String, ◌==◌, string_eq,
  if◌then◌else◌,
}

pub data Reply {ℓ} (A : Type ℓ) : Type ℓ where
  failed : Reply A
  reply : A → Reply A

pub record Redis : Type 1 where
  pub Store : Type 0
  pub text : Store → String → Option String
  pub counter : Store → String → ℕ
  -- Whether a key is missing or holds a count: INCR is an error at any other.
  pub countable : Store → String → Bool
  -- The time to live that a key was given last, if it has one.
  pub lifetime : Store → String → Option ℕ
  pub get : Store → String → Reply (Option String)
  -- SET key value NX with a time to live: whether the key was set.
  pub set_nx : Store → String → String → ℕ → Store × Reply Bool
  pub incr : Store → String → Store × Reply ℕ
  pub expire : Store → String → ℕ → Store × Reply Bool
  -- DEL of two keys: the number of keys removed.
  pub del : Store → String → String → Store × Reply ℕ
  pub get_reply : (s : Store) (k : String) (v : Option String) → get s k ≡ reply v → v ≡ text s k
  pub set_nx_set :
      (s : Store) (k v : String) (ttl : ℕ) → (set_nx s k v ttl).1 ≡ reply true → text s k ≡ none
  pub text-set_nx :
      (s : Store) (k v : String) (ttl : ℕ) (j : String)
      → (set_nx s k v ttl).1 ≡ reply true
      → text (set_nx s k v ttl).0 j ≡ (if k == j then some v else text s j)
  pub text-set_nx_refused :
      (s : Store) (k v : String) (ttl : ℕ) (j : String)
      → (set_nx s k v ttl).1 ≡ reply false
      → text (set_nx s k v ttl).0 j ≡ text s j
  pub countable-set_nx :
      (s : Store) (k v : String) (ttl : ℕ) (j : String)
      → (k == j) ≡ false
      → countable (set_nx s k v ttl).0 j ≡ countable s j
  pub incr_reply : (s : Store) (k : String) (n : ℕ) → (incr s k).1 ≡ reply n → n ≡ counter s k + 1
  pub counter-incr :
      (s : Store) (k : String) (n : ℕ) (j : String)
      → (incr s k).1 ≡ reply n
      → counter (incr s k).0 j ≡ (if k == j then n else counter s j)
  pub incr_refused : (s : Store) (k : String) → countable s k ≡ false → (incr s k).1 ≡ failed
  -- INCR leaves the other keys as they are, keeps a count a count, and keeps the time to live.
  pub text-incr : (s : Store) (k j : String) → (k == j) ≡ false → text (incr s k).0 j ≡ text s j
  pub countable-incr : (s : Store) (k j : String) → countable (incr s k).0 j ≡ countable s j
  pub lifetime-incr : (s : Store) (k j : String) → lifetime (incr s k).0 j ≡ lifetime s j
  -- EXPIRE touches one key, which it deletes if the time is 0.
  pub text-expire :
      (s : Store) (k : String) (ttl : ℕ) (j : String)
      → (k == j) ≡ false
      → text (expire s k ttl).0 j ≡ text s j
  pub counter-expire :
      (s : Store) (k : String) (ttl : ℕ) (j : String)
      → 0 < ttl
      → counter (expire s k ttl).0 j ≡ counter s j
  pub countable-expire :
      (s : Store) (k : String) (ttl : ℕ) (j : String)
      → countable s j ≡ true
      → countable (expire s k ttl).0 j ≡ true
  pub lifetime-expire :
      (s : Store) (k : String) (ttl : ℕ) (j : String)
      → (expire s k ttl).1 ≡ reply true
      → 0 < ttl
      → lifetime (expire s k ttl).0 j ≡ (if k == j then some ttl else lifetime s j)
  pub text-del :
      (s : Store) (k l : String) (n : ℕ) (j : String)
      → (del s k l).1 ≡ reply n
      → text (del s k l).0 j ≡ (if k == j || l == j then none else text s j)
  pub counter-del :
      (s : Store) (k l : String) (n : ℕ) (j : String)
      → (del s k l).1 ≡ reply n
      → counter (del s k l).0 j ≡ (if k == j || l == j then 0 else counter s j)
  pub countable-del :
      (s : Store) (k l : String) (n : ℕ) (j : String)
      → (del s k l).1 ≡ reply n
      → countable (del s k l).0 j ≡ (if k == j || l == j then true else countable s j)

-- A Redis that is up: every command is answered.
pub record Answers (R : Redis) : Type 0 where
  pub get_answers : (s : R.Store) (k : String) → (v : Option String) × (R.get s k ≡ reply v)
  pub set_nx_answers :
      (s : R.Store) (k v : String) (ttl : ℕ)
      → R.text s k ≡ none
      → (R.set_nx s k v ttl).1 ≡ reply true
  pub set_nx_refuses :
      (s : R.Store) (k v : String) (ttl : ℕ)
      → R.text s k ≢ none
      → (R.set_nx s k v ttl).1 ≡ reply false
  pub incr_answers :
      (s : R.Store) (k : String) → R.countable s k ≡ true → (n : ℕ) × ((R.incr s k).1 ≡ reply n)
  -- EXPIRE of a count that is there.
  pub expire_answers :
      (s : R.Store) (k : String) (ttl : ℕ) → 0 < R.counter s k → (R.expire s k ttl).1 ≡ reply true
  pub del_answers : (s : R.Store) (k l : String) → (n : ℕ) × ((R.del s k l).1 ≡ reply n)
