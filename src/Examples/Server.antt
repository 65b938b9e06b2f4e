-- ===== src/Examples/Server.antt =====
-- A Redis in memory that is always up.
use ar_app.Base.{
  ℕ, zero, suc, ap, ◌∙◌, ◌<◌, Bool-cases, ◌+◌, ◌≡◌, ◌≢◌, refl, Bool, true, false, ◌||◌, Option,
  none, some, [], String, ◌==◌, string_eq, if◌then◌else◌, arith, Option-cases, inl, inr,
}
use ar_app.Base.Map.{Map, lookup, insert, erase, lookup-insert, lookup-erase}
use ar_app.Platform.Redis.{Redis, Reply, reply, failed, Answers}

pub record Memory : Type 0 where
  pub texts : Map String String
  pub counters : Map String ℕ
  pub lifetimes : Map String ℕ

abbrev or_zero : Option ℕ → ℕ
or_zero none = 0
or_zero (some n) = n

abbrev count : Memory → String → ℕ
count m k = or_zero (lookup k m.counters)

abbrev set_if : Option String → Memory → String → String → Memory × Reply Bool
set_if none m k v = (record m { texts = insert k v m.texts }, reply true)
set_if (some old) m k v = (m, reply false)

abbrev set_new : Memory → String → String → ℕ → Memory × Reply Bool
set_new m k v ttl = set_if (lookup k m.texts) m k v

abbrev is_none : Option String → Bool
is_none none = true
is_none (some v) = false

abbrev increment_if : Bool → Memory → String → Memory × Reply ℕ
increment_if false m k = (m, failed)
increment_if true m k =
    (record m { counters = insert k (count m k + 1) m.counters }, reply (count m k + 1))

abbrev holds_count : Memory → String → Bool
holds_count m k = is_none (lookup k m.texts)

abbrev increment : Memory → String → Memory × Reply ℕ
increment m k = increment_if (holds_count m k) m k

-- A time of 0 deletes what a client would read as a count.
abbrev expire_in : ℕ → Memory → String → Memory × Reply Bool
expire_in zero m k = (record m { counters = erase k m.counters }, reply true)
expire_in (suc ttl) m k = (record m { lifetimes = insert k (suc ttl) m.lifetimes }, reply true)

abbrev remove : Memory → String → String → Memory × Reply ℕ
remove m k l = (
  record m { texts = erase k (erase l m.texts); counters = erase k (erase l m.counters) },
  reply 2,
)

text-insert :
    (k j v : String) (m : Map String String)
    → lookup j (insert k v m) ≡ (if k == j then some v else lookup j m)
text-insert = lookup-insert

count-insert :
    (k j : String) (v : ℕ) (m : Map String ℕ)
    → lookup j (insert k v m) ≡ (if k == j then some v else lookup j m)
count-insert = lookup-insert

text-erase :
    (k j : String) (m : Map String String)
    → lookup j (erase k m) ≡ (if k == j then none else lookup j m)
text-erase = lookup-erase

count-erase :
    (k j : String) (m : Map String ℕ) → lookup j (erase k m) ≡ (if k == j then none else lookup j m)
count-erase = lookup-erase

pub text-set_new :
    (m : Memory) (k v : String) (ttl : ℕ) (j : String)
    → (set_new m k v ttl).1 ≡ reply true
    → lookup j (set_new m k v ttl).0.texts ≡ (if k == j then some v else lookup j m.texts)
text-set_new m k v ttl j h = elim (Option-cases (lookup k m.texts)) [
  | inl e ↦ rw (e, set_if) (text-insert k j v m.texts)
  | inr (old, e) ↦ ground arith
]

pub set_new_free :
    (m : Memory) (k v : String) (ttl : ℕ)
    → (set_new m k v ttl).1 ≡ reply true
    → lookup k m.texts ≡ none
set_new_free m k v ttl h = ground arith

pub text-set_new_refused :
    (m : Memory) (k v : String) (ttl : ℕ) (j : String)
    → (set_new m k v ttl).1 ≡ reply false
    → lookup j (set_new m k v ttl).0.texts ≡ lookup j m.texts
text-set_new_refused m k v ttl j h = ground arith

pub count-increment :
    (m : Memory) (k : String) (n : ℕ) (j : String)
    → (increment m k).1 ≡ reply n
    → count (increment m k).0 j ≡ (if k == j then n else count m j)
count-increment m k n j h = elim (Bool-cases (holds_count m k)) [
  | inl yes_count ↦ ground (arith, h, yes_count, count-insert k j (count m k + 1) m.counters)
  | inr other ↦ absurd (ground (arith, h, other))
]

pub increment_refused :
    (m : Memory) (k : String) → holds_count m k ≡ false → (increment m k).1 ≡ failed
increment_refused m k h = rw (h) refl

pub texts-increment : (m : Memory) (k : String) → (increment m k).0.texts ≡ m.texts
texts-increment m k = elim (Bool-cases (holds_count m k)) [
  | inl yes_count ↦ rw (yes_count) refl
  | inr other ↦ rw (other) refl
]

pub lifetimes-increment : (m : Memory) (k : String) → (increment m k).0.lifetimes ≡ m.lifetimes
lifetimes-increment m k = elim (Bool-cases (holds_count m k)) [
  | inl yes_count ↦ rw (yes_count) refl
  | inr other ↦ rw (other) refl
]

pub texts-expire : (m : Memory) (k : String) (ttl : ℕ) → (expire_in ttl m k).0.texts ≡ m.texts
texts-expire m k zero = refl
texts-expire m k (suc ttl) = refl

pub count-expire :
    (m : Memory) (k : String) (ttl : ℕ) (j : String)
    → 0 < ttl
    → count (expire_in ttl m k).0 j ≡ count m j
count-expire m k zero j h = absurd (omega (arith, h))
count-expire m k (suc ttl) j h = refl

pub lifetimes-expire :
    (m : Memory) (k : String) (ttl : ℕ) (j : String)
    → 0 < ttl
    → lookup j (expire_in ttl m k).0.lifetimes ≡ (if k == j then some ttl else lookup j m.lifetimes)
lifetimes-expire m k zero j h = absurd (omega (arith, h))
lifetimes-expire m k (suc ttl) j h = count-insert k j (suc ttl) m.lifetimes

pub answers_expire : (m : Memory) (k : String) (ttl : ℕ) → (expire_in ttl m k).1 ≡ reply true
answers_expire m k zero = refl
answers_expire m k (suc ttl) = refl

pub countable-set_new :
    (m : Memory) (k v : String) (ttl : ℕ) (j : String)
    → (k == j) ≡ false
    → holds_count (set_new m k v ttl).0 j ≡ holds_count m j
countable-set_new m k v ttl j d = elim (Option-cases (lookup k m.texts)) [
  | inl e ↦ rw (e, set_if, text-insert k j v m.texts, d) refl
  | inr (old, e) ↦ rw (e, set_if) refl
]

pub answers_increment :
    (m : Memory) (k : String) → holds_count m k ≡ true → (n : ℕ) × ((increment m k).1 ≡ reply n)
answers_increment m k h = (count m k + 1, rw (h) refl)

pub text-remove :
    (m : Memory) (k l : String) (n : ℕ) (j : String)
    → (remove m k l).1 ≡ reply n
    → lookup j (remove m k l).0.texts ≡ (if k == j || l == j then none else lookup j m.texts)
text-remove m k l n j h = ground (arith, text-erase k j (erase l m.texts), text-erase l j m.texts)

pub count-remove :
    (m : Memory) (k l : String) (n : ℕ) (j : String)
    → (remove m k l).1 ≡ reply n
    → count (remove m k l).0 j ≡ (if k == j || l == j then 0 else count m j)
count-remove m k l n j h =
    ground (arith, count-erase k j (erase l m.counters), count-erase l j m.counters)

pub got_text :
    (m : Memory) (k : String) (v : Option String)
    → ◌≡◌ {A = Reply (Option String)} (reply (lookup k m.texts)) (reply v)
    → v ≡ lookup k m.texts
got_text m k v h = ground arith

pub next_count : (m : Memory) (k : String) (n : ℕ) → (increment m k).1 ≡ reply n → n ≡ count m k + 1
next_count m k n h = elim (Bool-cases (holds_count m k)) [
  | inl yes_count ↦ ground (arith, h, yes_count)
  | inr other ↦ absurd (ground (arith, h, other))
]

pub countable-remove :
    (m : Memory) (k l : String) (n : ℕ) (j : String)
    → (remove m k l).1 ≡ reply n
    → holds_count (remove m k l).0 j ≡ (if k == j || l == j then true else holds_count m j)
countable-remove m k l n j h = ground (arith, text-remove m k l n j h)

abbrev pub memory : Redis
memory = record {
  Store = Memory;
  text = λ m k. lookup k m.texts;
  counter = count;
  get = λ m k. reply (lookup k m.texts);
  set_nx = set_new;
  incr = increment;
  expire = λ m k ttl. expire_in ttl m k;
  countable = holds_count;
  lifetime = λ m k. lookup k m.lifetimes;
  countable-set_nx = countable-set_new;
  incr_refused = increment_refused;
  countable-incr = λ m k j. ap (λ t. is_none (lookup j t)) (texts-increment m k);
  lifetime-incr = λ m k j. ap (lookup j) (lifetimes-increment m k);
  countable-expire = λ m k ttl j h. ap (λ t. is_none (lookup j t)) (texts-expire m k ttl) ∙ h;
  lifetime-expire = λ m k ttl j a h. lifetimes-expire m k ttl j h;
  countable-del = countable-remove;
  del = remove;
  get_reply = got_text;
  set_nx_set = set_new_free;
  text-set_nx = text-set_new;
  text-set_nx_refused = text-set_new_refused;
  incr_reply = next_count;
  counter-incr = count-increment;
  text-incr = λ m k j d. ap (lookup j) (texts-increment m k);
  text-expire = λ m k ttl j d. ap (lookup j) (texts-expire m k ttl);
  counter-expire = count-expire;
  text-del = text-remove;
  counter-del = count-remove;
}

pub sets_free :
    (m : Memory) (k v : String) (ttl : ℕ)
    → lookup k m.texts ≡ none
    → (set_new m k v ttl).1 ≡ reply true
sets_free m k v ttl h = ground arith

pub refuses_taken :
    (m : Memory) (k v : String) (ttl : ℕ)
    → lookup k m.texts ≢ none
    → (set_new m k v ttl).1 ≡ reply false
refuses_taken m k v ttl h = ground arith

abbrev pub memory_up : Answers memory
memory_up = record {
  get_answers = λ m k. (lookup k m.texts, refl);
  set_nx_answers = sets_free;
  set_nx_refuses = refuses_taken;
  incr_answers = answers_increment;
  expire_answers = λ m k ttl h. answers_expire m k ttl;
  del_answers = λ m k l. (2, refl);
}

abbrev pub no_keys : Memory
no_keys = record { texts = []; counters = []; lifetimes = [] }
