-- ===== src/Examples/Codec.antt =====
-- Texts for token records and UUIDs.
use ar_app.Base.{
  ℕ, zero, suc, ◌+◌, ◌≤◌, ◌≡◌, refl, ap, Option, none, some, [], ◌∷◌, String, ◌==◌, nat_eq,
  string_eq, if◌then◌else◌, arith,
}
use Prim.Native.Char.{Char, code}
use ar_app.Base.Map.{Map, lookup}
use ar_app.Platform.Uuid.{Uuids}
use ar_app.Session.Service.{TokenRecord}

-- A text before another: a comma before each character, and a stop at the end.
unfoldable pub write : String → String → String
write String.[] rest = String.◌∷◌ "." rest
write (String.◌∷◌ c s) rest = String.◌∷◌ "," (String.◌∷◌ c (write s rest))

abbrev after_char : Option (String × String) → Char → Option (String × String)
after_char none c = none
after_char (some (s, rest)) c = some (String.◌∷◌ c s, rest)

unfoldable pub read : String → Option (String × String)
read String.[] = none
read (String.◌∷◌ mark String.[]) = if code mark == b'.' then some ("", "") else none
read (String.◌∷◌ mark (String.◌∷◌ c rest)) =
    let later = read rest in
    if code mark == b'.' then some ("", String.◌∷◌ c rest) else after_char later c

pub read-write : (s rest : String) → read (write s rest) ≡ some (s, rest)
unfolding read write
read-write String.[] String.[] = refl
read-write String.[] (String.◌∷◌ c rest) = refl
read-write (String.◌∷◌ c s) rest = rw (read-write s rest)

unfoldable pub encode : TokenRecord → String
unfolding write
encode r = write r.session_id (write r.org_id (write r.agent_id (write r.pin_hash "")))

abbrev fourth : String → String → String → Option (String × String) → Option TokenRecord
fourth s o a none = none
fourth s o a (some (p, rest)) =
    some (record { session_id = s; org_id = o; agent_id = a; pin_hash = p })

abbrev third : String → String → Option (String × String) → Option TokenRecord
third s o none = none
third s o (some (a, rest)) = fourth s o a (read rest)

abbrev second : String → Option (String × String) → Option TokenRecord
second s none = none
second s (some (o, rest)) = third s o (read rest)

abbrev first : Option (String × String) → Option TokenRecord
first none = none
first (some (s, rest)) = second s (read rest)

unfoldable pub decode : String → Option TokenRecord
unfolding read
decode text = first (read text)

pub decode-encode : (r : TokenRecord) → decode (encode r) ≡ some r
unfolding decode encode
decode-encode r = rw (
  read-write r.session_id _,
  read-write r.org_id _,
  read-write r.agent_id _,
  read-write r.pin_hash "",
)

-- UUIDs in unary.
abbrev strokes : ℕ → String
strokes zero = ""
strokes (suc n) = String.◌∷◌ "1" (strokes n)

abbrev tally : String → ℕ
tally String.[] = 0
tally (String.◌∷◌ c s) = suc (tally s)

pub tally-strokes : (n : ℕ) → tally (strokes n) ≡ n
tally-strokes zero = refl
tally-strokes (suc n) = ap suc (tally-strokes n)

abbrev pub unary : Uuids
unary = record {
  parse = λ s. some (tally s);
  to_text = strokes;
  parse-to_text = λ u. ap some (tally-strokes u);
}

-- An id above all those of a map.
abbrev pub next_id : {V : Type 0} → Map ℕ V → ℕ
next_id [] = 1
next_id ((k, v) ∷ m) = k + next_id m + 1

beyond : {V : Type 0} (m : Map ℕ V) (k : ℕ) → next_id m ≤ k → lookup k m ≡ none
unfolding lookup
beyond [] k h = refl
beyond ((j, v) ∷ m) k h = ground (arith, beyond m k)

pub next_id_fresh : {V : Type 0} (m : Map ℕ V) → lookup (next_id m) m ≡ none
next_id_fresh m = beyond m (next_id m) (omega arith)
