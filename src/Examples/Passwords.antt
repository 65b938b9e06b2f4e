-- ===== src/Examples/Passwords.antt =====
-- A run of the password functions, with keys that have a size and the length of their password.
use ar_app.Base.{
  ℕ, zero, suc, ◌+◌, ◌<◌, ◌^◌, ◌≡◌, refl, ap, ◌∙◌, Bool, true, false, ◌&&◌, Option, none, some, [],
  ◌∷◌, String, ◌==◌, string_eq, nat_eq, arith, if◌then◌else◌, beq_refl, ltb,
}
use Prim.Native.Char.{Char, code}
use Prim.Native.String
use Prim.Native.String.{len}
use text.Mathlib.TextLemmas.{nil-append, cons-append}
use ar_app.Base.Int.{ℤ, pos}
use ar_app.Base.Texts.{lacks, concat, lacks-append}
use ar_app.Crypto.Password.{
  Codecs, hash_password, verify_password, verified, refused, mismatch, print_hash,
}
use ar_app.Crypto.Password.RoundTrip.{password_key, verify_password-hash_password}

-- Numbers in unary.
unfoldable strokes : ℕ → String
strokes zero = ""
strokes (suc n) = String.◌∷◌ "1" (strokes n)

strokes-lacks : (n : ℕ) → lacks "$" (strokes n) ≡ true
unfolding strokes
strokes-lacks zero = refl
strokes-lacks (suc n) = strokes-lacks n

-- The strokes before the first comma, and the text after it.
abbrev one_stroke : Char → ℕ
one_stroke c = if code c == b'1' then 1 else 0

unfoldable first_field : String → ℕ
first_field String.[] = 0
first_field (String.◌∷◌ c s) =
    let rest = first_field s in if code c == b',' then 0 else one_stroke c + rest

unfoldable next_fields : String → String
next_fields String.[] = ""
next_fields (String.◌∷◌ c s) = let rest = next_fields s in if code c == b',' then s else rest

first-strokes : (n : ℕ) (t : String) → first_field (String.◌++◌ (strokes n) t) ≡ n + first_field t
unfolding strokes first_field
first-strokes zero t = rw (nil-append t) (omega arith)
first-strokes (suc n) t = rw (cons-append "1" (strokes n) t) (omega (arith, first-strokes n t))

next-strokes : (n : ℕ) (t : String) → next_fields (String.◌++◌ (strokes n) t) ≡ next_fields t
unfolding strokes next_fields
next-strokes zero t = rw (nil-append t) refl
next-strokes (suc n) t = rw (cons-append "1" (strokes n) t) (next-strokes n t)

-- Labels of two and three characters.
two :
    (a b : Char) (s : String)
    → String.◌++◌ (String.◌∷◌ a (String.◌∷◌ b "")) s ≡ String.◌∷◌ a (String.◌∷◌ b s)
two a b s =
    cons-append a (String.◌∷◌ b "") s
    ∙ ap (String.◌∷◌ a) (cons-append b "" s ∙ ap (String.◌∷◌ b) (nil-append s))

three :
    (a b c : Char) (s : String)
    → String.◌++◌ (String.◌∷◌ a (String.◌∷◌ b (String.◌∷◌ c ""))) s
      ≡ String.◌∷◌ a (String.◌∷◌ b (String.◌∷◌ c s))
three a b c s = cons-append a (String.◌∷◌ b (String.◌∷◌ c "")) s ∙ ap (String.◌∷◌ a) (two b c s)

abbrev scan_version : String → Option ℤ
scan_version s = some (pos (first_field s))

scan_version-print :
    (n : ℕ) → n < 2 ^ 63 → scan_version (concat ("v=" ∷ strokes n ∷ [])) ≡ some (pos n)
unfolding first_field
scan_version-print n h =
    rw (two "v" "=" (String.◌++◌ (strokes n) ""))
      (ap (λ k. some (pos k)) (omega (arith, first-strokes n "")))

abbrev scan_params : String → Option (ℕ × ℕ × ℕ)
scan_params s =
    some (first_field s, first_field (next_fields s), first_field (next_fields (next_fields s)))

abbrev last_text : ℕ → String
last_text p = String.◌++◌ (strokes p) ""

abbrev tail_text : ℕ → ℕ → String
tail_text t p = String.◌++◌ (strokes t) (String.◌++◌ ",p=" (last_text p))

abbrev params : ℕ → ℕ → ℕ → String
params m t p = concat ("m=" ∷ strokes m ∷ ",t=" ∷ strokes t ∷ ",p=" ∷ strokes p ∷ [])

params_first : (m t p : ℕ) → first_field (params m t p) ≡ m
unfolding first_field
params_first m t p =
    rw
      (
        two "m" "=" (String.◌++◌ (strokes m) (String.◌++◌ ",t=" (tail_text t p))),
        three "," "t" "=" (tail_text t p),
      )
      (omega
        (arith, first-strokes m (String.◌∷◌ "," (String.◌∷◌ "t" (String.◌∷◌ "=" (tail_text t p))))))

params_next :
    (m t p : ℕ) → next_fields (params m t p) ≡ String.◌∷◌ "t" (String.◌∷◌ "=" (tail_text t p))
unfolding next_fields
params_next m t p =
    rw
      (
        two "m" "=" (String.◌++◌ (strokes m) (String.◌++◌ ",t=" (tail_text t p))),
        three "," "t" "=" (tail_text t p),
      )
      (next-strokes m (String.◌∷◌ "," (String.◌∷◌ "t" (String.◌∷◌ "=" (tail_text t p)))))

second_first : (t p : ℕ) → first_field (String.◌∷◌ "t" (String.◌∷◌ "=" (tail_text t p))) ≡ t
unfolding first_field
second_first t p = rw (three "," "p" "=" (last_text p)) (
    omega (arith, first-strokes t (String.◌∷◌ "," (String.◌∷◌ "p" (String.◌∷◌ "=" (last_text p))))))

second_next :
    (t p : ℕ)
    → next_fields (String.◌∷◌ "t" (String.◌∷◌ "=" (tail_text t p)))
      ≡ String.◌∷◌ "p" (String.◌∷◌ "=" (last_text p))
unfolding next_fields
second_next t p =
    rw (three "," "p" "=" (last_text p))
      (next-strokes t (String.◌∷◌ "," (String.◌∷◌ "p" (String.◌∷◌ "=" (last_text p)))))

third_first : (p : ℕ) → first_field (String.◌∷◌ "p" (String.◌∷◌ "=" (last_text p))) ≡ p
unfolding first_field
third_first p = omega (arith, first-strokes p "")

scan_params-print :
    (m t p : ℕ) → m < 2 ^ 32 → t < 2 ^ 32 → p < 2 ^ 8 → scan_params (params m t p) ≡ some (m, t, p)
scan_params-print m t p a b c =
    cc (params_first m t p, params_next m t p, second_first t p, second_next t p, third_first p)

-- Bytes are their number and a mark.
abbrev Bytes : Type 0
Bytes = ℕ × ℕ

abbrev key_for : Bool → ℕ → String → Option Bytes
key_for true length password = some (length, len password)
key_for false length password = none

abbrev id_key : String → Bytes → ℕ → ℕ → ℕ → ℕ → Option Bytes
id_key password salt time memory threads length =
    key_for (ltb 0 time && ltb 0 threads) length password

id_key_runs :
    (password : String) (salt : Bytes) (time memory threads length : ℕ)
    → 0 < time
    → 0 < threads
    → (key : Bytes) × (id_key password salt time memory threads length ≡ some key)
      × (key.0 ≡ length)
id_key_runs password salt time memory threads length h k =
    ((length, len password), ground arith, refl)

abbrev same : Bytes → Bytes → Bool
same a b = a.0 == b.0 && a.1 == b.1

same_refl : (b : Bytes) → same b b ≡ true
same_refl b = ground (arith, beq_refl (b.0), beq_refl (b.1))

unfoldable encode : Bytes → String
encode b = String.◌++◌ (strokes (b.0)) (String.◌∷◌ "," (strokes (b.1)))

unfoldable decode : String → Option Bytes
decode s = some (first_field s, first_field (next_fields s))

only-strokes : (n : ℕ) → first_field (strokes n) ≡ n
unfolding strokes first_field
only-strokes zero = refl
only-strokes (suc n) = omega (arith, only-strokes n)

decode-encode : (b : Bytes) → decode (encode b) ≡ some b
unfolding decode encode first_field next_fields
decode-encode (a, b) =
    let rest = String.◌∷◌ "," (strokes b) in
    let e : first_field (String.◌++◌ (strokes a) rest) ≡ a = omega (arith, first-strokes a rest) in
    cc (e, next-strokes a rest, only-strokes b)

encode-lacks : (b : Bytes) → lacks "$" (encode b) ≡ true
unfolding encode
encode-lacks b =
    lacks-append "$" (strokes (b.0)) (String.◌∷◌ "," (strokes (b.1))) (strokes-lacks (b.0))
      (strokes-lacks (b.1))

abbrev codecs : Codecs
codecs = record {
  Bytes = Bytes;
  size = λ b. b.0;
  id_key = id_key;
  id_key_runs = id_key_runs;
  equal = same;
  equal_refl = same_refl;
  encode = encode;
  decode = decode;
  decode-encode = decode-encode;
  encode-lacks = encode-lacks;
  decimal = strokes;
  decimal-lacks = strokes-lacks;
  scan_version = scan_version;
  scan_version-print = scan_version-print;
  scan_params = scan_params;
  scan_params-print = scan_params-print;
}

hashes : hash_password codecs (some (16, 7)) "password" ≡ some (print_hash codecs (16, 7) (32, 8))
unfolding hash_password
hashes = refl

verify_password-hash_password_example :
    (verify_password codecs "password" (print_hash codecs (16, 7) (32, 8)) ≡ verified)
    × ((key : Bytes) × (key' : Bytes) × (password_key codecs "password" (16, 7) ≡ some key)
        × (password_key codecs "pass" (16, 7) ≡ some key')
        × (verify_password codecs "pass" (print_hash codecs (16, 7) (32, 8))
            ≡ (if same key' key then verified else refused mismatch)))
verify_password-hash_password_example =
    verify_password-hash_password codecs "password" "pass" (print_hash codecs (16, 7) (32, 8))
      (16, 7) hashes
