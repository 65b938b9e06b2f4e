-- ===== src/Session/Service/Keys.antt =====
-- The keys of a token and of its attempts are never the same.
use ar_app.Base.{
  ◌≡◌, ◌≢◌, ◌∙◌, sym, ap, false, String, ◌==◌, string_eq, arith, Bool-cases, inl, inr,
}
use Prim.Native.String
use Prim.Native.Char.{Char, code}
use text.Mathlib.TextLemmas.{nil-append, cons-append, append_assoc}
use ar_app.Session.Service.{token_key, attempts_key}

-- Texts that differ after a common prefix are not the same.
apart :
    (p : String) (a b : Char) (s t : String)
    → a ≢ b
    → String.◌++◌ p (String.◌∷◌ a s) ≢ String.◌++◌ p (String.◌∷◌ b t)
apart String.[] a b s t ne h = ne (cc (h, nil-append (String.◌∷◌ a s), nil-append (String.◌∷◌ b t)))
apart (String.◌∷◌ c p) a b s t ne h =
    apart p a b s t ne (cc (h, cons-append c p (String.◌∷◌ a s), cons-append c p (String.◌∷◌ b t)))

letters : ◌≢◌ {A = Char} "a" "t"
letters e = omega (arith, ap code e)

token_split :
    (c : String) → token_key c ≡ String.◌++◌ "session:" (String.◌∷◌ "t" (String.◌++◌ "oken:" c))
token_split c =
    append_assoc "session:" "token:" c ∙ ap (String.◌++◌ "session:") (cons-append "t" "oken:" c)

attempts_split :
    (c : String)
    → attempts_key c ≡ String.◌++◌ "session:" (String.◌∷◌ "a" (String.◌++◌ "ttempts:" c))
attempts_split c =
    append_assoc "session:" "attempts:" c
    ∙ ap (String.◌++◌ "session:") (cons-append "a" "ttempts:" c)

pub keys_differ : (c d : String) → (attempts_key c == token_key d) ≡ false
keys_differ c d = elim (Bool-cases (attempts_key c == token_key d)) [
  | inl same ↦ absurd (
      apart "session:" "a" "t" (String.◌++◌ "ttempts:" c) (String.◌++◌ "oken:" d) letters (
        sym (attempts_split c)
        ∙ (string_eq.beq_iff (attempts_key c) (token_key d)).0 same
        ∙ token_split d))
  | inr differs ↦ differs
]
