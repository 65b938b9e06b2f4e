-- ===== src/Base/Texts.antt =====
-- Go's strings.Split and strings.Join for a separator of one character.
use Prim.Native.Nat.{ℕ, ◌+◌}
use Prim.Native.Char.{Char, code}
use Prim.Native.String
use Prim.Native.String.{String}
use mathlib.Core.Path.{◌≡◌, ◌∙◌, refl, sym, ap}
use mathlib.Core.Logic.{◌≢◌, inl, inr}
use mathlib.Core.Bool.{Bool, true, false}
use mathlib.Core.List.{List, [], ◌∷◌}
use native.Mathlib.Omega.{arith}
use text.Mathlib.TextEquality.{Char-path}
use text.Mathlib.TextLemmas.{nil-append, cons-append}
use ar_app.Base.Lists.{All}
use ar_app.Base.Tests.{ltb, nat_eq, ◌==◌, if◌then◌else◌, Bool-cases, beq_refl}

-- The bytes of a rune in UTF-8, and of a text: Go's `len` of a string.
abbrev pub rune_bytes : ℕ → ℕ
rune_bytes c = if ltb c 128 then 1 else if ltb c 2048 then 2 else if ltb c 65536 then 3 else 4

unfoldable pub byte_length : String → ℕ
byte_length String.[] = 0
byte_length (String.◌∷◌ c s) = rune_bytes (code c) + byte_length s

abbrev pub same_char : Char → Char → Bool
same_char c d = code c == code d

pub same_char-path : (c d : Char) → same_char c d ≡ true → c ≡ d
same_char-path c d h = Char-path c d ((nat_eq.beq_iff (code c) (code d)).0 h)

-- A character in front of the first text.
abbrev pub onto_first : Char → List String → List String
onto_first c [] = String.◌∷◌ c String.[] ∷ []
onto_first c (s ∷ rest) = String.◌∷◌ c s ∷ rest

unfoldable pub split : Char → String → List String
split sep String.[] = String.[] ∷ []
split sep (String.◌∷◌ c s) =
    let rest = split sep s in if same_char c sep then String.[] ∷ rest else onto_first c rest

unfoldable pub join : Char → List String → String
join sep [] = String.[]
join sep (s ∷ []) = s
join sep (s ∷ t ∷ rest) = String.◌++◌ s (String.◌∷◌ sep (join sep (t ∷ rest)))

-- The text has no such character.
abbrev pub lacks : Char → String → Bool
lacks sep String.[] = true
lacks sep (String.◌∷◌ c s) = let rest = lacks sep s in if same_char c sep then false else rest

-- A text as a prefix of another one, by the characters.
cons_path : (c d : Char) (s t : String) → c ≡ d → s ≡ t → String.◌∷◌ c s ≡ String.◌∷◌ d t
cons_path c d s t h k = cc (h, k)

join-onto_first :
    (sep c : Char) (texts : List String)
    → join sep (onto_first c texts) ≡ String.◌∷◌ c (join sep texts)
unfolding join
join-onto_first sep c [] = refl
join-onto_first sep c (s ∷ []) = refl
join-onto_first sep c (s ∷ t ∷ rest) = cons-append c s (String.◌∷◌ sep (join sep (t ∷ rest)))

onto_some : (c : Char) (texts : List String) → onto_first c texts ≢ []
onto_some c [] h = cc h
onto_some c (s ∷ rest) h = cc h

pub split_some : (sep : Char) (s : String) → split sep s ≢ []
unfolding split
split_some sep String.[] = λ h. absurd (cc h)
split_some sep (String.◌∷◌ c s) = elim (Bool-cases (same_char c sep)) [
  | inl e ↦ rw (e) λ h. absurd (cc h)
  | inr e ↦ rw (e) (onto_some c (split sep s))
]

join_gap :
    (sep : Char) (texts : List String)
    → texts ≢ []
    → join sep (String.[] ∷ texts) ≡ String.◌∷◌ sep (join sep texts)
unfolding join
join_gap sep [] ne = absurd (ne refl)
join_gap sep (s ∷ rest) ne = nil-append (String.◌∷◌ sep (join sep (s ∷ rest)))

-- Joining what a text was split into gives the text back.
pub join-split : (sep : Char) (s : String) → join sep (split sep s) ≡ s
unfolding split join
join-split sep String.[] = refl
join-split sep (String.◌∷◌ c s) = elim (Bool-cases (same_char c sep)) [
  | inl e ↦ rw (e) (
      join_gap sep (split sep s) (split_some sep s)
      ∙ cons_path sep c _ s (sym (same_char-path c sep e)) (join-split sep s))
  | inr e ↦ rw (e) (join-onto_first sep c (split sep s) ∙ ap (String.◌∷◌ c) (join-split sep s))
]

split-lacks : (sep : Char) (s : String) → lacks sep s ≡ true → split sep s ≡ s ∷ []
unfolding split
split-lacks sep String.[] h = refl
split-lacks sep (String.◌∷◌ c s) h = ground (arith, h, split-lacks sep s)

split-append :
    (sep : Char) (s rest : String)
    → lacks sep s ≡ true
    → split sep (String.◌++◌ s (String.◌∷◌ sep rest)) ≡ s ∷ split sep rest
unfolding split
split-append sep String.[] rest h = rw (nil-append (String.◌∷◌ sep rest), beq_refl (code sep)) refl
split-append sep (String.◌∷◌ c s) rest h =
    rw (cons-append c s (String.◌∷◌ sep rest)) (ground (arith, h, split-append sep s rest))

-- Splitting what was joined gives the texts back, if there are any and none has the separator.
pub split-join :
    (sep : Char) (s : String) (rest : List String)
    → All (λ x. lacks sep x ≡ true) (s ∷ rest)
    → split sep (join sep (s ∷ rest)) ≡ s ∷ rest
unfolding join
split-join sep s [] (h, all) = split-lacks sep s h
split-join sep s (t ∷ rest) (h, all) =
    split-append sep s (join sep (t ∷ rest)) h ∙ ap (◌∷◌ s) (split-join sep t rest all)

-- The texts one after the other.
abbrev pub concat : List String → String
concat [] = String.[]
concat (s ∷ rest) = String.◌++◌ s (concat rest)

pub lacks-append :
    (sep : Char) (s t : String)
    → lacks sep s ≡ true
    → lacks sep t ≡ true
    → lacks sep (String.◌++◌ s t) ≡ true
lacks-append sep String.[] t h k = rw (nil-append t) k
lacks-append sep (String.◌∷◌ c s) t h k =
    rw (cons-append c s t) (ground (arith, h, lacks-append sep s t))
