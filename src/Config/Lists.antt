-- ===== src/Config/Lists.antt =====
-- What the list of TURN URLs holds.
use ar_app.Base.{
  ◌≡◌, ◌≢◌, refl, sym, ◌∙◌, ap, List, [], ◌∷◌, String, string_eq, inl, inr, Bool-cases,
}
use Prim.Native.String
use Prim.Native.Char.{Char}
use text.Mathlib.TextLemmas.{nil-append, cons-append, append_assoc, append-nil}
use ar_app.Base.Texts.{split, same_char, onto_first, split_some}
use ar_app.Config.{flush, split_from, split_non_empty}

abbrev pub non_empty : List String → List String
non_empty [] = []
non_empty (s ∷ rest) = flush s (non_empty rest)

-- A prefix before the first of some texts.
onto : String → List String → List String
onto cur [] = cur ∷ []
onto cur (s ∷ rest) = String.◌++◌ cur s ∷ rest

onto_nothing : (texts : List String) → texts ≢ [] → onto String.[] texts ≡ texts
unfolding onto
onto_nothing [] ne = absurd (ne refl)
onto_nothing (s ∷ rest) ne = ap (λ x. x ∷ rest) (nil-append s)

one_more :
    (cur s : String) (c : Char)
    → String.◌++◌ cur (String.◌∷◌ c s) ≡ String.◌++◌ (String.◌++◌ cur (String.◌∷◌ c String.[])) s
one_more cur s c = sym (
    append_assoc cur (String.◌∷◌ c String.[]) s
    ∙ ap (String.◌++◌ cur) (cons-append c String.[] s ∙ ap (String.◌∷◌ c) (nil-append s)))

onto-onto_first :
    (cur : String) (c : Char) (texts : List String)
    → onto cur (onto_first c texts) ≡ onto (String.◌++◌ cur (String.◌∷◌ c String.[])) texts
unfolding onto
onto-onto_first cur c [] = refl
onto-onto_first cur c (s ∷ rest) = ap (λ x. x ∷ rest) (one_more cur s c)

ended :
    (cur : String) (texts rest : List String)
    → rest ≡ non_empty texts
    → flush cur rest ≡ non_empty (onto cur (String.[] ∷ texts))
unfolding onto
ended cur texts rest h = rw (append-nil cur, h) refl

split_from_lem : (cur s : String) → split_from cur s ≡ non_empty (onto cur (split "," s))
unfolding split_from split
split_from_lem cur String.[] = ended cur [] [] refl
split_from_lem cur (String.◌∷◌ c s) = elim (Bool-cases (same_char c ",")) [
  | inl e ↦ rw (e) (
      ended cur (split "," s) _
        (split_from_lem String.[] s ∙ ap non_empty (onto_nothing (split "," s) (split_some "," s))))
  | inr e ↦ rw (e) (
      split_from_lem (String.◌++◌ cur (String.◌∷◌ c String.[])) s
      ∙ ap non_empty (sym (onto-onto_first cur c (split "," s))))
]

-- splitNonEmpty gives the parts of strings.Split that are not empty, in their order.
pub split_non_empty_lem : (s : String) → split_non_empty s ≡ non_empty (split "," s)
split_non_empty_lem s =
    split_from_lem String.[] s ∙ ap non_empty (onto_nothing (split "," s) (split_some "," s))
