-- ===== src/Base/Newest.antt =====
-- Lists in the order of an ORDER BY ... DESC on a number. Postgres promises no order of the rows of the
-- same number.
use Prim.Native.Nat.{ℕ, ◌≤◌}
use mathlib.Core.Logic.{inl, inr}
use mathlib.Core.List.{List, [], ◌∷◌}
use mathlib.Core.List.{Perm}
use mathlib.Core.List.Perm
use native.Mathlib.Omega.{arith}
use ar_app.Base.Lists.{All}
use ar_app.Base.Tests.{ltb, if◌then◌else◌, Bool-cases}

module _ {ℓ} {A : Type ℓ} (at : A → ℕ) where
  unfoldable pub place : A → List A → List A
  place r [] = r ∷ []
  place r (s ∷ rest) =
      let later = place r rest in if ltb (at r) (at s) then s ∷ later else r ∷ s ∷ rest

  unfoldable pub order_rows : List A → List A
  unfolding place
  order_rows [] = []
  order_rows (r ∷ rest) = place r (order_rows rest)

  -- Each element is followed by none that is newer.
  abbrev pub IsNewestFirst : List A → Type 0
  IsNewestFirst [] = Unit
  IsNewestFirst (r ∷ rest) = All (λ s. at s ≤ at r) rest × IsNewestFirst rest

  lower_still :
      (m n : ℕ) (rows : List A) → m ≤ n → All (λ s. at s ≤ m) rows → All (λ s. at s ≤ n) rows
  lower_still m n [] h all = tt
  lower_still m n (s ∷ rest) h (le, all) = (omega (arith, le), lower_still m n rest h all)

  place_lower :
      (n : ℕ) (r : A) (rows : List A)
      → at r ≤ n
      → All (λ s. at s ≤ n) rows
      → All (λ s. at s ≤ n) (place r rows)
  unfolding place
  place_lower n r [] h all = (h, tt)
  place_lower n r (s ∷ rest) h (le, all) = elim (Bool-cases (ltb (at r) (at s))) [
    | inl later ↦ rw (later) (le, place_lower n r rest h all)
    | inr first ↦ rw (first) (h, (le, all))
  ]

  place-IsNewestFirst : (r : A) (rows : List A) → IsNewestFirst rows → IsNewestFirst (place r rows)
  unfolding place
  place-IsNewestFirst r [] v = (tt, tt)
  place-IsNewestFirst r (s ∷ rest) (all, v) = elim (Bool-cases (ltb (at r) (at s))) [
    | inl later ↦
        rw (later)
          (place_lower (at s) r rest (ground (arith, later)) all, place-IsNewestFirst r rest v)
    | inr first ↦ rw (first) (
      (ground (arith, first), lower_still (at s) (at r) rest (ground (arith, first)) all),
      (all, v),
    )
  ]

  place-Perm : (r : A) (rows : List A) → Perm (place r rows) (r ∷ rows)
  unfolding place
  place-Perm r [] = Perm.refl (r ∷ [])
  place-Perm r (s ∷ rest) = elim (Bool-cases (ltb (at r) (at s))) [
    | inl later ↦ rw (later) (Perm.trans (Perm.cons s (place-Perm r rest)) (Perm.swap r s rest))
    | inr first ↦ rw (first) (Perm.refl (r ∷ s ∷ rest))
  ]

  pub order_rows-IsNewestFirst : (rows : List A) → IsNewestFirst (order_rows rows)
  unfolding order_rows
  order_rows-IsNewestFirst [] = tt
  order_rows-IsNewestFirst (r ∷ rest) =
      place-IsNewestFirst r (order_rows rest) (order_rows-IsNewestFirst rest)

  pub order_rows-Perm : (rows : List A) → Perm (order_rows rows) rows
  unfolding order_rows
  order_rows-Perm [] = Perm.refl []
  order_rows-Perm (r ∷ rest) =
      Perm.trans (place-Perm r (order_rows rest)) (Perm.cons r (order_rows-Perm rest))
