-- ===== src/Base/Map.antt =====
-- A Go map as an association list. `insert` replaces the entry of its key in place, `erase` is
-- Go's `delete`.
use mathlib.Core.Path.{◌≡◌, refl}
use mathlib.Core.Option.{Option, none, some}
use mathlib.Core.List.{List, [], ◌∷◌}
use native.Mathlib.Omega.{arith}
use Prim.Native.Nat.{ℕ, ◌+◌, ◌≤◌}
use ar_app.Base.Tests.{Eq, ◌==◌, if◌then◌else◌}

abbrev pub Map {ℓ κ} : Type ℓ → Type κ → Type (ℓ ⊔ κ)
Map K V = List (K × V)

module _ {ℓ κ} {K : Type ℓ} {V : Type κ} ⦃e : Eq K⦄ where
  unfoldable pub lookup : K → Map K V → Option V
  lookup key [] = none
  lookup key ((j, new) ∷ rest) = if j == key then some new else lookup key rest

  unfoldable pub insert : K → V → Map K V → Map K V
  insert key new [] = (key, new) ∷ []
  insert key new ((j, old) ∷ rest) =
      if j == key then (key, new) ∷ rest else (j, old) ∷ insert key new rest

  unfoldable pub erase : K → Map K V → Map K V
  erase key [] = []
  erase key ((j, old) ∷ rest) = if j == key then erase key rest else (j, old) ∷ erase key rest

  pub lookup-insert :
      (key j : K) (new : V) (rest : Map K V)
      → lookup j (insert key new rest) ≡ (if key == j then some new else lookup j rest)
  unfolding lookup insert
  lookup-insert key j new [] = refl
  lookup-insert key j new ((i, old) ∷ rest) =
      ground (arith, e.beq_iff key j, e.beq_iff i key, e.beq_iff i j, lookup-insert key j new rest)

  pub lookup-erase :
      (key j : K) (rest : Map K V)
      → lookup j (erase key rest) ≡ (if key == j then none else lookup j rest)
  unfolding lookup erase
  lookup-erase key j [] = ground arith
  lookup-erase key j ((i, old) ∷ rest) =
      ground (arith, e.beq_iff key j, e.beq_iff i key, e.beq_iff i j, lookup-erase key j rest)

-- A sum over the entries of a map.
module _ {ℓ κ} {K : Type ℓ} {V : Type κ} where
  unfoldable pub total : (V → ℕ) → Map K V → ℕ
  total f [] = 0
  total f ((key, new) ∷ rest) = f new + total f rest

module _ {ℓ κ} {K : Type ℓ} {V : Type κ} ⦃e : Eq K⦄ (f : V → ℕ) where
  pub total-insert_new :
      (key : K) (new : V) (rest : Map K V)
      → lookup key rest ≡ none
      → total f (insert key new rest) ≡ total f rest + f new
  unfolding total insert lookup
  total-insert_new key new [] h = omega arith
  total-insert_new key new ((j, old) ∷ rest) h = ground (arith, total-insert_new key new rest)

  pub total-insert_old :
      (key : K) (new old : V) (rest : Map K V)
      → lookup key rest ≡ some old
      → total f (insert key new rest) + f old ≡ total f rest + f new
  unfolding total insert lookup
  total-insert_old key new old [] h = cc
  total-insert_old key new old ((j, u) ∷ rest) h = ground (arith, total-insert_old key new old rest)

  pub total-le :
      (key : K) (new : V) (rest : Map K V) → lookup key rest ≡ some new → f new ≤ total f rest
  unfolding total lookup
  total-le key new [] h = cc
  total-le key new ((j, u) ∷ rest) h = ground (arith, total-le key new rest)
