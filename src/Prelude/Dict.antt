-- ===== src/Prelude/Dict.antt =====
-- Go maps as association lists, in the order in which a `range` visits them. A write to a key that
-- is there replaces its value in place. The laws are in `if` form.
pub mod Ranged
use mathlib.Core.Path.{◌≡◌, refl}
use mathlib.Core.Option.{Option, none, some}
use mathlib.Core.List.{List, [], ◌∷◌}
use native.Mathlib.Omega.{arith}
use saiki.Prelude.Tests.{if◌then◌else◌}
use saiki.Prelude.Classes.{Eq, ◌==◌}

abbrev pub Dict {ℓ κ} : Type ℓ → Type κ → Type (ℓ ⊔ κ)
Dict K V = List (K × V)

module _ {ℓ κ} {K : Type ℓ} {V : Type κ} ⦃e : Eq K⦄ where
  unfoldable pub lookup : K → Dict K V → Option V
  lookup k [] = none
  lookup k ((i, w) ∷ d) = if i == k then some w else lookup k d

  unfoldable pub insert : K → V → Dict K V → Dict K V
  insert k v [] = (k, v) ∷ []
  insert k v ((i, w) ∷ d) = if i == k then (k, v) ∷ d else (i, w) ∷ insert k v d

  unfoldable pub remove : K → Dict K V → Dict K V
  remove k [] = []
  remove k ((j, w) ∷ m) = let rest = remove k m in if j == k then rest else (j, w) ∷ rest

  pub lookup-insert :
      (written read : K) (v : V) (d : Dict K V)
      → lookup read (insert written v d) ≡ (if written == read then some v else lookup read d)
  unfolding lookup insert
  lookup-insert written read v [] = refl
  lookup-insert written read v ((i, w) ∷ d) =
      let eq = e.beq_iff in
      ground (arith, eq written read, eq i written, eq i read, lookup-insert written read v d)

  pub lookup-remove :
      (k j : K) (m : Dict K V) → lookup j (remove k m) ≡ (if k == j then none else lookup j m)
  unfolding lookup remove
  lookup-remove k j [] = ground arith
  lookup-remove k j ((i, w) ∷ m) =
      ground (arith, e.beq_iff k j, e.beq_iff i k, e.beq_iff i j, lookup-remove k j m)
