-- ===== src/Prelude/Dict/Ranged.antt =====
-- The order in which a `range` visits the entries of a Go map.
use mathlib.Core.Path.{◌≡◌}
use mathlib.Core.List.{[], ◌∷◌}
use saiki.Prelude.{◌≢◌, Str, All, str_eq}
use saiki.Prelude.Dict.{Dict, lookup}

module _ {V : Type 0} where
  abbrev pub DistinctNames : Dict Str V → Type 0
  DistinctNames [] = Unit
  DistinctNames ((k, v) ∷ d) = All (λ entry. entry.0 ≢ k) d × DistinctNames d

  -- Each key is visited once, with its value: the order is any.
  pub record IsRange (visited d : Dict Str V) : Type 0 where
    pub names : DistinctNames visited
    pub values : (k : Str) → lookup k visited ≡ lookup k d
