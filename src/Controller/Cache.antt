-- ===== src/Controller/Cache.antt =====
-- pkg/controller/cache/cache.go: the pending revisions, one for each key. The lock makes each
-- operation one step. A nil revision is `none`.
pub mod Newest
pub mod Entries
use mathlib.Core.List.{map}
use saiki.Prelude.{◌≡◌, Bool, List, [], ◌∷◌, Option, none, some, if◌then◌else◌, Str, str_eq}
use saiki.Prelude.Int.{ltb_ℤ, beq_ℤ}
use saiki.Prelude.Dict.{Dict, lookup, insert, remove}
use saiki.Store.Revision.{Revision}

abbrev pub KeyFunc : Type 0 → Type 0
KeyFunc U = Revision U → Str

pub record Cache (U : Type 0) : Type 0 where
  pub m : Dict Str (Revision U)
  pub key_func : KeyFunc U

module _ {U : Type 0} where
  abbrev pub new : KeyFunc U → Cache U
  new key_func = record { m = []; key_func = key_func }

  -- `Cache`: a newer resource version replaces an older one, never the other way round.
  unfoldable pub cache : Cache U → Option (Revision U) → Cache U
  cache c none = c
  cache c (some rev) =
      let written = record c { m = insert (c.key_func rev) rev c.m } in
      elim (lookup (c.key_func rev) c.m) [
        | none ↦ written
        | some cached ↦ if ltb_ℤ cached.resource_version rev.resource_version then written else c
      ]

  unfoldable pub safe_copy : Cache U → List (Revision U)
  safe_copy c = map (λ entry. entry.1) c.m

  -- `Delete`: only the very version that is cached is taken out.
  unfoldable pub delete : Cache U → Option (Revision U) → Cache U
  delete c none = c
  delete c (some rev) = elim (lookup (c.key_func rev) c.m) [
    | none ↦ c
    | some cached ↦
        if beq_ℤ cached.resource_version rev.resource_version
        then record c { m = remove (c.key_func rev) c.m }
        else c
  ]

  -- `Cache` on each revision of a list, in its order.
  unfoldable pub cache_all : Cache U → List (Revision U) → Cache U
  cache_all c [] = c
  cache_all c (rev ∷ revs) = cache_all (cache c (some rev)) revs
