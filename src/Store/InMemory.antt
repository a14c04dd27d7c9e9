-- ===== src/Store/InMemory.antt =====
-- pkg/store/inmemory_getter.go: the revisions of each resource in memory, by resource version. The
-- lock makes each operation one step. A `range` over a Go map visits its entries in any order: here
-- in the order of the association list, which is any.
pub mod Lookup
pub mod Query
use mathlib.Core.List.{map}
use saiki.Prelude.{Bool, true, false, List, [], ◌∷◌, Option, none, some, Str, str_eq}
use saiki.Prelude.Int.{ℤ, pos, int_eq}
use saiki.Prelude.Dict.{Dict, lookup, insert, remove}
use saiki.Errors.{Error, not_found, Result, ok, err}
use saiki.Store.Revision.{RevisionFields, Revision, resource_key, resource_key_of}

-- the struct `cache`
pub record MemCache (U : Type 0) : Type 0 where
  pub m : Dict Str (Dict ℤ (Revision U))
  pub latest_cache : Dict Str ℤ

abbrev pub or_empty {ℓ κ} : {K : Type ℓ} {V : Type κ} → Option (Dict K V) → Dict K V
or_empty none = []
or_empty (some d) = d

-- A missing key of a Go map reads as zero.
abbrev pub or_zero : Option ℤ → ℤ
or_zero none = pos 0
or_zero (some n) = n

module _ {U : Type 0} where
  abbrev pub empty : MemCache U
  empty = record { m = []; latest_cache = [] }

  -- `Set`
  unfoldable pub set_revision : Revision U → MemCache U → MemCache U
  set_revision rev c =
      let rk = resource_key rev.fields in
      record {
        m = insert rk (insert rev.resource_version rev (or_empty (lookup rk c.m))) c.m;
        latest_cache = insert rk rev.resource_version c.latest_cache;
      }

  -- `Get`: the version that was set last; none if it was deleted since
  unfoldable pub cached : RevisionFields → MemCache U → Option (Revision U)
  cached rev c = elim (lookup (resource_key rev) c.m) [
    | none ↦ none
    | some revs ↦ lookup (or_zero (lookup (resource_key rev) c.latest_cache)) revs
  ]

  -- `Delete`
  unfoldable pub delete_cached : Revision U → MemCache U → MemCache U
  delete_cached rev c = elim (lookup (resource_key rev.fields) c.m) [
    | none ↦ c
    | some revs ↦ record c {
      m = insert (resource_key rev.fields) (remove rev.resource_version revs) c.m;
    }
  ]

  abbrev pub values : Dict ℤ (Revision U) → List (Revision U)
  values revs = map (λ entry. entry.1) revs

  -- `List`: nil for a resource that is not there, and for one with no revisions left
  unfoldable pub list_cached : Str → MemCache U → List (Revision U)
  list_cached prefix c = elim (lookup prefix c.m) [ none ↦ [] | some revs ↦ values revs ]

  -- `State` of the cache: a resource with no revisions gets no entry
  all_revisions : Dict Str (Dict ℤ (Revision U)) → Dict Str (List (Revision U))
  all_revisions [] = []
  all_revisions ((rk, []) ∷ m) = all_revisions m
  all_revisions ((rk, (v, r) ∷ revs) ∷ m) = (rk, r ∷ values revs) ∷ all_revisions m

  unfoldable pub cache_state : MemCache U → Dict Str (List (Revision U))
  unfolding all_revisions
  cache_state c = all_revisions c.m

  -- The methods of the getter.
  unfoldable pub mem_update : Revision U → MemCache U → Result (Revision U) × MemCache U
  mem_update rev c = (ok rev, set_revision rev c)

  unfoldable pub mem_delete : Revision U → MemCache U → Option Error × MemCache U
  mem_delete rev c = (none, set_revision rev c)

  unfoldable pub mem_get : RevisionFields → MemCache U → Result (Revision U)
  mem_get rev c = elim (cached rev c) [ none ↦ err not_found | some r ↦ ok r ]

  found_or_not : List (Revision U) → Result (List (Revision U))
  found_or_not [] = err not_found
  found_or_not (r ∷ revs) = ok (r ∷ revs)

  -- `List` of a namespace; a nil list is an error
  unfoldable pub mem_list : Str → Str → Str → Str → MemCache U → Result (List (Revision U))
  unfolding found_or_not
  mem_list api_version kind namespace name c =
      found_or_not (list_cached (resource_key_of api_version kind namespace name) c)

  unfoldable pub mem_purge_revision : Revision U → MemCache U → Option Error × MemCache U
  mem_purge_revision rev c = (none, delete_cached rev c)

  delete_each : List (Revision U) → MemCache U → MemCache U
  delete_each [] c = c
  delete_each (rev ∷ revs) c = delete_each revs (delete_cached rev c)

  unfoldable pub mem_purge_revisions :
      List (Revision U) → MemCache U → List (Revision U) × Option Error × MemCache U
  unfolding delete_each
  mem_purge_revisions revs c = (revs, none, delete_each revs c)
