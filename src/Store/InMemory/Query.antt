-- ===== src/Store/InMemory/Query.antt =====
-- `State` of pkg/store/inmemory_getter.go. Its loop cuts revisions out of the very array that it runs
-- over: the array and the length of the live list are kept apart. A panic is `none`.
pub mod Panics
use saiki.Prelude.{
  ℕ, zero, suc, ◌-◌, Bool, true, false, not, ◌&&◌, ◌||◌, List, [], ◌∷◌, ◌++◌, Option, none, some,
  length, take, drop, get_elem?, if◌then◌else◌, ltb, Str, ◌==◌, str_eq,
}
use mathlib.Core.List.{map}
use saiki.Prelude.Dict.{Dict}
use saiki.Golang.Time.{is_zero, after}
use saiki.Store.Revision.{Revision}
use saiki.Store.RevisionList.{sort}
use saiki.Store.Storage.State.{StateOptions, StateMap}
use saiki.Store.InMemory.{MemCache, cache_state}

-- an array of the interface type `Revision`, nil where one was cleared
abbrev pub Array : Type 0 → Type 0
Array U = List (Option (Revision U))

abbrev is_set : Str → Bool
is_set s = not (s == [])

-- how the loop over a resource ends
pub data Ended (U : Type 0) : Type 0 where
  panics dropped : Ended U
  live : Array U → ℕ → Ended U

module _ {U : Type 0} where
  -- the tests that drop the whole resource
  unfoldable pub drops : StateOptions U → Revision U → Bool
  drops o rev =
      (is_set o.api_version && not (o.api_version == rev.api_version))
      || (is_set o.kind && not (o.kind == rev.kind))
      || (is_set o.namespace && not (o.namespace == rev.namespace) && not o.all_namespaces)
      || (is_set o.name && not (o.name == rev.name))

  -- the tests that cut the revision
  unfoldable pub cuts : StateOptions U → Revision U → Bool
  cuts o rev =
      (o.only_deleted && not rev.deleted)
      || (not (is_zero o.time) && after o.time rev.revision_timestamp)

  -- A nil revision is asked for a field.
  unfoldable pub asks : StateOptions U → Bool
  asks o =
      is_set o.api_version
      || is_set o.kind
      || is_set o.namespace
      || is_set o.name
      || o.only_deleted
      || not (is_zero o.time)

  -- `Cut(i, i+1)` on the live list of length `n`: what follows is moved down, and the last place of
  -- the list is cleared in the array.
  unfoldable pub cut_one : ℕ → ℕ → Array U → Array U
  cut_one i n arr = take i arr ++ (drop (suc i) (take n arr) ++ (none ∷ drop n arr))

  -- The loop, with `k` rounds left, at place `i`; the live list has length `n`.
  scan_from : StateOptions U → ℕ → ℕ → ℕ → Array U → Ended U
  scan_from o zero i n arr = live arr n
  scan_from o (suc k) i n arr =
      let on = scan_from o k (suc i) n arr in
      let shorter = scan_from o k (suc i) (n - 1) (cut_one i n arr) in
      elim (get_elem? arr i) [
        | none ↦ panics
        | some e ↦ elim e [
          | none ↦ (if asks o then panics else on)
          | some rev ↦
              if drops o rev
              then dropped
              else if cuts o rev
              then (if ltb i n then shorter else panics)
              else on
        ]
      ]

  -- the revisions of an array, up to a nil one
  present : Array U → List (Revision U)
  present [] = []
  present (none ∷ arr) = []
  present (some r ∷ arr) = r ∷ present arr

  last_only : List (Revision U) → Option (List (Revision U))
  last_only [] = none
  last_only (r ∷ []) = some (r ∷ [])
  last_only (r ∷ q ∷ revs) = last_only (q ∷ revs)

  -- The list of a resource behind the loop; none at all if it was dropped. The last of no revisions is
  -- out of range.
  close : StateOptions U → Ended U → Option (Option (List (Revision U)))
  unfolding present last_only
  close o panics = none
  close o dropped = if o.all_revisions then some none else none
  close o (live arr n) =
      let revs = present (take n arr) in
      if o.all_revisions
      then some (some (sort revs))
      else elim (last_only revs) [ none ↦ none | some l ↦ some (some l) ]

  unfoldable pub query_resource :
      StateOptions U → List (Revision U) → Option (Option (List (Revision U)))
  unfolding scan_from close
  query_resource o revs =
      close o (scan_from o (length revs) 0 (length revs) (map (λ r. some r) revs))

  add_entry : Str → Option (Option (List (Revision U))) → Option (StateMap U) → Option (StateMap U)
  add_entry rk none rest = none
  add_entry rk (some q) none = none
  add_entry rk (some none) (some rest) = some rest
  add_entry rk (some (some revs)) (some rest) = some ((rk, revs) ∷ rest)

  pub query_all : StateOptions U → Dict Str (List (Revision U)) → Option (StateMap U)
  unfolding add_entry
  query_all o [] = some []
  query_all o ((rk, revs) ∷ state) = add_entry rk (query_resource o revs) (query_all o state)

  -- `State`
  unfoldable pub mem_state : StateOptions U → MemCache U → Option (StateMap U)
  unfolding query_all
  mem_state o c = query_all o (cache_state c)
