-- ===== src/Store/Storage/State.antt =====
-- `State` of pkg/store/storage.go: the revisions of a point in time, by resource.
pub mod Alone
pub mod Filters
pub mod Invariant
pub mod Keyed
pub mod Newest
pub mod Skipped
pub mod Visited
pub mod Walked
use saiki.Prelude.{
  Bool, true, not, ◌&&◌, ◌||◌, List, [], ◌∷◌, ◌++◌, Option, none, some, if◌then◌else◌, Str, ◌==◌,
  str_eq, codes,
}
use saiki.Prelude.Dict.{Dict, lookup, insert}
use saiki.Golang.Strings.{trim_prefix}
use saiki.Golang.FilePath.{slash, dir}
use saiki.Golang.Time.{Time, is_zero, after}
use saiki.Errors.{Error, skip_dir, Result, ok, err}
use saiki.Store.Revision.{
  Revision, resource_key, resource_key_of, parse_lazy_loading_revision, key_prefix_for_api_version,
  key_prefix_for_api_version_kind, key_prefix_for_api_version_kind_namespace,
}
use saiki.Store.Backend.{ListObject, WalkFunc, walk}
use saiki.Store.Storage.{Env, RevisionStore, content, loaded_with}

-- A label selector is what `Matches` says of an object, or the error of building it.
pub record StateOptions (U : Type 0) : Type 0 where
  pub api_version : Str
  pub kind : Str
  pub label_selector : Option (Result (U → Bool))
  pub time : Time
  pub namespace : Str
  pub all_namespaces : Bool
  pub name : Str
  pub all_revisions : Bool
  pub only_deleted : Bool

-- `State` of state.go: revisions by resource key
abbrev pub StateMap : Type 0 → Type 0
StateMap U = Dict Str (List (Revision U))

abbrev is_set : Str → Bool
is_set s = not (s == [])

abbrev pub revisions_at : {U : Type 0} → Str → StateMap U → List (Revision U)
revisions_at rk res = elim (lookup rk res) [ none ↦ [] | some revs ↦ revs ]

module _ {U : Type 0} where
  -- where the walk begins
  unfoldable pub walk_root : StateOptions U → Str
  walk_root o =
      let in_namespace = is_set o.namespace && not o.all_namespaces in
      if is_set o.api_version && is_set o.kind && in_namespace && is_set o.name
      then resource_key_of o.api_version o.kind o.namespace o.name
      else if is_set o.api_version && is_set o.kind && in_namespace
      then key_prefix_for_api_version_kind_namespace o.api_version o.kind o.namespace
      else if is_set o.api_version && is_set o.kind
      then key_prefix_for_api_version_kind o.api_version o.kind
      else if is_set o.api_version
      then key_prefix_for_api_version o.api_version
      else []

  -- The revision is of another resource than those asked for: the walk skips its directory.
  unfoldable pub is_foreign : StateOptions U → Revision U → Bool
  is_foreign o rev =
      (not o.all_namespaces && is_set o.namespace && not (rev.namespace == o.namespace))
      || (is_set o.name && not (rev.name == o.name))
      || (is_set o.kind && not (rev.kind == o.kind))
      || (is_set o.api_version && not (rev.api_version == o.api_version))

  -- The revision is not of the time, or not deleted, as asked for.
  unfoldable pub is_left_out : StateOptions U → Revision U → Bool
  is_left_out o rev =
      (o.only_deleted && not rev.deleted)
      || (not (is_zero o.time) && not (after o.time rev.revision_timestamp))

  -- none yet, or an older one
  pub is_newer : List (Revision U) → Revision U → Bool
  is_newer [] rev = true
  is_newer (first ∷ revs) rev = after rev.revision_timestamp first.revision_timestamp

  -- The revision takes the place of the one before, or joins those before.
  unfoldable pub put : StateOptions U → Revision U → StateMap U → StateMap U
  put o rev res =
      let rk = resource_key rev.fields in
      if o.all_revisions
      then insert rk (revisions_at rk res ++ (rev ∷ [])) res
      else insert rk (rev ∷ []) res

module _ {U B : Type 0} (env : Env U B) (o : StateOptions U) where
  -- what the closure of the walk changes: the result, and the store through `Content`
  abbrev pub Found : Type 0
  Found = StateMap U × RevisionStore B

  -- With a selector the object is read, and its labels are asked.
  by_labels : Revision U → Found → Option (U → Bool) → Found × Option Error
  by_labels rev (res, s) none = ((put o rev res, s), none)
  by_labels rev (res, s) (some selector) =
      let (c, s') = content env rev s in
      elim c [
        | err e ↦ ((res, s'), some e)
        | ok u ↦ ((if selector u then put o (loaded_with rev (ok u)) res else res, s'), none)
      ]

  -- the closure, behind the parser
  pub visit_revision : Option (U → Bool) → Revision U → Found → Found × Option Error
  unfolding by_labels is_newer
  visit_revision selector rev (res, s) =
      if is_foreign o rev
      then ((res, s), some skip_dir)
      else if is_left_out o rev
      then ((res, s), none)
      else if o.all_revisions || is_newer (revisions_at (resource_key rev.fields) res) rev
      then by_labels rev (res, s) selector
      else ((res, s), none)

  -- a file at the root belongs to no revision
  abbrev pub is_outside : ListObject → Bool
  is_outside obj = dir obj.key == [] || dir obj.key == codes "."

  pub visit : Option (U → Bool) → WalkFunc Found
  unfolding visit_revision
  visit selector found obj =
      if obj.is_dir || is_outside obj
      then (found, none)
      else elim (parse_lazy_loading_revision {U = U} (trim_prefix slash obj.key)) [
        | err e ↦ (found, some e)
        | ok rev ↦ visit_revision selector rev found
      ]

  state_with : Option (U → Bool) → RevisionStore B → Found × Option Error
  state_with selector s = walk env.bucket (walk_root o) (visit selector) ([], s) s.backend

  -- `State`: what was found, also beside an error of the walk
  unfoldable pub state : RevisionStore B → Found × Option Error
  unfolding state_with visit
  state s = elim o.label_selector [
    | none ↦ state_with none s
    | some r ↦ elim r [ err e ↦ (([], s), some e) | ok selector ↦ state_with (some selector) s ]
  ]
