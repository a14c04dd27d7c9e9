-- ===== src/Cmd/Revisions/Apply.antt =====
-- The verb `apply` of cmd/revisions.go, once it has the object and the client of its resource. The
-- object is stripped as by `StripMetadata` of pkg/store/revision.go.
pub mod Outcome
pub mod Renamed
use saiki.Prelude.{Bool, true, false, List, [], ◌∷◌, ◌++◌, Option, none, some, if◌then◌else◌, Str}
use saiki.Errors.{Error, Result, ok, err}
use saiki.Store.Revision.{RevisionFields}

-- What is used of `Dynamic` of pkg/discovery/factory.go, over the states of the cluster.
pub record DynamicClient (U C : Type 0) : Type 0 where
  pub create_object : U → C → Option Error × C
  pub get_object : Str → C → Result U
  pub patch_object : Str → Str → C → Option Error × C

-- the library's calls on an object
pub record ObjectLibrary (U : Type 0) : Type 0 where
  pub clear_creation_timestamp : U → U
  pub clear_deletion_timestamp : U → U
  pub clear_resource_version : U → U
  pub clear_status : U → Option Error × U
  pub marshal : U → Result Str
  pub create_merge_patch : Str → Str → Result Str
  pub is_not_found : Error → Bool

-- `StripMetadata`; an error of the last call is only logged.
unfoldable pub strip_metadata : {U : Type 0} → ObjectLibrary U → U → U
strip_metadata lib u =
    (lib.clear_status (
      lib.clear_resource_version (lib.clear_deletion_timestamp (lib.clear_creation_timestamp u)))).1

-- what is printed
pub data Message : Type 0 where
  creating_failed getting_failed marshaling_revision_failed marshaling_current_failed :
      Error → Message
  building_patch_failed patching_failed : Error → Message
  -- `%s applied`, of the revision
  applied : RevisionFields → Message

module _ {U C : Type 0} (lib : ObjectLibrary U) (client : DynamicClient U C) where
  unfoldable pub create_and_say : RevisionFields → U → C → List Message × C
  create_and_say rev u c =
      let (e, c') = client.create_object u c in
      elim e [ some x ↦ (creating_failed x ∷ [], c') | none ↦ (applied rev ∷ [], c') ]

  -- The patch is sent, and its error does not keep `applied` from being printed.
  unfoldable pub patch_and_say : RevisionFields → List Message → Str → C → List Message × C
  patch_and_say rev said patch c =
      let (e, c') = client.patch_object rev.name patch c in
      elim e [
        | some x ↦ (said ++ (patching_failed x ∷ applied rev ∷ []), c')
        | none ↦ (said ++ (applied rev ∷ []), c')
      ]

  build_patch : RevisionFields → List Message → Str → Result Str → C → List Message × C
  build_patch rev said rev_bytes (err x) c = (said ++ (marshaling_current_failed x ∷ []), c)
  build_patch rev said rev_bytes (ok cur_bytes) c =
      elim (lib.create_merge_patch cur_bytes rev_bytes) [
        | err x ↦ (said ++ (building_patch_failed x ∷ []), c)
        | ok patch ↦ patch_and_say rev said patch c
      ]

  -- An object that cannot be marshaled is reported, and no bytes stand for it.
  patch_current : RevisionFields → U → Result Str → C → List Message × C
  unfolding build_patch
  patch_current rev current (err x) c =
      build_patch rev (marshaling_revision_failed x ∷ []) [] (lib.marshal current) c
  patch_current rev current (ok rev_bytes) c = build_patch rev [] rev_bytes (lib.marshal current) c

  overwrite_found : RevisionFields → U → Result U → C → List Message × C
  unfolding patch_current
  overwrite_found rev u (err x) c =
      if lib.is_not_found x then create_and_say rev u c else (getting_failed x ∷ [], c)
  overwrite_found rev u (ok current) c = patch_current rev current (lib.marshal u) c

  -- without `--overwrite` the object is only created
  unfoldable pub apply_object : Bool → RevisionFields → U → C → List Message × C
  unfolding overwrite_found
  apply_object overwrite rev content c =
      let u = strip_metadata lib content in
      if overwrite
      then overwrite_found rev u (client.get_object rev.name c) c
      else create_and_say rev u c
