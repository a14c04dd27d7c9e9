-- ===== src/Store/Storage/Purge.antt =====
-- `PurgeRevision` and `PurgeRevisions` of pkg/store/storage.go.
pub mod Reported
use saiki.Prelude.{Bool, true, false, List, [], ◌∷◌, ◌++◌, Option, none, some, Str, if◌then◌else◌}
use mathlib.Core.List.{map}
use saiki.Errors.{Error, Result, ok, err}
use saiki.Store.Revision.{Revision, key, parse_lazy_loading_revision}
use saiki.Store.Backend.{Bucket, remove, remove_all}
use saiki.Store.Storage.{Env, RevisionStore}

module _ {U : Type 0} where
  abbrev pub keys : List (Revision U) → List Str
  keys revs = map (λ rev. key rev.fields) revs

  -- A key that cannot be parsed is left out with a warning.
  pub parse_deleted : List Str → List (Revision U)
  parse_deleted [] = []
  parse_deleted (k ∷ ks) = elim (parse_lazy_loading_revision {U = U} k) [
    | err e ↦ parse_deleted ks
    | ok rev ↦ rev ∷ parse_deleted ks
  ]

module _ {U B : Type 0} (env : Env U B) where
  unfoldable pub purge_revision : Revision U → RevisionStore B → Option Error × RevisionStore B
  purge_revision rev s =
      let (e, b) = remove env.bucket (key rev.fields) s.backend in (e, record s { backend = b })

  -- the keys that a backend without bulk removal removed; an error is logged
  pub remove_singly : List Str → B → List Str × B
  remove_singly [] b = ([], b)
  remove_singly (k ∷ ks) b =
      let (e, b') = remove env.bucket k b in
      let (removed, b'') = remove_singly ks b' in
      elim e [ none ↦ (k ∷ removed, b'') | some x ↦ (removed, b'') ]

  -- `PurgeRevisions`; `bulk` says whether the backend is a `BulkRemover`.
  unfoldable pub purge_revisions :
      Bool
      → List (Revision U)
      → RevisionStore B
      → List (Revision U) × Option Error × RevisionStore B
  unfolding parse_deleted remove_singly
  purge_revisions bulk [] s = ([], none, s)
  purge_revisions true (rev ∷ revs) s =
      let (removed, e, b) = remove_all env.bucket env.provider (keys (rev ∷ revs)) s.backend in
      (parse_deleted removed, e, record s { backend = b })
  purge_revisions false (rev ∷ revs) s =
      let (removed, b) = remove_singly (keys (rev ∷ revs)) s.backend in
      (parse_deleted removed, none, record s { backend = b })
