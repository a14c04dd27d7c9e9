-- ===== src/Store/Storage/Sync.antt =====
-- `Sync` of pkg/store/storage.go: what the store holds against what the informers know.
pub mod Stale
use saiki.Prelude.{
  Bool, true, false, ◌||◌, codes, List, [], ◌∷◌, ◌++◌, Option, none, some, if◌then◌else◌, Str, ◌==◌,
  str_eq,
}
use saiki.Prelude.Dict.{insert}
use saiki.Golang.Strings.{trim_prefix}
use saiki.Golang.FilePath.{slash, dir}
use saiki.Errors.{Error, skip_dir, Result, ok, err}
use saiki.Handler.{ResourceHandler, ResourceHandlers, handler_for}
use saiki.Store.Revision.{Revision, resource_key, parse_lazy_loading_revision}
use saiki.Store.Backend.{WalkFunc, walk}
use saiki.Store.Storage.{Env, RevisionStore}
use saiki.Store.Storage.State.{StateMap, revisions_at}

-- the variables `state` and `toDelete`
pub record Synced (U : Type 0) : Type 0 where
  pub state : StateMap U
  pub to_delete : List (Revision U)

module _ {U : Type 0} where
  -- the key under which an informer's store holds the object
  unfoldable pub store_key : Revision U → Str
  store_key rev = if rev.namespace == [] then rev.name else rev.namespace ++ (slash ∷ rev.name)

  -- `state[rev.ResourceKey()] = append(...)`
  unfoldable pub track : Revision U → Synced U → Synced U
  track rev synced =
      let rk = resource_key rev.fields in
      record synced { state = insert rk (revisions_at rk synced.state ++ (rev ∷ [])) synced.state }

  mark : Revision U → Synced U → Synced U
  mark rev synced = record synced { to_delete = synced.to_delete ++ (rev ∷ []) }

  -- The handler's store is asked for the object; a revision of an object that is gone is stale.
  sync_tracked : Revision U → Result Bool → Synced U → Synced U × Option Error
  sync_tracked rev (err e) synced = (track rev synced, some e)
  sync_tracked rev (ok true) synced = (track rev synced, none)
  sync_tracked rev (ok false) synced = (mark rev (track rev synced), none)

  -- A revision that no handler watches is deleted only on request, and never part of the state.
  sync_revision :
      Bool → Option (ResourceHandler U) → Revision U → Synced U → Synced U × Option Error
  unfolding sync_tracked mark
  sync_revision delete_untracked none rev synced =
      if delete_untracked then (mark rev synced, none) else (synced, some skip_dir)
  sync_revision delete_untracked (some h) rev synced =
      sync_tracked rev (h.get_by_key (store_key rev)) synced

  pub sync_visit : Bool → ResourceHandlers U → WalkFunc (Synced U)
  unfolding sync_revision
  sync_visit delete_untracked handlers synced obj =
      if obj.is_dir || (dir obj.key == [] || dir obj.key == codes ".")
      then (synced, none)
      else elim (parse_lazy_loading_revision {U = U} (trim_prefix slash obj.key)) [
        | err e ↦ (synced, some e)
        | ok rev ↦
            sync_revision delete_untracked
              (handler_for handlers rev.api_version rev.kind rev.namespace) rev synced
      ]

-- `Sync`: the state, the stale revisions, and the error of the walk
unfoldable pub sync :
    {U B : Type 0} → Env U B → ResourceHandlers U → RevisionStore B → Synced U × Option Error
unfolding sync_visit
sync env handlers s =
    walk env.bucket [] (sync_visit env.delete_untracked handlers)
      (record { state = []; to_delete = [] }) s.backend
