-- ===== src/Store/Storer.antt =====
-- `Storer` and `RevisionInterface` of pkg/store/store.go: what the controller and the caching store use of a
-- store, over the states of the store.
use saiki.Prelude.{Bool, List, Option, Str}
use saiki.Errors.{Error, Result}
use saiki.Handler.{ResourceHandlers}
use saiki.Store.Revision.{RevisionFields, Revision}
use saiki.Store.Storage.{
  Env, RevisionStore, list_revisions, namespace_get, update, delete_revision, content,
}
use saiki.Store.Storage.Sync.{Synced, sync}
use saiki.Store.Storage.Purge.{purge_revision, purge_revisions}
use saiki.Store.Storage.State.{StateOptions, StateMap, state}

pub record Storer (U S : Type 0) : Type 0 where
  pub update_in : Revision U → S → Option Error × S
  -- the revision is marked as deleted
  pub delete_in : Revision U → S → Option Error × Revision U × S
  pub get_in : RevisionFields → S → Result (Option (Revision U)) × S
  pub list_in : Str → Str → Str → Str → S → Result (List (Revision U))
  pub purge_in : Revision U → S → Option Error × S
  pub purge_all_in : List (Revision U) → S → List (Revision U) × Option Error × S
  pub state_in : StateOptions U → S → (StateMap U × S) × Option Error
  pub sync_in : ResourceHandlers U → S → Synced U × Option Error
  pub content_in : Revision U → S → Result U × S

-- The revision store is a storer. `bulk` says whether its backend removes in bulk.
abbrev pub store_storer : {U B : Type 0} → Env U B → Bool → Storer U (RevisionStore B)
store_storer env bulk = record {
  update_in = update env;
  delete_in = delete_revision env;
  get_in = namespace_get env;
  list_in = list_revisions env;
  purge_in = purge_revision env;
  purge_all_in = purge_revisions env bulk;
  state_in = state env;
  sync_in = sync env;
  content_in = content env;
}
