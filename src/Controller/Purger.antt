-- ===== src/Controller/Purger.antt =====
-- pkg/controller/purger/purger.go: revisions that are to be purged, and the round that purges them.
pub mod Emptied
pub mod Store
use saiki.Prelude.{List, [], ◌∷◌, Option, none, some}
use saiki.Store.Revision.{Revision, key}
use saiki.Store.Storer.{Storer}
use saiki.Controller.Cache.{Cache, KeyFunc, new, cache, safe_copy, delete}

abbrev pub purge_key_func : {U : Type 0} → KeyFunc U
purge_key_func rev = key rev.fields

-- `New`
abbrev pub new_purge : {U : Type 0} → Cache U
new_purge = new purge_key_func

-- `Queue`
unfoldable pub queue_purge : {U : Type 0} → Revision U → Cache U → Cache U
queue_purge rev c = cache c (some rev)

-- the loop that takes the deleted revisions out of the cache
unfoldable pub delete_all : {U : Type 0} → Cache U → List (Revision U) → Cache U
delete_all c [] = c
delete_all c (rev ∷ revs) = delete_all (delete c (some rev)) revs

module _ {U S : Type 0} (storer : Storer U S) where
  purge_copy : List (Revision U) → Cache U → S → Cache U × S
  purge_copy [] c s = (c, s)
  purge_copy (rev ∷ revs) c s =
      let (deleted, e, s') = storer.purge_all_in (rev ∷ revs) s in (delete_all c deleted, s')

  -- `purge`: an error is logged, and what was deleted beside it is taken out.
  unfoldable pub purge : Cache U → S → Cache U × S
  unfolding purge_copy delete_all
  purge c s = purge_copy (safe_copy c) c s
