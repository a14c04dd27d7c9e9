-- ===== src/Store/ReadWrite.antt =====
-- pkg/store/readwrite.go: writes go to a store and to a getter in memory, reads to the getter only.
pub mod Coherence
use saiki.Prelude.{List, [], ◌∷◌, Option, none, some, Str}
use saiki.Errors.{Error, Result, ok, err}
use saiki.Handler.{ResourceHandlers}
use saiki.Store.Revision.{RevisionFields, Revision}
use saiki.Store.Storer.{Storer}
use saiki.Store.Storage.State.{StateMap}
use saiki.Store.Storage.Sync.{Synced}
use saiki.Store.InMemory.{
  MemCache, mem_update, mem_delete, mem_get, mem_list, mem_purge_revision, mem_purge_revisions,
}

-- what changes: the underlying store, and the getter in memory
pub record ReadWriteStore (U S : Type 0) : Type 0 where
  pub storer : S
  pub reader : MemCache U

module _ {U : Type 0} where
  create_all : List (Revision U) → MemCache U → MemCache U
  create_all [] c = c
  create_all (rev ∷ revs) c = create_all revs (mem_update rev c).1

  -- The loop over the state; creating in the getter gives no error.
  pub load : StateMap U → MemCache U → MemCache U
  unfolding create_all
  load [] c = c
  load ((rk, revs) ∷ state) c = load state (create_all revs c)

module _ {U S : Type 0} (storer : Storer U S) where
  -- `Sync`: the getter is filled with what the store found
  unfoldable pub rw_sync :
      ResourceHandlers U → ReadWriteStore U S → Result (Synced U) × ReadWriteStore U S
  unfolding load
  rw_sync handlers s =
      let (synced, e) = storer.sync_in handlers s.storer in
      elim e [
        | some x ↦ (err x, s)
        | none ↦ (ok synced, record s { reader = load synced.state s.reader })
      ]

  -- `Update`, and `Create`, which is the same on both
  unfoldable pub rw_update :
      Revision U → ReadWriteStore U S → Result (Revision U) × ReadWriteStore U S
  rw_update rev s =
      let (e, w) = storer.update_in rev s.storer in
      elim e [
        | some x ↦ (err x, record s { storer = w })
        | none ↦ let (r, c) = mem_update rev s.reader in (r, record { storer = w; reader = c })
      ]

  -- `Delete`: the getter remembers the revision as the store marked it
  unfoldable pub rw_delete : Revision U → ReadWriteStore U S → Option Error × ReadWriteStore U S
  rw_delete rev s =
      let (e, rev', w) = storer.delete_in rev s.storer in
      elim e [
        | some x ↦ (some x, record s { storer = w })
        | none ↦ let (r, c) = mem_delete rev' s.reader in (r, record { storer = w; reader = c })
      ]

  unfoldable pub rw_get : RevisionFields → ReadWriteStore U S → Result (Revision U)
  rw_get rev s = mem_get rev s.reader

  unfoldable pub rw_list : Str → Str → Str → Str → ReadWriteStore U S → Result (List (Revision U))
  rw_list api_version kind namespace name s = mem_list api_version kind namespace name s.reader

  unfoldable pub rw_purge_revision :
      Revision U → ReadWriteStore U S → Option Error × ReadWriteStore U S
  rw_purge_revision rev s =
      let (e, w) = storer.purge_in rev s.storer in
      elim e [
        | some x ↦ (some x, record s { storer = w })
        | none ↦
            let (r, c) = mem_purge_revision rev s.reader in (r, record { storer = w; reader = c })
      ]

  -- `PurgeRevisions`: the getter forgets what the store reports as deleted.
  unfoldable pub rw_purge_revisions :
      List (Revision U) → ReadWriteStore U S → List (Revision U) × Option Error × ReadWriteStore U S
  rw_purge_revisions revs s =
      let (deleted, e, w) = storer.purge_all_in revs s.storer in
      let (from_reader, ignored, c) = mem_purge_revisions deleted s.reader in
      (from_reader, e, record { storer = w; reader = c })
