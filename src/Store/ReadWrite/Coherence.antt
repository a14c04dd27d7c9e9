-- ===== src/Store/ReadWrite/Coherence.antt =====
-- What is read behind the getter in memory after a write.
use saiki.Prelude.{◌≡◌, refl, Option, none, some, if◌then◌else◌, ◌==◌, str_eq}
use saiki.Errors.{Error, Result, ok}
use saiki.Store.Revision.{RevisionFields, Revision, resource_key}
use saiki.Store.Storer.{Storer}
use saiki.Store.InMemory.{mem_get, mem_update, mem_delete}
use saiki.Store.InMemory.Lookup.{mem_get-set_revision}
use saiki.Store.ReadWrite.{ReadWriteStore, rw_update, rw_delete, rw_get}

module _ {U S : Type 0} (storer : Storer U S) where
  -- what a read returns after a write that ended with `e`
  abbrev pub read_after :
      Option Error → Revision U → RevisionFields → ReadWriteStore U S → Result (Revision U)
  read_after (some x) rev other s = mem_get other s.reader
  read_after none rev other s =
      if resource_key rev.fields == resource_key other then ok rev else mem_get other s.reader

  by_update :
      (rev : Revision U) (other : RevisionFields) (s : ReadWriteStore U S) (e : Option Error)
      → (storer.update_in rev s.storer).0 ≡ e
      → rw_get storer other (rw_update storer rev s).1 ≡ read_after e rev other s
  unfolding rw_get rw_update mem_update
  by_update rev other s (some x) e = rw (e, rw_update) refl
  by_update rev other s none e = rw (e, rw_update) (mem_get-set_revision rev other s.reader)

  -- A read after `Update` returns the written revision for its resource and what it returned before
  -- for any other, if the store took the write; otherwise every read returns what it did before.
  pub rw_get-rw_update :
      (rev : Revision U) (other : RevisionFields) (s : ReadWriteStore U S)
      → rw_get storer other (rw_update storer rev s).1
        ≡ read_after (storer.update_in rev s.storer).0 rev other s
  rw_get-rw_update rev other s = by_update rev other s (storer.update_in rev s.storer).0 refl

  by_delete :
      (rev rev' : Revision U) (other : RevisionFields) (s : ReadWriteStore U S) (e : Option Error)
      → (storer.delete_in rev s.storer).0 ≡ e
      → rw_get storer other (rw_delete storer rev s).1
        ≡ read_after e (storer.delete_in rev s.storer).1 other s
  unfolding rw_get rw_delete mem_delete
  by_delete rev rev' other s (some x) e = rw (e, rw_delete) refl
  by_delete rev rev' other s none e =
      rw (e, rw_delete) (mem_get-set_revision (storer.delete_in rev s.storer).1 other s.reader)

  -- A read after `Delete` returns the revision as the store marked it, for its resource, if the store
  -- took the deletion: a deleted resource is still found. Other reads return what they did before.
  pub rw_get-rw_delete :
      (rev : Revision U) (other : RevisionFields) (s : ReadWriteStore U S)
      → rw_get storer other (rw_delete storer rev s).1
        ≡ read_after (storer.delete_in rev s.storer).0 (storer.delete_in rev s.storer).1 other s
  rw_get-rw_delete rev other s = by_delete rev rev other s (storer.delete_in rev s.storer).0 refl
