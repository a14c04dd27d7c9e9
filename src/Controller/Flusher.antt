-- ===== src/Controller/Flusher.antt =====
-- pkg/controller/flusher/flusher.go: pending revisions are written to the store at an interval, and
-- those that fail are kept for a retry. The writes of one flush run in the order of the copy, which is
-- any; so does the deletion behind each of them.
pub mod Drained
pub mod Retry
use saiki.Prelude.{Bool, List, [], ◌∷◌, Option, none, some, if◌then◌else◌, Str}
use saiki.Errors.{Error}
use saiki.Store.Revision.{Revision, resource_key, key}
use saiki.Store.Storer.{Storer}
use saiki.Controller.Cache.{Cache, KeyFunc, new, cache, cache_all, safe_copy, delete}

-- The struct `Flush`, but for its tickers and its store.
pub record Flush (U : Type 0) : Type 0 where
  pub c : Cache U
  pub retry_cache : Cache U

abbrev pub flush_key_func : {U : Type 0} → KeyFunc U
flush_key_func rev = resource_key rev.fields

abbrev pub error_key_func : {U : Type 0} → KeyFunc U
error_key_func rev = key rev.fields

-- `New`
abbrev pub new_flush : {U : Type 0} → Flush U
new_flush = record { c = new flush_key_func; retry_cache = new error_key_func }

-- `Queue`
unfoldable pub queue_flush : {U : Type 0} → Revision U → Flush U → Flush U
queue_flush rev f = record f { c = cache f.c (some rev) }

-- What one flush leaves: the revisions that failed, the cache `f.c`, and the store.
pub record Flushed (U S : Type 0) : Type 0 where
  pub failed : List (Revision U)
  pub flush_cache : Cache U
  pub stored : S

module _ {U S : Type 0} (storer : Storer U S) where
  -- the write of one revision
  abbrev pub flush_write : Revision U → S → Option Error × S
  flush_write rev s =
      if rev.deleted
      then (let (e, rev', s') = storer.delete_in rev s in (e, s'))
      else storer.update_in rev s

-- `refused` is the error of acquiring the semaphore of an asynchronous client, before the write; a
-- client that is not asynchronous refuses nothing.
module _ {U S : Type 0} (storer : Storer U S) (refused : Revision U → Option Error) where
  add_failed : Option Error → Revision U → Flushed U S → Flushed U S
  add_failed none rev r = r
  add_failed (some e) rev r = record r { failed = rev ∷ r.failed }

  -- The loop of `flush`. A refused revision stays in the cache; any other is deleted from `f.c`,
  -- whether or not its write failed.
  pub flush_loop : List (Revision U) → Cache U → S → Flushed U S
  unfolding add_failed
  flush_loop [] c s = record { failed = []; flush_cache = c; stored = s }
  flush_loop (rev ∷ revs) c s =
      let (e, s') = flush_write storer rev s in
      let skipped = flush_loop revs c s in
      let written = flush_loop revs (delete c (some rev)) s' in
      elim (refused rev) [
        | some x ↦ record skipped { failed = rev ∷ skipped.failed }
        | none ↦ add_failed e rev written
      ]

  -- `flush`, of one of the two caches
  unfoldable pub flush : Cache U → Cache U → S → Flushed U S
  unfolding flush_loop
  flush from c s = flush_loop (safe_copy from) c s

  -- one round of the first ticker
  unfoldable pub flush_cycle : Flush U → S → Flush U × S
  flush_cycle f s =
      let r = flush f.c f.c s in
      (record { c = r.flush_cache; retry_cache = cache_all f.retry_cache r.failed }, r.stored)

  -- one round of the second ticker
  unfoldable pub retry_cycle : Flush U → S → Flush U × S
  retry_cycle f s =
      let r = flush f.retry_cache f.c s in
      (record { c = r.flush_cache; retry_cache = cache_all f.retry_cache r.failed }, r.stored)
