-- ===== src/Controller/Flusher/Drained.antt =====
-- What a flush leaves in the flusher's cache.
use saiki.Prelude.{◌≡◌, refl, ap, ◌∙◌, List, [], ◌∷◌, Option, none, some, Str, str_eq}
use saiki.Prelude.Dict.{lookup}
use saiki.Errors.{Error}
use saiki.Store.Revision.{Revision}
use saiki.Store.Storer.{Storer}
use saiki.Controller.Cache.{Cache, safe_copy, delete}
use saiki.Controller.Cache.Entries.{IsKeyed}
use saiki.Controller.Purger.{delete_all}
use saiki.Controller.Purger.Emptied.{lookup-delete_all, remaining, delete_all-safe_copy}
use saiki.Controller.Flusher.{Flush, flush_write, add_failed, flush_loop, flush, flush_cycle}

module _ {U S : Type 0} (storer : Storer U S) (refused : Revision U → Option Error) where
  abbrev pub start_if : Option Error → Revision U → List (Revision U) → List (Revision U)
  start_if none rev revs = rev ∷ revs
  start_if (some x) rev revs = revs

  -- the revisions whose write was started
  abbrev pub started : List (Revision U) → List (Revision U)
  started [] = []
  started (rev ∷ revs) = start_if (refused rev) rev (started revs)

  flush_loop-cache_by :
      (rev : Revision U) (revs : List (Revision U)) (c : Cache U) (s : S) (r e : Option Error)
      → refused rev ≡ r
      → (flush_write storer rev s).0 ≡ e
      → ((c : Cache U) (s : S)
          → (flush_loop storer refused revs c s).flush_cache ≡ delete_all c (started revs))
      → (flush_loop storer refused (rev ∷ revs) c s).flush_cache
        ≡ delete_all c (started (rev ∷ revs))
  unfolding flush_loop add_failed delete_all
  flush_loop-cache_by rev revs c s (some x) e hr he ih = rw (hr, flush_loop) (ih c s)
  flush_loop-cache_by rev revs c s none none hr he ih =
      rw (hr, he, flush_loop) (ih (delete c (some rev)) (flush_write storer rev s).1)
  flush_loop-cache_by rev revs c s none (some y) hr he ih =
      rw (hr, he, flush_loop) (ih (delete c (some rev)) (flush_write storer rev s).1)

  flush_loop-cache :
      (revs : List (Revision U)) (c : Cache U) (s : S)
      → (flush_loop storer refused revs c s).flush_cache ≡ delete_all c (started revs)
  flush_loop-cache [] c s = unfold flush_loop delete_all in refl
  flush_loop-cache (rev ∷ revs) c s =
      flush_loop-cache_by rev revs c s (refused rev) (flush_write storer rev s).0 refl refl
        (λ c s. flush_loop-cache revs c s)

  -- A flush takes an entry out of the flusher's cache exactly if it started to write a revision of its
  -- key and resource version, from whichever cache: whether the write failed makes no difference.
  pub lookup-flush :
      (from c : Cache U) (s : S) (k : Str)
      → lookup k (flush storer refused from c s).flush_cache.m
        ≡ remaining c.key_func k (started (safe_copy from)) (lookup k c.m)
  unfolding flush
  lookup-flush from c s k =
      ap (λ d. lookup k d.m) (flush_loop-cache (safe_copy from) c s)
      ∙ lookup-delete_all (started (safe_copy from)) c k

  started_all :
      (revs : List (Revision U)) → ((r : Revision U) → refused r ≡ none) → started revs ≡ revs
  started_all [] h = refl
  started_all (rev ∷ revs) h =
      ap (λ o. start_if o rev (started revs)) (h rev) ∙ ap (λ l. rev ∷ l) (started_all revs h)

  -- If no write is refused, a round of the flusher leaves its cache empty.
  pub flush_cycle-drained :
      (f : Flush U) (s : S) (k : Str)
      → IsKeyed f.c
      → ((r : Revision U) → refused r ≡ none)
      → lookup k (flush_cycle storer refused f s).0.c.m ≡ none
  unfolding flush_cycle flush
  flush_cycle-drained f s k h none_refused =
      ap (λ d. lookup k d.m) (flush_loop-cache (safe_copy f.c) f.c s)
      ∙ ap (λ l. lookup k (delete_all f.c l).m) (started_all (safe_copy f.c) none_refused)
      ∙ delete_all-safe_copy f.c k h
