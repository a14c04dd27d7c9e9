-- ===== src/Controller/Flusher/Retry.antt =====
-- No revision is lost between the two caches, and the retry cache never shrinks.
use saiki.Prelude.{
  ◌≡◌, refl, sym, subst, ◌++◌, Bool, true, false, List, [], ◌∷◌, Option, none, some, arith,
  if◌then◌else◌, Str, ◌==◌, str_eq, str_beq_iff, In, here, there, ◌⊎◌,
}
use saiki.Prelude.Int.{ℤ, ◌≤ℤ◌}
use saiki.Prelude.Dict.{lookup}
use saiki.Errors.{Error}
use saiki.Store.Revision.{Revision}
use saiki.Store.Storer.{Storer}
use saiki.Controller.Cache.{Cache, cache, cache_all}
use saiki.Controller.Cache.Newest.{newest_if_newer, lookup-cache}
use saiki.Controller.Cache.Entries.{key_func-cache}
use saiki.Controller.Flusher.{Flush, flush_write, flush, retry_cycle}

module _ {U : Type 0} where
  -- there is an entry, and its resource version is no less than `v`
  abbrev pub AtLeast : ℤ → Option (Revision U) → Type 0
  AtLeast v none = ⊥
  AtLeast v (some r) = v ≤ℤ r.resource_version

  newest_if_newer-AtLeast :
      (v : ℤ) (o : Option (Revision U)) (rev : Revision U)
      → AtLeast v o
      → AtLeast v (newest_if_newer o rev)
  newest_if_newer-AtLeast v none rev h = absurd h
  newest_if_newer-AtLeast v (some old) rev h = ground (arith, h)

  newest_if_newer_self :
      (o : Option (Revision U)) (rev : Revision U)
      → AtLeast rev.resource_version (newest_if_newer o rev)
  newest_if_newer_self none rev = omega arith
  newest_if_newer_self (some old) rev = ground arith

  keep_or_cache :
      (v : ℤ) (b : Bool) (o : Option (Revision U)) (rev : Revision U)
      → AtLeast v o
      → AtLeast v (if b then newest_if_newer o rev else o)
  keep_or_cache v true o rev h = newest_if_newer-AtLeast v o rev h
  keep_or_cache v false o rev h = h

  cache-AtLeast :
      (v : ℤ) (c : Cache U) (rev : Revision U) (k : Str)
      → AtLeast v (lookup k c.m)
      → AtLeast v (lookup k (cache c (some rev)).m)
  cache-AtLeast v c rev k h =
      subst (AtLeast v) (sym (lookup-cache c rev k))
        (keep_or_cache v (c.key_func rev == k) (lookup k c.m) rev h)

  -- Writes to a cache never lose an entry, nor put an older one in its place.
  pub cache_all-AtLeast :
      (v : ℤ) (revs : List (Revision U)) (c : Cache U) (k : Str)
      → AtLeast v (lookup k c.m)
      → AtLeast v (lookup k (cache_all c revs).m)
  unfolding cache_all
  cache_all-AtLeast v [] c k h = h
  cache_all-AtLeast v (x ∷ xs) c k h =
      cache_all-AtLeast v xs (cache c (some x)) k (cache-AtLeast v c x k h)

  cached_self :
      (c : Cache U) (r : Revision U)
      → AtLeast r.resource_version (lookup (c.key_func r) (cache c (some r)).m)
  cached_self c r = subst (AtLeast r.resource_version) (sym (lookup-cache c r (c.key_func r))) (
      rw ((str_beq_iff (c.key_func r) (c.key_func r)).1 refl)
        (newest_if_newer_self (lookup (c.key_func r) c.m) r))

  -- Each revision that is written to a cache is there afterwards, or a newer one of its key.
  pub cache_all-In :
      (revs : List (Revision U)) (c : Cache U) (r : Revision U)
      → In r revs
      → AtLeast r.resource_version (lookup (c.key_func r) (cache_all c revs).m)
  unfolding cache_all
  cache_all-In [] c r m = elim m [ ]
  cache_all-In (x ∷ xs) c r here =
      cache_all-AtLeast r.resource_version xs (cache c (some r)) (c.key_func r) (cached_self c r)
  cache_all-In (x ∷ xs) c r (there m) =
      subst (λ k. AtLeast r.resource_version (lookup (k r) (cache_all (cache c (some x)) xs).m))
        (key_func-cache c (some x)) (cache_all-In xs (cache c (some x)) r m)

module _ {U S : Type 0} (storer : Storer U S) (refused : Revision U → Option Error) where
  -- the store after the turn of one revision: a refused one is not written
  abbrev turn : Revision U → S → S
  turn rev s = elim (refused rev) [ some x ↦ s | none ↦ (flush_write storer rev s).1 ]

  -- the store after the revisions had their turns
  abbrev pub turns : List (Revision U) → S → S
  turns [] s = s
  turns (rev ∷ revs) s = turns revs (turn rev s)

  -- In its turn, behind those before it, the revision is not refused and its write returns no error.
  abbrev pub Written : List (Revision U) → S → Revision U → Type 0
  Written revs s r =
      (before after : List (Revision U)) × (revs ≡ before ++ (r ∷ after))
      × (refused r ≡ none)
      × ((flush_write storer r (turns before s)).0 ≡ none)

  abbrev Accounted : Revision U → List (Revision U) → S → List (Revision U) → Type 0
  Accounted r revs s failed = Written revs s r ⊎ In r failed

  -- A round of the retry flusher takes no entry out of the retry cache, whatever it wrote without an
  -- error: under each key stands the same revision afterwards, or a newer one.
  pub retry_cycle-AtLeast :
      (f : Flush U) (s : S) (k : Str) (v : ℤ)
      → AtLeast v (lookup k f.retry_cache.m)
      → AtLeast v (lookup k (retry_cycle storer refused f s).0.retry_cache.m)
  unfolding retry_cycle
  retry_cycle-AtLeast f s k v h =
      cache_all-AtLeast v (flush storer refused f.retry_cache f.c s).failed f.retry_cache k h
