-- ===== src/Controller/Cache/Entries.antt =====
-- Which entries a cache keeps when a flush or a purge deletes what it has dealt with.

use saiki.Prelude.{
  ◌≡◌, refl, [], ◌∷◌, Option, none, some, arith, if◌then◌else◌, Str, ◌==◌, str_eq, str_beq_iff, In,
  here, there, Bool-cases, inl, inr,
}
use saiki.Prelude.Int.{beq_ℤ, ◌<ℤ◌}
use saiki.Prelude.Dict.{Dict, lookup, lookup-remove}
use saiki.Store.Revision.{Revision}
use saiki.Controller.Cache.{Cache, KeyFunc, cache, safe_copy, delete}
use saiki.Controller.Cache.Newest.{newest_if_newer, lookup-cache}

module _ {U : Type 0} where
  abbrev pub without_version : Option (Revision U) → Revision U → Option (Revision U)
  without_version none rev = none
  without_version (some cached) rev =
      if beq_ℤ cached.resource_version rev.resource_version then none else some cached

  pub lookup-delete :
      (c : Cache U) (rev : Revision U) (k : Str)
      → lookup k (delete c (some rev)).m
        ≡ (if c.key_func rev == k then without_version (lookup k c.m) rev else lookup k c.m)
  unfolding delete
  lookup-delete c rev k =
      ground (arith, lookup-remove (c.key_func rev) k c.m, str_beq_iff (c.key_func rev) k)

  pub key_func-cache : (c : Cache U) (o : Option (Revision U)) → (cache c o).key_func ≡ c.key_func
  unfolding cache
  key_func-cache c none = refl
  key_func-cache c (some rev) = ground arith

  pub key_func-delete : (c : Cache U) (o : Option (Revision U)) → (delete c o).key_func ≡ c.key_func
  unfolding delete
  key_func-delete c none = refl
  key_func-delete c (some rev) = ground arith

  newer_stays :
      (o : Option (Revision U)) (older newer : Revision U)
      → older.resource_version <ℤ newer.resource_version
      → without_version (newest_if_newer o newer) older ≡ newest_if_newer o newer
  newer_stays none older newer h = ground arith
  newer_stays (some old) older newer h = ground arith

  -- A revision that is written while an older one of its key is being flushed stays in the cache
  -- when the flush deletes the older one: that deletion changes no entry at all.
  pub delete-cache_newer :
      (c : Cache U) (older newer : Revision U) (k : Str)
      → c.key_func older ≡ c.key_func newer
      → older.resource_version <ℤ newer.resource_version
      → lookup k (delete (cache c (some newer)) (some older)).m ≡ lookup k (cache c (some newer)).m
  delete-cache_newer c older newer k e h =
      rw
        (
          lookup-delete (cache c (some newer)) older k,
          key_func-cache c (some newer),
          e,
          lookup-cache c newer k,
        )
        (ground (arith, newer_stays (lookup k c.m) older newer h))

  -- Every entry stands under its own key.
  pub record IsKeyed (c : Cache U) : Type 0 where
    pub own_key : (k : Str) (r : Revision U) → lookup k c.m ≡ some r → c.key_func r ≡ k

  -- Writing to a cache and deleting from it keep every entry under its own key.
  pub cache-delete-IsKeyed :
      (c : Cache U) (o : Option (Revision U))
      → IsKeyed c
      → IsKeyed (cache c o) × IsKeyed (delete c o)
  cache-delete-IsKeyed c none h = unfold cache delete in (h, h)
  cache-delete-IsKeyed c (some rev) h = (
    record {
      own_key = λ k r p.
          rw (key_func-cache c (some rev)) (
            ground (arith, p, lookup-cache c rev k, str_beq_iff (c.key_func rev) k, h.own_key k r));
    },
    record {
      own_key = λ k r p.
          rw (key_func-delete c (some rev))
            (ground (arith, p, lookup-delete c rev k, h.own_key k r));
    },
  )

  -- What a lookup finds is among the revisions of the copy.
  pub safe_copy-lookup :
      (m : Dict Str (Revision U)) (key_func : KeyFunc U) (k : Str) (r : Revision U)
      → lookup k m ≡ some r
      → In r (safe_copy (record { m = m; key_func = key_func }))
  unfolding safe_copy lookup
  safe_copy-lookup [] key_func k r h = absurd (cc)
  safe_copy-lookup ((j, v) ∷ m) key_func k r h = elim (Bool-cases (j == k)) [
    | inl e ↦ let same : v ≡ r = ground arith in rw same here
    | inr e ↦ there (safe_copy-lookup m key_func k r (ground arith))
  ]
