-- ===== src/Controller/Purger/Store.antt =====
-- The purger over the revision store: what the store reports takes the whole queue away.
use mathlib.Core.List.{map}
use saiki.Prelude.{
  ◌≡◌, refl, sym, ap, ◌∙◌, true, List, [], ◌∷◌, Option, none, some, arith, Str, str_eq, str_beq_iff,
  In, here, there, All,
}
use saiki.Prelude.Int.{beq_ℤ_iff}
use saiki.Prelude.Dict.{Dict, lookup}
use saiki.Store.Revision.{Revision, key}
use saiki.Store.Revision.RoundTrip.{IsStorable, to_seconds, key-to_seconds}
use saiki.Store.Backend.{s3_provider, remove_all}
use saiki.Store.Backend.RemoveAll.{DeletesAll, remove_all_s3}
use saiki.Store.Storage.{Env, RevisionStore}
use saiki.Store.Storage.Purge.{keys, parse_deleted, purge_revisions}
use saiki.Store.Storage.Purge.Reported.{reloaded, parse_deleted-keys}
use saiki.Store.Storer.{store_storer}
use saiki.Controller.Cache.{Cache, safe_copy}
use saiki.Controller.Cache.Entries.{IsKeyed, safe_copy-lookup}
use saiki.Controller.Purger.{purge, purge_key_func}
use saiki.Controller.Purger.Emptied.{is_among, remaining, reported, lookup-purge}

module _ {U : Type 0} where
  -- a queue of the purger
  abbrev pub queue_of : Dict Str (Revision U) → Cache U
  queue_of m = record { m = m; key_func = purge_key_func }

  reloaded-is_among :
      (r : Revision U) (revs : List (Revision U))
      → In r revs
      → is_among purge_key_func (key r.fields) r.resource_version (map reloaded revs) ≡ true
  reloaded-is_among r [] m = elim m [ ]
  reloaded-is_among r (x ∷ xs) here = ground (
    arith,
    (key-to_seconds r.fields).0,
    str_beq_iff (key (to_seconds r.fields)) (key r.fields),
    beq_ℤ_iff r.resource_version r.resource_version,
  )
  reloaded-is_among r (x ∷ xs) (there m) = ground (arith, reloaded-is_among r xs m)

module _ {U B : Type 0} (env : Env U B) where
  reported_s3 :
      (revs : List (Revision U)) (s : RevisionStore B)
      → env.provider ≡ s3_provider
      → env.bucket.as_s3 ≡ true
      → DeletesAll env.bucket
      → All (λ rev. IsStorable rev.fields) revs
      → reported (store_storer env true) revs s ≡ map reloaded revs
  unfolding purge_revisions
  reported_s3 [] s p is_s3 all h = refl
  reported_s3 (rev ∷ revs) s p is_s3 all h =
      ap parse_deleted (
        ap (λ q. (remove_all env.bucket q (keys (rev ∷ revs)) s.backend).0) p
        ∙ remove_all_s3 env.bucket (keys (rev ∷ revs)) s.backend is_s3 all)
      ∙ parse_deleted-keys (rev ∷ revs) h

  remaining-none :
      (m : Dict Str (Revision U)) (k : Str) (o : Option (Revision U))
      → lookup k m ≡ o
      → IsKeyed (queue_of m)
      → remaining purge_key_func k (map reloaded (safe_copy (queue_of m))) o ≡ none
  remaining-none m k none e h = refl
  remaining-none m k (some r) e h =
      let among =
        reloaded-is_among r (safe_copy (queue_of m)) (safe_copy-lookup m purge_key_func k r e) in
      rw (sym (h.own_key k r e), among) refl

  -- If S3 deletes what each call asks for, a purge over the revision store leaves no revision in the
  -- queue, provided that each stands under its own key and is storable: what the store parses from the
  -- deleted keys names every queued revision by its key and its resource version.
  pub lookup-purge_s3 :
      (m : Dict Str (Revision U)) (s : RevisionStore B) (k : Str)
      → env.provider ≡ s3_provider
      → env.bucket.as_s3 ≡ true
      → DeletesAll env.bucket
      → IsKeyed (queue_of m)
      → All (λ rev. IsStorable rev.fields) (safe_copy (queue_of m))
      → lookup k (purge (store_storer env true) (queue_of m) s).0.m ≡ none
  lookup-purge_s3 m s k p is_s3 all keyed h =
      lookup-purge (store_storer env true) (queue_of m) s k
      ∙ ap (λ l. remaining purge_key_func k l (lookup k m))
          (reported_s3 (safe_copy (queue_of m)) s p is_s3 all h)
      ∙ remaining-none m k (lookup k m) refl keyed
