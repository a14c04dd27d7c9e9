-- ===== src/Controller/Purger/Emptied.antt =====
-- What a purge leaves in the queue of the purger.
use saiki.Prelude.{
  ◌≡◌, refl, sym, ap, ◌∙◌, Bool, true, false, List, [], ◌∷◌, Option, none, some, arith,
  if◌then◌else◌, Str, ◌==◌, str_eq, str_beq_iff, In, here, there,
}
use saiki.Prelude.Int.{ℤ, beq_ℤ, beq_ℤ_iff}
use saiki.Prelude.Dict.{lookup}
use saiki.Store.Revision.{Revision}
use saiki.Store.Storer.{Storer}
use saiki.Controller.Cache.{Cache, KeyFunc, safe_copy, delete}
use saiki.Controller.Cache.Entries.{
  IsKeyed, lookup-delete, key_func-delete, without_version, safe_copy-lookup,
}
use saiki.Controller.Purger.{delete_all, purge, purge_copy}

module _ {U : Type 0} where
  -- one of the revisions has the key and the resource version
  abbrev pub is_among : KeyFunc U → Str → ℤ → List (Revision U) → Bool
  is_among key_func k v [] = false
  is_among key_func k v (x ∷ xs) =
      if key_func x == k
      then (if beq_ℤ v x.resource_version then true else is_among key_func k v xs)
      else is_among key_func k v xs

  -- the entry of a key, unless its very version is among the revisions
  abbrev pub remaining :
      KeyFunc U → Str → List (Revision U) → Option (Revision U) → Option (Revision U)
  remaining key_func k revs none = none
  remaining key_func k revs (some r) =
      if is_among key_func k r.resource_version revs then none else some r

  remaining_step :
      (key_func : KeyFunc U) (k : Str) (x : Revision U) (xs : List (Revision U))
      (o : Option (Revision U))
      → remaining key_func k xs (if key_func x == k then without_version o x else o)
        ≡ remaining key_func k (x ∷ xs) o
  remaining_step key_func k x xs none = ground arith
  remaining_step key_func k x xs (some r) = ground arith

  remaining_nil :
      (key_func : KeyFunc U) (k : Str) (o : Option (Revision U)) → remaining key_func k [] o ≡ o
  remaining_nil key_func k none = refl
  remaining_nil key_func k (some r) = refl

  -- What the deletion of several revisions leaves under a key.
  pub lookup-delete_all :
      (revs : List (Revision U)) (c : Cache U) (k : Str)
      → lookup k (delete_all c revs).m ≡ remaining c.key_func k revs (lookup k c.m)
  unfolding delete_all
  lookup-delete_all [] c k = sym (remaining_nil c.key_func k (lookup k c.m))
  lookup-delete_all (x ∷ xs) c k =
      lookup-delete_all xs (delete c (some x)) k
      ∙ ap (λ f. remaining f k xs (lookup k (delete c (some x)).m)) (key_func-delete c (some x))
      ∙ ap (remaining c.key_func k xs) (lookup-delete c x k)
      ∙ remaining_step c.key_func k x xs (lookup k c.m)

  In-is_among :
      (key_func : KeyFunc U) (r : Revision U) (revs : List (Revision U))
      → In r revs
      → is_among key_func (key_func r) r.resource_version revs ≡ true
  In-is_among key_func r [] m = elim m [ ]
  In-is_among key_func r (x ∷ xs) here = ground (
    arith,
    str_beq_iff (key_func r) (key_func r),
    beq_ℤ_iff r.resource_version r.resource_version,
  )
  In-is_among key_func r (x ∷ xs) (there m) = ground (arith, In-is_among key_func r xs m)

  remaining-safe_copy :
      (c : Cache U) (k : Str) (o : Option (Revision U))
      → lookup k c.m ≡ o
      → IsKeyed c
      → remaining c.key_func k (safe_copy c) o ≡ none
  remaining-safe_copy c k none e h = refl
  remaining-safe_copy c k (some r) e h =
      let among = In-is_among c.key_func r (safe_copy c) (safe_copy-lookup c.m c.key_func k r e) in
      rw (sym (h.own_key k r e), among) refl

  -- If every entry stands under its own key, deleting all that the copy holds leaves no entry.
  pub delete_all-safe_copy :
      (c : Cache U) (k : Str) → IsKeyed c → lookup k (delete_all c (safe_copy c)).m ≡ none
  delete_all-safe_copy c k h =
      lookup-delete_all (safe_copy c) c k ∙ remaining-safe_copy c k (lookup k c.m) refl h

module _ {U S : Type 0} (storer : Storer U S) where
  -- what the store reports as deleted; it is not asked about nothing
  abbrev pub reported : List (Revision U) → S → List (Revision U)
  reported [] s = []
  reported (rev ∷ revs) s = (storer.purge_all_in (rev ∷ revs) s).0

  purge_by_copy :
      (copy : List (Revision U)) (c : Cache U) (s : S)
      → (purge_copy storer copy c s).0 ≡ delete_all c (reported copy s)
  unfolding purge_copy delete_all
  purge_by_copy [] c s = refl
  purge_by_copy (rev ∷ revs) c s = refl

  -- A purge takes an entry out of the queue exactly if the store reports a revision of its key and
  -- resource version as deleted, also if it reports an error beside; any other entry stays queued.
  pub lookup-purge :
      (c : Cache U) (s : S) (k : Str)
      → lookup k (purge storer c s).0.m
        ≡ remaining c.key_func k (reported (safe_copy c) s) (lookup k c.m)
  unfolding purge
  lookup-purge c s k =
      ap (λ d. lookup k d.m) (purge_by_copy (safe_copy c) c s)
      ∙ lookup-delete_all (reported (safe_copy c) s) c k
