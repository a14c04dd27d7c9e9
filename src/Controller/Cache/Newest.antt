-- ===== src/Controller/Cache/Newest.antt =====
-- What a cache holds after any sequence of writes: the newest revision of each key.
use saiki.Prelude.{
  ◌≡◌, ◌≢◌, refl, sym, subst, ap, ◌∙◌, ◌⊎◌, inl, inr, List, [], ◌∷◌, Option, none, some, arith,
  if◌then◌else◌, Str, ◌==◌, str_eq, str_beq_iff, In, here, there, Bool-cases,
}
use saiki.Prelude.Int.{ltb_ℤ, ◌≤ℤ◌, le_of_not_lt, le_of_lt}
use saiki.Prelude.Dict.{lookup, lookup-insert}
use saiki.Store.Revision.{Revision}
use saiki.Controller.Cache.{Cache, KeyFunc, new, cache, cache_all}

module _ {U : Type 0} where
  pub key_func-cache_all :
      (revs : List (Revision U)) (c : Cache U) → (cache_all c revs).key_func ≡ c.key_func
  unfolding cache_all cache
  key_func-cache_all [] c = refl
  key_func-cache_all (rev ∷ revs) c = key_func-cache_all revs (cache c (some rev)) ∙ ground arith

  abbrev pub newest_if_newer : Option (Revision U) → Revision U → Option (Revision U)
  newest_if_newer none rev = some rev
  newest_if_newer (some old) rev =
      if ltb_ℤ old.resource_version rev.resource_version then some rev else some old

  -- What one write does to the entry of a key.
  pub lookup-cache :
      (c : Cache U) (rev : Revision U) (k : Str)
      → lookup k (cache c (some rev)).m
        ≡ (if c.key_func rev == k then newest_if_newer (lookup k c.m) rev else lookup k c.m)
  unfolding cache
  lookup-cache c rev k =
      ground (arith, lookup-insert (c.key_func rev) k rev c.m, str_beq_iff (c.key_func rev) k)

  -- `o` is the revision of key `k` with the greatest resource version among those with `P`.
  abbrev pub NewestOf : KeyFunc U → Str → (Revision U → Type 0) → Option (Revision U) → Type 0
  NewestOf key_func k P none = (r : Revision U) → P r → key_func r ≢ k
  NewestOf key_func k P (some n) =
      P n
      × (key_func n ≡ k)
      × ((r : Revision U) → P r → key_func r ≡ k → r.resource_version ≤ℤ n.resource_version)

  abbrev Added : Revision U → (Revision U → Type 0) → Revision U → Type 0
  Added rev P r = (r ≡ rev) ⊎ P r

  same_key :
      (key_func : KeyFunc U) (k : Str) (P : Revision U → Type 0) (rev : Revision U)
      (o : Option (Revision U))
      → key_func rev ≡ k
      → NewestOf key_func k P o
      → NewestOf key_func k (Added rev P) (newest_if_newer o rev)
  same_key key_func k P rev none e h =
      (inl refl, e, λ r p q. elim p [ inl s ↦ rw s (omega arith) | inr s ↦ absurd (h r s q) ])
  same_key key_func k P rev (some old) e h =
      elim (Bool-cases (ltb_ℤ old.resource_version rev.resource_version)) [
        | inl lt ↦ rw lt (
          inl refl,
          e,
          λ r p q. elim p [
            | inl s ↦ rw s (omega arith)
            | inr s ↦
                let below = h.2 r s q in
                let newer = le_of_lt old.resource_version rev.resource_version lt in omega arith
          ],
        )
        | inr ge ↦ rw ge (
          inr h.0,
          h.1,
          λ r p q. elim p [
            | inl s ↦ rw s (le_of_not_lt old.resource_version rev.resource_version ge)
            | inr s ↦ h.2 r s q
          ],
        )
      ]

  other_key :
      (key_func : KeyFunc U) (k : Str) (P : Revision U → Type 0) (rev : Revision U)
      (o : Option (Revision U))
      → key_func rev ≢ k
      → NewestOf key_func k P o
      → NewestOf key_func k (Added rev P) o
  other_key key_func k P rev none ne h =
      λ r p q. elim p [ inl s ↦ ne (ap key_func (sym s) ∙ q) | inr s ↦ h r s q ]
  other_key key_func k P rev (some n) ne h = (
    inr h.0,
    h.1,
    λ r p q. elim p [ inl s ↦ absurd (ne (ap key_func (sym s) ∙ q)) | inr s ↦ h.2 r s q ],
  )

  cache-NewestOf :
      (c : Cache U) (P : Revision U → Type 0) (rev : Revision U) (k : Str)
      → NewestOf c.key_func k P (lookup k c.m)
      → NewestOf c.key_func k (Added rev P) (lookup k (cache c (some rev)).m)
  cache-NewestOf c P rev k h = elim (Bool-cases (c.key_func rev == k)) [
    | inl e ↦
        rw (lookup-cache c rev k, e)
          (same_key c.key_func k P rev (lookup k c.m) ((str_beq_iff (c.key_func rev) k).0 e) h)
    | inr e ↦
        rw (lookup-cache c rev k, e)
          (other_key c.key_func k P rev (lookup k c.m)
            (λ q. cc (e, (str_beq_iff (c.key_func rev) k).1 q)) h)
  ]

  NewestOf-mono :
      (key_func : KeyFunc U) (k : Str) (P Q : Revision U → Type 0) (o : Option (Revision U))
      → ((r : Revision U) → P r → Q r)
      → ((r : Revision U) → Q r → P r)
      → NewestOf key_func k P o
      → NewestOf key_func k Q o
  NewestOf-mono key_func k P Q none pq qp h = λ r q. h r (qp r q)
  NewestOf-mono key_func k P Q (some n) pq qp h = (pq n h.0, h.1, λ r q e. h.2 r (qp r q) e)

  In-cons :
      {rev r : Revision U} {revs : List (Revision U)} → In r (rev ∷ revs) → (r ≡ rev) ⊎ In r revs
  In-cons here = inl refl
  In-cons (there m) = inr m

  abbrev Joined : List (Revision U) → (Revision U → Type 0) → Revision U → Type 0
  Joined revs P r = In r revs ⊎ P r

  cache_all-NewestOf :
      (revs : List (Revision U)) (c : Cache U) (P : Revision U → Type 0) (k : Str)
      → NewestOf c.key_func k P (lookup k c.m)
      → NewestOf c.key_func k (Joined revs P) (lookup k (cache_all c revs).m)
  unfolding cache_all
  cache_all-NewestOf [] c P k h =
      NewestOf-mono c.key_func k P (Joined [] P) (lookup k c.m) (λ r p. inr p)
        (λ r p. elim p [ inl i ↦ absurd (no_member i) | inr q ↦ q ]) h
    where
      no_member : {r : Revision U} → In r [] → ⊥
      no_member i = elim i [ ]
  cache_all-NewestOf (rev ∷ revs) c P k h =
      let c' = cache c (some rev) in
      let same : c'.key_func ≡ c.key_func = key_func-cache_all (rev ∷ []) c in
      let ih = cache_all-NewestOf revs c' (Added rev P) k (
        subst (λ f. NewestOf f k (Added rev P) (lookup k c'.m)) (sym same)
          (cache-NewestOf c P rev k h)) in
      subst (λ f. NewestOf f k (Joined (rev ∷ revs) P) (lookup k (cache_all c' revs).m)) same
        (NewestOf-mono c'.key_func k (Joined revs (Added rev P)) (Joined (rev ∷ revs) P)
          (lookup k (cache_all c' revs).m)
          (λ r p. elim p [
            | inl i ↦ inl (there i)
            | inr q ↦ elim q [ inl e ↦ inl (rw e here) | inr z ↦ inr z ]
          ])
          (λ r p. elim p [
            | inl i ↦ elim (In-cons i) [ inl e ↦ inr (inl e) | inr m ↦ inl m ]
            | inr z ↦ inr (inr z)
          ])
          ih)

  -- Whatever revisions are written to a new cache, in whatever order, the entry of a key is the
  -- revision of that key with the greatest resource version, and there is none exactly if no
  -- revision has that key.
  pub cache_all-new-NewestOf :
      (key_func : KeyFunc U) (revs : List (Revision U)) (k : Str)
      → NewestOf key_func k (λ r. In r revs) (lookup k (cache_all (new key_func) revs).m)
  cache_all-new-NewestOf key_func revs k =
      NewestOf-mono key_func k (Joined revs (λ r. ⊥)) (λ r. In r revs)
        (lookup k (cache_all (new key_func) revs).m)
        (λ r p. elim p [ inl i ↦ i | inr z ↦ absurd z ]) (λ r i. inl i)
        (cache_all-NewestOf revs (new key_func) (λ r. ⊥) k (unfold lookup in λ r z. absurd z))
