-- ===== src/Store/Storage/Latest.antt =====
-- `List`, `latestRevision` and `Get`: which revisions they return.
use mathlib.Core.Bool.{false≢true}
use saiki.Prelude.{
  ◌≡◌, refl, sym, subst, ap, ◌∙◌, ◌⊎◌, inl, inr, Bool, true, false, List, [], ◌∷◌, Option, none,
  some, arith, if◌then◌else◌, Str, All, In, here, there, Bool-cases, All-In,
}
use saiki.Prelude.Int.{pos, ◌≤ℤ◌}
use saiki.Golang.Time.{after, zero_time}
use saiki.Errors.{Result, ok, ◌>>=◌, >>=-eq-ok, ok-injective}
use saiki.Store.Revision.{Revision, RevisionFields, unloaded, resource_key, resource_key_of}
use saiki.Store.RevisionList.{sort, IsSorted, sort-IsSorted}
use saiki.Store.Storage.Listed.{list_revisions-All}
use saiki.Store.Backend.{read_dir}
use saiki.Store.Storage.{
  Env, RevisionStore, parse_all, list_revisions, latest_loop, latest_revision, namespace_get,
  content,
}

module _ {U : Type 0} where
  abbrev pub IsLive : Revision U → Type 0
  IsLive r = r.deleted ≡ false

  -- a timestamp that the program takes for one: after the start of the year 1
  abbrev pub HasTime : Revision U → Type 0
  HasTime r = after r.revision_timestamp zero_time ≡ true

  -- `o` is the revision of the greatest resource version among those of `l` that have a time.
  abbrev pub LatestOf : List (Revision U) → Option (Revision U) → Type 0
  LatestOf l none = All (λ r. after r.revision_timestamp zero_time ≡ false) l
  LatestOf l (some n) =
      In n l × HasTime n × All (λ r. HasTime r → r.resource_version ≤ℤ n.resource_version) l

  -- the loop from a revision that stands before the list
  abbrev LatestFrom : Option (Revision U) → List (Revision U) → Option (Revision U) → Type 0
  LatestFrom before l none = (before ≡ none) × LatestOf l none
  LatestFrom before l (some n) =
      ((before ≡ some n) ⊎ In n l)
      × HasTime n
      × All (λ r. HasTime r → r.resource_version ≤ℤ n.resource_version) l

  abbrev Before : Option (Revision U) → Type 0
  Before none = Unit
  Before (some b) = HasTime b

  loop_taken :
      (before : Option (Revision U)) (r : Revision U) (l : List (Revision U))
      (o : Option (Revision U))
      → HasTime r
      → IsSorted (r ∷ l)
      → LatestFrom (some r) l o
      → LatestFrom before (r ∷ l) o
  loop_taken before r l none t sorted h = absurd (cc (h.0))
  loop_taken before r l (some n) t sorted h = elim h.0 [
    | inl e ↦
        let same : r ≡ n = cc in
        (inr (subst (λ x. In x (r ∷ l)) same here), h.1, ((λ _. rw same (omega arith)), h.2))
    | inr m ↦ (
      inr (there m),
      h.1,
      ((λ _. All-In (λ x. r.resource_version ≤ℤ x.resource_version) sorted.0 m), h.2),
    )
  ]

  loop_passed :
      (before : Option (Revision U)) (r : Revision U) (l : List (Revision U))
      (o : Option (Revision U))
      → after r.revision_timestamp zero_time ≡ false
      → LatestFrom before l o
      → LatestFrom before (r ∷ l) o
  loop_passed before r l none e h = (h.0, (e, h.1))
  loop_passed before r l (some n) e h = (
    elim h.0 [ inl s ↦ inl s | inr m ↦ inr (there m) ],
    h.1,
    ((λ t. absurd (false≢true (sym e ∙ t))), h.2),
  )

  latest_loop-nil : (before : Option (Revision U)) → Before before → LatestFrom before [] before
  latest_loop-nil none h = (refl, tt)
  latest_loop-nil (some b) h = (inl refl, h, tt)

  latest_round :
      (before : Option (Revision U)) (r : Revision U) (l : List (Revision U)) {b : Bool}
      → after r.revision_timestamp zero_time ≡ b
      → latest_loop before (r ∷ l) ≡ latest_loop (if b then some r else before) l
  unfolding latest_loop
  latest_round before r l e = rw (e, latest_loop)

  latest_loop-LatestFrom :
      (before : Option (Revision U)) (l : List (Revision U))
      → Before before
      → IsSorted l
      → LatestFrom before l (latest_loop before l)
  latest_loop-LatestFrom before [] h sorted = unfold latest_loop in latest_loop-nil before h
  latest_loop-LatestFrom before (r ∷ l) h sorted =
      let taken = latest_loop-LatestFrom (some r) l in
      let passed = latest_loop-LatestFrom before l h sorted.1 in
      elim (Bool-cases (after r.revision_timestamp zero_time)) [
        | inl e ↦
            subst (λ o. LatestFrom before (r ∷ l) o) (sym (latest_round before r l e))
              (loop_taken before r l (latest_loop (some r) l) e sorted (taken e sorted.1))
        | inr e ↦
            subst (λ o. LatestFrom before (r ∷ l) o) (sym (latest_round before r l e))
              (loop_passed before r l (latest_loop before l) e passed)
      ]

  from_none : (l : List (Revision U)) (o : Option (Revision U)) → LatestFrom none l o → LatestOf l o
  from_none l none h = h.1
  from_none l (some n) h = (elim h.0 [ inl e ↦ absurd (cc) | inr m ↦ m ], h.1, h.2)

module _ {U B : Type 0} (env : Env U B) (s : RevisionStore B) where
  -- `List` returns only revisions that are not deleted, in the order of their resource versions.
  pub list_revisions-IsSorted-IsLive :
      (v k n m : Str) (l : List (Revision U))
      → list_revisions env v k n m s ≡ ok l
      → IsSorted l × All IsLive l
  unfolding list_revisions
  list_revisions-IsSorted-IsLive v k n m l h =
      let directory = resource_key_of v k n m in
      let (infos, hi, h1) =
        >>=-eq-ok (read_dir env.bucket directory s.backend)
          (λ infos. do revisions ← parse_all {U = U} directory infos; ok (sort revisions)) h in
      let (revisions, hr, h2) =
        >>=-eq-ok (parse_all {U = U} directory infos) (λ revisions. ok (sort revisions)) h1 in
      (
        subst IsSorted (ok-injective h2) (sort-IsSorted revisions),
        list_revisions-All env s v k n m IsLive (λ name r e live. live) l h,
      )

  -- The latest revision of a resource is the live one of the greatest resource version, among those
  -- with a timestamp after the year 1; and there is none only if `List` returns no such revision.
  pub latest_revision-LatestOf :
      (rev : RevisionFields) (o : Option (Revision U))
      → latest_revision env rev s ≡ ok o
      → (l : List (Revision U)) × (list_revisions env rev.api_version rev.kind rev.namespace
            rev.name s
          ≡ ok l)
        × All IsLive l
        × LatestOf l o
  unfolding latest_revision
  latest_revision-LatestOf rev o h =
      let (l, hl, h1) =
        >>=-eq-ok (list_revisions env rev.api_version rev.kind rev.namespace rev.name s)
          (λ revisions. ok (latest_loop none revisions)) h in
      let (sorted, live) =
        list_revisions-IsSorted-IsLive rev.api_version rev.kind rev.namespace rev.name l hl in
      (
        l,
        hl,
        live,
        subst (LatestOf l) (ok-injective h1)
            (from_none l (latest_loop none l) (latest_loop-LatestFrom none l tt sorted)),
      )

  -- the content of a lazy revision, by the names of its resource alone
  abbrev content_by : Str → Str → Str → Str → Result U × RevisionStore B
  content_by v k n m =
      content env
        (record {
          fields = record {
            api_version = v;
            kind = k;
            namespace = n;
            name = m;
            resource_version = pos 0;
            revision_timestamp = pos 0;
            deleted = false;
          };
          body = unloaded;
        })
        s

  content-content_by :
      (a : RevisionFields)
      → content env (record { fields = a; body = unloaded }) s
        ≡ content_by a.api_version a.kind a.namespace a.name
  unfolding content namespace_get resource_key latest_revision
  content-content_by a = refl

  -- Two lazy revisions of one resource have the same content, whatever their resource versions,
  -- timestamps and marks: that of the revision which `Get` returns for the resource.
  pub content-same_resource :
      (a b : RevisionFields)
      → a.api_version ≡ b.api_version
      → a.kind ≡ b.kind
      → a.namespace ≡ b.namespace
      → a.name ≡ b.name
      → content env (record { fields = a; body = unloaded }) s
        ≡ content env (record { fields = b; body = unloaded }) s
  content-same_resource a b ev ek en em =
      content-content_by a
      ∙ ap (λ v. content_by v a.kind a.namespace a.name) ev
      ∙ ap (λ k. content_by b.api_version k a.namespace a.name) ek
      ∙ ap (λ n. content_by b.api_version b.kind n a.name) en
      ∙ ap (λ m. content_by b.api_version b.kind b.namespace m) em
      ∙ sym (content-content_by b)
