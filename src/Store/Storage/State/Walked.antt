-- ===== src/Store/Storage/State/Walked.antt =====
-- The whole walk of `State` of pkg/store/storage.go.
use saiki.Prelude.{
  ◌≡◌, refl, sym, Bool, true, false, List, [], ◌∷◌, Option, none, some, Str, In, here, there,
  str_eq,
}
use saiki.Prelude.{inl}
use saiki.Prelude.Dict.{lookup}
use saiki.Golang.FilePath.{dir}
use saiki.Errors.{Error, skip_dir, Result, ok, err}
use saiki.Util.{slice_in, slice_in-In}
use saiki.Store.Revision.{Revision, resource_key}
use saiki.Store.Backend.{ListObject, walk_loop, walk}
use saiki.Store.Storage.{Env, RevisionStore}
use saiki.Store.Storage.State.{
  StateOptions, StateMap, is_foreign, Found, visit, state_with, state, walk_root,
}
use saiki.Store.Storage.State.Newest.{Parsed, OneResource, At, Single, Grows, Kept, Step}
use saiki.Store.Storage.State.Visited.{visit-Step}

never_none : {A : Type 0} {a : A} → some a ≡ none → ⊥
never_none e = cc

module _ {U B : Type 0} (env : Env U B) (o : StateOptions U) (objs : List ListObject) where
  -- each skipped directory has a file of another resource
  abbrev AllForeign : List Str → Type 0
  AllForeign skipped =
      (d : Str)
      → In d skipped
      → (obj : ListObject) × (rev : Revision U) × In obj objs
        × (dir obj.key ≡ d)
        × Parsed env o objs obj rev
        × (is_foreign o rev ≡ true)

  abbrev Covers : List ListObject → StateMap U → StateMap U → Type 0
  Covers rest res res' =
      Grows env o objs res res'
      × ((obj : ListObject) (rev : Revision U)
          → In obj rest
          → Kept env o objs obj rev
          → At env o objs res' (resource_key rev.fields) rev.revision_timestamp)

  cons_foreign :
      (obj : ListObject) (rev : Revision U) (skipped : List Str)
      → In obj objs
      → Parsed env o objs obj rev
      → is_foreign o rev ≡ true
      → AllForeign skipped
      → AllForeign (dir obj.key ∷ skipped)
  cons_foreign obj rev skipped m p f h d here = (obj, rev, m, refl, p, f)
  cons_foreign obj rev skipped m p f h d (there i) = h d i

  -- an object in a skipped directory is not kept
  skipped_left :
      (obj : ListObject) (rev : Revision U) (skipped : List Str)
      → OneResource env o objs
      → AllForeign skipped
      → In obj objs
      → slice_in skipped (dir obj.key) ≡ true
      → Kept env o objs obj rev
      → ⊥
  skipped_left obj rev skipped one h m e (p, f, l) =
      let (obj', rev', m', d, p', f') = h (dir obj.key) (slice_in-In skipped (dir obj.key) e) in
      cc (f, f', one obj obj' rev rev' m m' (sym d) p p')

  cons-Covers :
      (obj : ListObject) (rest : List ListObject) (res res' res'' : StateMap U)
      → Grows env o objs res res'
      → ((rev : Revision U)
          → Kept env o objs obj rev
          → At env o objs res' (resource_key rev.fields) rev.revision_timestamp)
      → Covers rest res' res''
      → Covers (obj ∷ rest) res res''
  cons-Covers obj rest res res' res'' g k (g', c) =
      ((λ rk t at. g' rk t (g rk t at)), (λ obj' rev i p. by_place obj' rev i p))
    where
      by_place :
          (obj' : ListObject) (rev : Revision U)
          → In obj' (obj ∷ rest)
          → Kept env o objs obj' rev
          → At env o objs res'' (resource_key rev.fields) rev.revision_timestamp
      by_place obj' rev here p = g' (resource_key rev.fields) rev.revision_timestamp (k rev p)
      by_place obj' rev (there i) p = c obj' rev i p

  abbrev after_visit :
      List Str
      → ListObject
      → List ListObject
      → Option Error
      → Found env o
      → Option Error
      → Found env o × Option Error
  after_visit skipped obj rest ended found' e = elim e [
    | none ↦ walk_loop (visit env o none) skipped found' rest ended
    | some x ↦ elim x [
      | skip_dir ↦ walk_loop (visit env o none) (dir obj.key ∷ skipped) found' rest ended
      | other ↦ (found', some other)
    ]
  ]

  -- the loop on the rest covers it
  abbrev Continues : List ListObject → Option Error → Type 0
  Continues rest ended =
      (skipped : List Str) (found : Found env o)
      → AllForeign skipped
      → Single env o objs found.0
      → (walk_loop (visit env o none) skipped found rest ended).1 ≡ none
      → Covers rest found.0 (walk_loop (visit env o none) skipped found rest ended).0.0

  visited-Covers :
      (skipped : List Str) (obj : ListObject) (rest : List ListObject) (ended : Option Error)
      (found : Found env o) (found' : Found env o) (e : Option Error)
      → Continues rest ended
      → In obj objs
      → AllForeign skipped
      → Step env o objs obj found.0 (found'.0, e)
      → (after_visit skipped obj rest ended found' e).1 ≡ none
      → Covers (obj ∷ rest) found.0 (after_visit skipped obj rest ended found' e).0.0
  visited-Covers skipped obj rest ended found found' none ih m f (h, g, k, s) e =
      cons-Covers obj rest found.0 found'.0 _ g k (ih skipped found' f h e)
  visited-Covers skipped obj rest ended found found' (some skip_dir) ih m f (h, g, k, s) e =
      let (rev, p, foreign) = s refl in
      cons-Covers obj rest found.0 found'.0 _ g k
        (ih (dir obj.key ∷ skipped) found' (cons_foreign obj rev skipped m p foreign f) h e)
  visited-Covers skipped obj rest ended found found' (some x) ih m f (h, g, k, s) e =
      absurd (never_none e)

  skipped-Covers :
      (skipped : List Str) (obj : ListObject) (rest : List ListObject) (res res' : StateMap U)
      → OneResource env o objs
      → ((x : ListObject) → In x (obj ∷ rest) → In x objs)
      → AllForeign skipped
      → slice_in skipped (dir obj.key) ≡ true
      → Covers rest res res'
      → Covers (obj ∷ rest) res res'
  skipped-Covers skipped obj rest res res' one sub f b (g, c) = (g, by_place)
    where
      by_place :
          (obj' : ListObject) (rev : Revision U)
          → In obj' (obj ∷ rest)
          → Kept env o objs obj' rev
          → At env o objs res' (resource_key rev.fields) rev.revision_timestamp
      by_place obj' rev here p = absurd (skipped_left obj rev skipped one f (sub obj here) b p)
      by_place obj' rev (there i) p = c obj' rev i p

  by_skipped :
      (skipped : List Str) (obj : ListObject) (rest : List ListObject) (ended : Option Error)
      (found : Found env o) (b : Bool)
      → slice_in skipped (dir obj.key) ≡ b
      → o.all_revisions ≡ false
      → OneResource env o objs
      → ((x : ListObject) → In x (obj ∷ rest) → In x objs)
      → AllForeign skipped
      → Single env o objs found.0
      → Continues rest ended
      → (elim b as (λ _. Found env o × Option Error) [
        | true ↦ walk_loop (visit env o none) skipped found rest ended
        | false ↦
            after_visit skipped obj rest ended
              (visit env o none found obj).0
              (visit env o none found obj).1
      ]).1
        ≡ none
      → Covers
          (obj ∷ rest)
          found.0
          (elim b as (λ _. Found env o × Option Error) [
            | true ↦ walk_loop (visit env o none) skipped found rest ended
            | false ↦
                after_visit skipped obj rest ended
                  (visit env o none found obj).0
                  (visit env o none found obj).1
          ]).0.0
  by_skipped skipped obj rest ended found true b a one sub f h ih e =
      skipped-Covers skipped obj rest found.0 _ one sub f b (ih skipped found f h e)
  by_skipped skipped obj rest ended found false b a one sub f h ih e =
      visited-Covers skipped obj rest ended found (visit env o none found obj).0
        (visit env o none found obj).1 ih (sub obj here) f
        (visit-Step env o objs obj found a (sub obj here) h) e

  walk_loop-Covers :
      (rest : List ListObject) (ended : Option Error)
      → o.all_revisions ≡ false
      → OneResource env o objs
      → ((x : ListObject) → In x rest → In x objs)
      → Continues rest ended
  unfolding walk_loop
  walk_loop-Covers [] ended a one sub skipped found f h e =
      ((λ rk t at. at), (λ obj rev i k. elim i [ ]))
  walk_loop-Covers (obj ∷ rest) ended a one sub skipped found f h e =
      by_skipped skipped obj rest ended found (slice_in skipped (dir obj.key)) refl a one sub f h
        (walk_loop-Covers rest ended a one (λ x i. sub x (there i))) e

module _ {U B : Type 0} (env : Env U B) (o : StateOptions U) (s : RevisionStore B) where
  -- what the walk goes through
  abbrev pub listing : List ListObject
  listing = (env.bucket.list (walk_root o) [] s.backend).objects

  state_with-At :
      (obj : ListObject) (rev : Revision U)
      → o.all_revisions ≡ false
      → OneResource env o listing
      → (state_with env o none s).1 ≡ none
      → In obj listing
      → Kept env o listing obj rev
      → At env o listing
          (state_with env o none s).0.0
          (resource_key rev.fields)
          rev.revision_timestamp
  unfolding state_with walk lookup
  state_with-At obj rev a one e i k =
      (walk_loop-Covers env o listing listing (env.bucket.list (walk_root o) [] s.backend).ended a
          one (λ x i. i) [] ([], s) (λ d m. elim m [ ]) (λ rk. inl refl) e).1
        obj rev i k

  -- If `State` ends without an error, and neither a label selector nor all revisions are asked for,
  -- then for every file of the walk whose revision passes the options' filters the result holds just
  -- one revision at its resource's key, which is that of a file of the walk and no older. The files of
  -- one directory are taken to be of one resource, as far as the options ask for it.
  pub state-At :
      (obj : ListObject) (rev : Revision U)
      → o.label_selector ≡ none
      → o.all_revisions ≡ false
      → OneResource env o listing
      → (state env o s).1 ≡ none
      → In obj listing
      → Kept env o listing obj rev
      → At env o listing (state env o s).0.0 (resource_key rev.fields) rev.revision_timestamp
  unfolding state
  state-At obj rev sel a one e i k = selected o.label_selector sel e
    where
      selected :
          (l : Option (Result (U → Bool)))
          → l ≡ none
          → (elim l as (λ _. Found env o × Option Error) [
            | none ↦ state_with env o none s
            | some r ↦ elim r [
              | err e ↦ (([], s), some e)
              | ok selector ↦ state_with env o (some selector) s
            ]
          ]).1
            ≡ none
          → At env o listing
              (elim l as (λ _. Found env o × Option Error) [
                | none ↦ state_with env o none s
                | some r ↦ elim r [
                  | err e ↦ (([], s), some e)
                  | ok selector ↦ state_with env o (some selector) s
                ]
              ]).0.0
              (resource_key rev.fields)
              rev.revision_timestamp
      selected none q e = state_with-At obj rev a one e i k
      selected (some r) q e = cc
