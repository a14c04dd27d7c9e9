-- ===== src/Store/Backend/Walk.antt =====
-- `Walk` and its set of skipped directories against the loop that calls the closure on every object.
use saiki.Prelude.{
  ◌≡◌, ◌≢◌, refl, ◌⊎◌, inl, inr, Bool, true, false, List, [], ◌∷◌, Option, none, some, arith, Str,
  str_eq, In, here, there, Bool-cases,
}
use saiki.Golang.FilePath.{dir}
use saiki.Errors.{Error, skip_dir}
use saiki.Util.{slice_in, slice_in-In}
use saiki.Store.Backend.{Bucket, walk, ListObject, WalkFunc, walk_loop}

SkipDir-cases : (o : Option Error) → (o ≡ some skip_dir) ⊎ (o ≢ some skip_dir)
SkipDir-cases none = inr (λ e. cc)
SkipDir-cases (some skip_dir) = inl refl
SkipDir-cases (some x) = inr (λ e. cc)

module _ {A : Type 0} (walk_fn : WalkFunc A) where
  -- Every object is visited; `SkipDir` is no reason to stop.
  pub visit_all : A → List ListObject → Option Error → A × Option Error
  visit_all acc [] ended = (acc, ended)
  visit_all acc (obj ∷ objs) ended =
      let (acc', e) = walk_fn acc obj in
      elim e [
        | none ↦ visit_all acc' objs ended
        | some x ↦ elim x [ skip_dir ↦ visit_all acc' objs ended | other ↦ (acc', some other) ]
      ]

  -- On the objects of the list that stand in the directory the closure leaves its variables alone,
  -- and returns nil or asks to skip.
  abbrev pub Ignores : List ListObject → Str → Type 0
  Ignores objs d =
      (acc : A) (obj : ListObject)
      → In obj objs
      → dir obj.key ≡ d
      → ((walk_fn acc obj).0 ≡ acc)
        × (((walk_fn acc obj).1 ≡ none) ⊎ ((walk_fn acc obj).1 ≡ some skip_dir))

  -- Where it asks to skip a directory, it ignores the objects there.
  abbrev pub SkipsWhole : List ListObject → Type 0
  SkipsWhole objs =
      (acc : A) (obj : ListObject)
      → In obj objs
      → (walk_fn acc obj).1 ≡ some skip_dir
      → Ignores objs (dir obj.key)

  module _ (listed : List ListObject) (whole : SkipsWhole listed) where
    abbrev AllSkipped : List Str → Type 0
    AllSkipped skipped = (d : Str) → In d skipped → Ignores listed d

    cons_skipped :
        (d : Str) (skipped : List Str)
        → Ignores listed d
        → AllSkipped skipped
        → AllSkipped (d ∷ skipped)
    cons_skipped d skipped hd h e here = hd
    cons_skipped d skipped hd h e (there m) = h e m

    abbrev Agrees : List Str → A → List ListObject → Option Error → Type 0
    Agrees skipped acc objs ended =
        walk_loop walk_fn skipped acc objs ended ≡ visit_all acc objs ended

    visited_skip :
        (skipped : List Str) (acc : A) (obj : ListObject) (objs : List ListObject)
        (ended : Option Error)
        → slice_in skipped (dir obj.key) ≡ false
        → (walk_fn acc obj).1 ≡ some skip_dir
        → Agrees (dir obj.key ∷ skipped) (walk_fn acc obj).0 objs ended
        → Agrees skipped acc (obj ∷ objs) ended
    unfolding walk_loop visit_all
    visited_skip skipped acc obj objs ended out e more = ground (arith, out, e, more)

    visited :
        (skipped : List Str) (acc : A) (obj : ListObject) (objs : List ListObject)
        (ended o : Option Error)
        → slice_in skipped (dir obj.key) ≡ false
        → (walk_fn acc obj).1 ≡ o
        → o ≢ some skip_dir
        → Agrees skipped (walk_fn acc obj).0 objs ended
        → Agrees skipped acc (obj ∷ objs) ended
    unfolding walk_loop visit_all
    visited skipped acc obj objs ended none out e ne same = ground (arith, out, e, same)
    visited skipped acc obj objs ended (some skip_dir) out e ne same = absurd (ne refl)
    visited skipped acc obj objs ended (some x) out e ne same = ground (arith, out, e)

    skipped_already :
        (skipped : List Str) (acc : A) (obj : ListObject) (objs : List ListObject)
        (ended : Option Error)
        → slice_in skipped (dir obj.key) ≡ true
        → (walk_fn acc obj).0 ≡ acc
        → ((walk_fn acc obj).1 ≡ none) ⊎ ((walk_fn acc obj).1 ≡ some skip_dir)
        → Agrees skipped acc objs ended
        → Agrees skipped acc (obj ∷ objs) ended
    unfolding walk_loop visit_all
    skipped_already skipped acc obj objs ended out same (inl e) more =
        ground (arith, out, same, e, more)
    skipped_already skipped acc obj objs ended out same (inr e) more =
        ground (arith, out, same, e, more)

    by_outcome :
        (skipped : List Str) (acc : A) (obj : ListObject) (objs : List ListObject)
        (ended : Option Error)
        → In obj listed
        → AllSkipped skipped
        → slice_in skipped (dir obj.key) ≡ false
        → Agrees skipped (walk_fn acc obj).0 objs ended
        → (AllSkipped (dir obj.key ∷ skipped)
            → Agrees (dir obj.key ∷ skipped) (walk_fn acc obj).0 objs ended)
        → Agrees skipped acc (obj ∷ objs) ended
    by_outcome skipped acc obj objs ended i h out same more =
        elim (SkipDir-cases (walk_fn acc obj).1) [
          | inl e ↦
              visited_skip skipped acc obj objs ended out e
                (more (cons_skipped (dir obj.key) skipped (whole acc obj i e) h))
          | inr ne ↦ visited skipped acc obj objs ended (walk_fn acc obj).1 out refl ne same
        ]

    walk_loop-visit_all :
        (objs : List ListObject) (skipped : List Str) (acc : A) (ended : Option Error)
        → ((obj : ListObject) → In obj objs → In obj listed)
        → AllSkipped skipped
        → Agrees skipped acc objs ended
    walk_loop-visit_all [] skipped acc ended i h = unfold walk_loop visit_all in refl
    walk_loop-visit_all (obj ∷ objs) skipped acc ended i h =
        let ih =
          λ (k : List Str) (a : A). walk_loop-visit_all objs k a ended (λ x m. i x (there m)) in
        let acc' = (walk_fn acc obj).0 in
        elim (Bool-cases (slice_in skipped (dir obj.key))) [
          | inl out ↦
              let ignored =
                h (dir obj.key) (slice_in-In skipped (dir obj.key) out) acc obj (i obj here) refl in
              skipped_already skipped acc obj objs ended out ignored.0 ignored.1 (ih skipped acc h)
          | inr out ↦
              by_outcome skipped acc obj objs ended (i obj here) h out (ih skipped acc' h)
                (ih (dir obj.key ∷ skipped) acc')
        ]

  -- Skipping directories is only an optimisation: if the closure, where it asks to skip a directory,
  -- leaves its variables alone on every listed object there and stops at none of them, `Walk` ends
  -- with the variables and the error of the loop that calls it on every object.
  pub walk-visit_all :
      {B : Type 0} (bucket : Bucket B) (root : Str) (acc : A) (s : B)
      → SkipsWhole (bucket.list root [] s).objects
      → walk bucket root walk_fn acc s
        ≡ visit_all acc (bucket.list root [] s).objects (bucket.list root [] s).ended
  unfolding walk
  walk-visit_all bucket root acc s whole =
      walk_loop-visit_all (bucket.list root [] s).objects whole (bucket.list root [] s).objects []
        acc (bucket.list root [] s).ended (λ x m. m) (λ d m. elim m [ ])

  -- What every call of the closure keeps, the walk keeps, whether or not it ends with an error.
  walk_loop-inv :
      (P : A → Type 0)
      → ((acc : A) (obj : ListObject) → P acc → P (walk_fn acc obj).0)
      → (objs : List ListObject) (skipped : List Str) (acc : A) (ended : Option Error) → P acc
      → P (walk_loop walk_fn skipped acc objs ended).0
  unfolding walk_loop
  walk_loop-inv P keep [] skipped acc ended h = h
  walk_loop-inv P keep (obj ∷ objs) skipped acc ended h =
      let acc' = (walk_fn acc obj).0 in
      let h' = keep acc obj h in
      go (slice_in skipped (dir obj.key)) (walk_fn acc obj).1
        (walk_loop-inv P keep objs skipped acc ended h)
        (walk_loop-inv P keep objs skipped acc' ended h')
        (walk_loop-inv P keep objs (dir obj.key ∷ skipped) acc' ended h') h'
    where
      go :
          (b : Bool) (e : Option Error)
          → P (walk_loop walk_fn skipped acc objs ended).0
          → P (walk_loop walk_fn skipped (walk_fn acc obj).0 objs ended).0
          → P (walk_loop walk_fn (dir obj.key ∷ skipped) (walk_fn acc obj).0 objs ended).0
          → P (walk_fn acc obj).0
          → P
              (elim b as (λ _. A × Option Error) [
                | true ↦ walk_loop walk_fn skipped acc objs ended
                | false ↦ elim e [
                  | none ↦ walk_loop walk_fn skipped (walk_fn acc obj).0 objs ended
                  | some x ↦ elim x [
                    | skip_dir ↦
                        walk_loop walk_fn (dir obj.key ∷ skipped) (walk_fn acc obj).0 objs ended
                    | other ↦ ((walk_fn acc obj).0, some other)
                  ]
                ]
              ]).0
      go true e h1 h2 h3 h4 = h1
      go false none h1 h2 h3 h4 = h2
      go false (some skip_dir) h1 h2 h3 h4 = h3
      go false (some x) h1 h2 h3 h4 = h4

  pub walk-inv :
      (P : A → Type 0)
      → ((acc : A) (obj : ListObject) → P acc → P (walk_fn acc obj).0)
      → {B : Type 0} (bucket : Bucket B) (root : Str) (acc : A) (s : B) → P acc
      → P (walk bucket root walk_fn acc s).0
  unfolding walk
  walk-inv P keep bucket root acc s h =
      walk_loop-inv P keep (bucket.list root [] s).objects [] acc (bucket.list root [] s).ended h
