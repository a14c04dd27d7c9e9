-- ===== src/Store/Storage/State/Invariant.antt =====
-- What the walk of `State` keeps of its result.
use saiki.Prelude.{
  ◌≡◌, refl, sym, subst, Bool, true, false, ◌||◌, [], Option, none, some, arith, if◌then◌else◌, Str,
  str_eq,
}
use saiki.Golang.Strings.{trim_prefix}
use saiki.Golang.FilePath.{slash}
use saiki.Errors.{Error, Result, ok, err}
use saiki.Store.Revision.{
  RevisionFields, Revision, Body, concrete, unloaded, loaded, resource_key,
  parse_lazy_loading_revision,
}
use saiki.Store.Revision.Lazy.{parse_lazy_loading_revision-unloaded}
use saiki.Store.Backend.{ListObject}
use saiki.Store.Backend.Walk.{walk-inv}
use saiki.Store.Storage.{Env, RevisionStore, content, loaded_with}
use saiki.Store.Storage.State.{
  StateOptions, StateMap, revisions_at, is_foreign, is_left_out, is_newer, put, Found, by_labels,
  visit_revision, is_outside, visit, state_with, state, walk_root,
}

module _ {U : Type 0} (o : StateOptions U) where
  -- The fields are of the key's resource, and pass the options' filters.
  abbrev pub Passes : Str → Revision U → Type 0
  Passes rk r = (resource_key r.fields ≡ rk) × (is_foreign o r ≡ false) × (is_left_out o r ≡ false)

  loaded_with-fields_by :
      (rev : Revision U) (u : U) (b : Body U)
      → rev.body ≡ b
      → (loaded_with rev (ok u)).fields ≡ rev.fields
  unfolding loaded_with
  loaded_with-fields_by rev u (concrete v) e = ground (arith, e)
  loaded_with-fields_by rev u unloaded e = ground (arith, e)
  loaded_with-fields_by rev u (loaded v) e = ground (arith, e)

  abbrev FieldsPass : Str → RevisionFields → Type 0
  FieldsPass rk f = Passes rk (record { fields = f; body = unloaded })

  loaded_with-Passes :
      (rk : Str) (rev : Revision U) (u : U) → Passes rk rev → Passes rk (loaded_with rev (ok u))
  unfolding is_foreign is_left_out
  loaded_with-Passes rk rev u h =
      subst (FieldsPass rk) (sym (loaded_with-fields_by rev u rev.body refl)) h

  -- With a label selector the object was read, and the selector matches it.
  abbrev pub Labels : Option (Result (U → Bool)) → Revision U → Type 0
  Labels none r = Unit
  Labels (some (err e)) r = true ≡ false
  Labels (some (ok selector)) r = (u : U) × (r.body ≡ loaded u) × (selector u ≡ true)

  loaded_with-body :
      (rev : Revision U) (u : U) → rev.body ≡ unloaded → (loaded_with rev (ok u)).body ≡ loaded u
  unfolding loaded_with
  loaded_with-body rev u e = ground (arith, e)

  -- the selector that the walk is made with
  abbrev Chosen : Option (U → Bool) → Type 0
  Chosen none = o.label_selector ≡ none
  Chosen (some selector) = o.label_selector ≡ some (ok selector)

-- An invariant of the result that holds of no revisions, and that every revision keeps that passes
-- the filters of the options.
module _ {U B : Type 0} (env : Env U B) (o : StateOptions U) (I : StateMap U → Type 0)
    (start : I [])
    (closed : (rev : Revision U) (res : StateMap U)
      → Passes o (resource_key rev.fields) rev
      → Labels o o.label_selector rev
      → I res
      → I (put o rev res)) where
  abbrev Kept : Found env o × Option Error → Type 0
  Kept r = I r.0.0

  by_labels-Kept :
      (rev : Revision U) (res : StateMap U) (s : RevisionStore B) (selector : Option (U → Bool))
      → Chosen o selector
      → rev.body ≡ unloaded
      → Passes o (resource_key rev.fields) rev
      → I res
      → Kept (by_labels env o rev (res, s) selector)
  unfolding by_labels
  by_labels-Kept rev res s none k w h a =
      closed rev res h (subst (λ l. Labels o l rev) (sym k) tt) a
  by_labels-Kept rev res s (some selector) k w h a = go (content env rev s).0
    where
      kept :
          (b : Bool) (r : Revision U)
          → (b ≡ true → Labels o o.label_selector r)
          → Passes o (resource_key r.fields) r
          → I (if b then put o r res else res)
      kept true r m p = closed r res p (m refl) a
      kept false r m p = a

      s' : RevisionStore B
      s' = (content env rev s).1

      go :
          (c : Result U)
          → Kept (elim c as (λ _. Found env o × Option Error) [
            | err e ↦ ((res, s'), some e)
            | ok u ↦ ((if selector u then put o (loaded_with rev (ok u)) res else res, s'), none)
          ])
      go (err e) = a
      go (ok u) =
          let p = loaded_with-Passes o (resource_key rev.fields) rev u h in
          kept (selector u) (loaded_with rev (ok u))
            (λ y.
              subst (λ l. Labels o l (loaded_with rev (ok u))) (sym k)
                (u, loaded_with-body o rev u w, y))
            (refl, p.1, p.2)

  if-Kept :
      (b : Bool) (x y : Found env o × Option Error)
      → (b ≡ true → Kept x)
      → (b ≡ false → Kept y)
      → Kept (if b then x else y)
  if-Kept true x y hx hy = hx refl
  if-Kept false x y hx hy = hy refl

  visit_revision-Kept :
      (selector : Option (U → Bool)) (rev : Revision U) (found : Found env o)
      → Chosen o selector
      → rev.body ≡ unloaded
      → I found.0
      → Kept (visit_revision env o selector rev found)
  unfolding visit_revision
  visit_revision-Kept selector rev (res, s) k w a =
      if-Kept (is_foreign o rev) _ _ (λ _. a)
        (λ mine.
          if-Kept (is_left_out o rev) _ _ (λ _. a)
            (λ inside.
              if-Kept (o.all_revisions || is_newer (revisions_at (resource_key rev.fields) res) rev)
                _ _ (λ _. by_labels-Kept rev res s selector k w (refl, mine, inside) a) (λ _. a)))

  parsed-Kept :
      (selector : Option (U → Bool)) (found : Found env o) (r : Result (Revision U))
      → ((rev : Revision U) → r ≡ ok rev → rev.body ≡ unloaded)
      → Chosen o selector
      → I found.0
      → Kept (elim r as (λ _. Found env o × Option Error) [
        | err e ↦ (found, some e)
        | ok rev ↦ visit_revision env o selector rev found
      ])
  parsed-Kept selector found (err e) w k a = a
  parsed-Kept selector found (ok rev) w k a =
      visit_revision-Kept selector rev found k (w rev refl) a

  visit-Kept :
      (selector : Option (U → Bool)) (found : Found env o) (obj : ListObject)
      → Chosen o selector
      → I found.0
      → I (visit env o selector found obj).0.0
  unfolding visit
  visit-Kept selector found obj k a =
      if-Kept (obj.is_dir || is_outside env o obj) _ _ (λ _. a)
        (λ _.
          parsed-Kept selector found
            (parse_lazy_loading_revision {U = U} (trim_prefix slash obj.key))
            (λ rev e. parse_lazy_loading_revision-unloaded (trim_prefix slash obj.key) rev e) k a)

  state_with-invariant :
      (selector : Option (U → Bool)) (s : RevisionStore B)
      → Chosen o selector
      → I (state_with env o selector s).0.0
  unfolding state_with
  state_with-invariant selector s k =
      walk-inv (visit env o selector) (λ found. I found.0)
        (λ found obj. visit-Kept selector found obj k) env.bucket (walk_root o) ([], s) s.backend
        start

  -- the invariant holds of what `State` returns, also beside an error
  pub state-invariant : (s : RevisionStore B) → I (state env o s).0.0
  unfolding state
  state-invariant s = by_selector o.label_selector refl
    where
      by_selector :
          (l : Option (Result (U → Bool)))
          → o.label_selector ≡ l
          → I
              (elim l as (λ _. Found env o × Option Error) [
                | none ↦ state_with env o none s
                | some r ↦ elim r [
                  | err e ↦ (([], s), some e)
                  | ok selector ↦ state_with env o (some selector) s
                ]
              ]).0.0
      by_selector none e = state_with-invariant none s e
      by_selector (some (err x)) e = start
      by_selector (some (ok selector)) e = state_with-invariant (some selector) s e
