-- ===== src/Store/Storage/State/Visited.antt =====
-- One call of the closure of `State` of pkg/store/storage.go.
use saiki.Prelude.{
  ◌≡◌, refl, sym, subst, ap, ◌∙◌, Bool, true, false, ◌||◌, List, Option, none, some, if◌then◌else◌,
  str_eq, In,
}
use saiki.Golang.Strings.{trim_prefix}
use saiki.Golang.FilePath.{slash}
use saiki.Errors.{Error, skip_dir, ok, ok-injective, Result, err}
use saiki.Store.Revision.{Revision, resource_key, parse_lazy_loading_revision}
use saiki.Store.Backend.{ListObject}
use saiki.Store.Storage.{Env}
use saiki.Store.Storage.State.{
  StateOptions, StateMap, revisions_at, is_foreign, is_left_out, is_newer, put, Found, by_labels,
  visit_revision, is_outside, visit,
}
use saiki.Store.Revision.NoSkip.{parse_never_skips}
use saiki.Store.Storage.State.Newest.{
  Parsed, Listed, At, Single, Kept, Step, put-Single, put-Grows, put-At, older_than, some-injective,
}

module _ {U B : Type 0} (env : Env U B) (o : StateOptions U) (objs : List ListObject) where
  -- the step of a closure that leaves the result alone, on an object that is not kept
  idle-Step :
      (obj : ListObject) (res : StateMap U) (e : Option Error)
      → Single env o objs res
      → ((rev : Revision U)
          → Kept env o objs obj rev
          → At env o objs res (resource_key rev.fields) rev.revision_timestamp)
      → (e ≡ some skip_dir
          → (rev : Revision U) × Parsed env o objs obj rev × (is_foreign o rev ≡ true))
      → Step env o objs obj res (res, e)
  idle-Step obj res e h k f = (h, (λ rk t at. at), k, f)

  no_skip :
      (obj : ListObject)
      → none ≡ some skip_dir
      → (rev : Revision U) × Parsed env o objs obj rev × (is_foreign o rev ≡ true)
  no_skip obj e = cc

  same_revision :
      (obj : ListObject) (rev rev' : Revision U)
      → Parsed env o objs obj rev
      → Parsed env o objs obj rev'
      → rev ≡ rev'
  same_revision obj rev rev' h h' = ok-injective (sym h.1 ∙ h'.1)

  -- what the closure returns, without the store
  abbrev pub out_of : Found env o × Option Error → StateMap U × Option Error
  out_of r = (r.0.0, r.1)

  visit_revision-Step :
      (obj : ListObject) (rev : Revision U) (found : Found env o)
      → o.all_revisions ≡ false
      → In obj objs
      → Parsed env o objs obj rev
      → Single env o objs found.0
      → Step env o objs obj found.0 (out_of (visit_revision env o none rev found))
  unfolding visit_revision by_labels
  visit_revision-Step obj rev (res, s) a m p h =
      foreign (is_foreign o rev) (is_left_out o rev)
        (o.all_revisions || is_newer (revisions_at (resource_key rev.fields) res) rev) refl refl
        (ap (λ b. b || is_newer (revisions_at (resource_key rev.fields) res) rev) a)
    where
      l : Listed env o objs rev
      l = (obj, m, p)

      not_kept :
          (f x : Bool)
          → is_foreign o rev ≡ f
          → is_left_out o rev ≡ x
          → (f || x) ≡ true
          → (rev' : Revision U) → Kept env o objs obj rev'
          → At env o objs res (resource_key rev'.fields) rev'.revision_timestamp
      not_kept f x ef ex t rev' (p', ef', ex') =
          let e = same_revision obj rev' rev p' p in
          absurd (cc (sym ef, sym ex, ap (is_foreign o) e, ap (is_left_out o) e, ef', ex', t))

      foreign :
          (f x n : Bool)
          → is_foreign o rev ≡ f
          → is_left_out o rev ≡ x
          → n ≡ is_newer (revisions_at (resource_key rev.fields) res) rev
          → Step env o objs obj res (
              out_of (
                let r : Found env o × Option Error =
                  if f
                  then ((res, s), some skip_dir)
                  else if x
                  then ((res, s), none)
                  else if n
                  then ((put o rev res, s), none)
                  else ((res, s), none) in
                r))
      foreign true x n ef ex en =
          idle-Step obj res (some skip_dir) h (not_kept true x ef ex refl) (λ e. (rev, p, ef))
      foreign false true n ef ex en =
          idle-Step obj res none h (not_kept false true ef ex refl) (no_skip obj)
      foreign false false true ef ex en = (
        put-Single env o objs rev res a l h,
        put-Grows env o objs rev res a l (sym en),
        (λ rev' k.
            subst (λ r. At env o objs (put o rev res) (resource_key r.fields) r.revision_timestamp)
              (same_revision obj rev rev' p k.0) (put-At env o objs rev res a l)),
        no_skip obj,
      )
      foreign false false false ef ex en =
          idle-Step obj res none h
            (λ rev' k.
              subst (λ r. At env o objs res (resource_key r.fields) r.revision_timestamp)
                (same_revision obj rev rev' p k.0)
                (older_than env o objs rev (revisions_at (resource_key rev.fields) res)
                  (h (resource_key rev.fields)) (sym en)))
            (no_skip obj)

  pub visit-Step :
      (obj : ListObject) (found : Found env o)
      → o.all_revisions ≡ false
      → In obj objs
      → Single env o objs found.0
      → Step env o objs obj found.0 (out_of (visit env o none found obj))
  unfolding visit
  visit-Step obj found a m h =
      outside (obj.is_dir || is_outside env o obj) refl
        (parse_lazy_loading_revision {U = U} (trim_prefix slash obj.key)) refl
    where
      outside :
          (b : Bool)
          → (obj.is_dir || is_outside env o obj) ≡ b
          → (r : Result (Revision U))
          → parse_lazy_loading_revision {U = U} (trim_prefix slash obj.key) ≡ r
          → Step env o objs obj found.0 (
              out_of (
                let x : Found env o × Option Error =
                  if b then (found, none) else elim r as (λ _. Found env o × Option Error) [
                    | err e ↦ (found, some e)
                    | ok rev ↦ visit_revision env o none rev found
                  ] in
                x))
      outside true eb r er =
          idle-Step obj found.0 none h (λ rev k. absurd (cc (sym eb, k.0.0))) (no_skip obj)
      outside false eb (err e) er =
          idle-Step obj found.0 (some e) h (λ rev k. absurd (cc (sym er, k.0.1)))
            (λ s. absurd (parse_never_skips (trim_prefix slash obj.key) e er (some-injective s)))
      outside false eb (ok rev) er = visit_revision-Step obj rev found a m (eb, er) h
