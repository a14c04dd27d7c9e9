-- ===== src/Store/Storage/State/Skipped.antt =====
-- The closure of `State` of pkg/store/storage.go asks to skip whole directories.
use saiki.Prelude.{
  ◌≡◌, refl, sym, ap, ◌∙◌, ◌⊎◌, inl, inr, Bool, true, false, ◌||◌, List, Option, none, some, In,
  if◌then◌else◌, str_eq, Bool-cases,
}
use saiki.Golang.Strings.{trim_prefix}
use saiki.Golang.FilePath.{slash}
use saiki.Errors.{Error, skip_dir, ok}
use saiki.Store.Revision.{Revision, resource_key, parse_lazy_loading_revision}
use saiki.Store.Backend.{ListObject}
use saiki.Store.Backend.Walk.{SkipsWhole}
use saiki.Store.Storage.{Env}
use saiki.Store.Storage.State.{
  StateOptions, Found, revisions_at, is_foreign, is_left_out, is_newer, by_labels, visit_revision,
  is_outside, visit,
}
use saiki.Store.Storage.State.Newest.{OneResource, Parsed}

module _ {U B : Type 0} (env : Env U B) (o : StateOptions U) (objs : List ListObject) where
  -- Every file that is not at the root has a name that can be parsed.
  abbrev pub AllParsed : Type 0
  AllParsed =
      (obj : ListObject)
      → In obj objs
      → (obj.is_dir || is_outside env o obj) ≡ false
      → (rev : Revision U) × (parse_lazy_loading_revision {U = U} (trim_prefix slash obj.key)
          ≡ ok rev)

  if-skip :
      (b : Bool) (x y : Found env o × Option Error)
      → (if b then x else y).1 ≡ some skip_dir
      → ((b ≡ true) × (x.1 ≡ some skip_dir)) ⊎ ((b ≡ false) × (y.1 ≡ some skip_dir))
  if-skip true x y h = inl (refl, h)
  if-skip false x y h = inr (refl, h)

  -- without a selector only a foreign revision asks to skip
  foreign_skips :
      (rev : Revision U) (found : Found env o)
      → (visit_revision env o none rev found).1 ≡ some skip_dir
      → is_foreign o rev ≡ true
  unfolding visit_revision by_labels
  foreign_skips rev (res, s) h = elim (if-skip (is_foreign o rev) _ _ h) [
    | inl (y, e) ↦ y
    | inr (n, e) ↦ elim (if-skip (is_left_out o rev) _ _ e) [
      | inl (y, e) ↦ absurd (cc e)
      | inr (n, e) ↦
          elim (if-skip
            (o.all_revisions || is_newer (revisions_at (resource_key rev.fields) res) rev) _ _ e) [
              | inl (y, e) ↦ absurd (cc e)
              | inr (n, e) ↦ absurd (cc e)
            ]
    ]
  ]

  visit_foreign :
      (rev : Revision U) (found : Found env o)
      → is_foreign o rev ≡ true
      → visit_revision env o none rev found ≡ (found, some skip_dir)
  unfolding visit_revision
  visit_foreign rev (res, s) h = rw h refl

  visit-Parsed :
      (obj : ListObject) (rev : Revision U) (found : Found env o)
      → Parsed env o objs obj rev
      → visit env o none found obj ≡ visit_revision env o none rev found
  unfolding visit
  visit-Parsed obj rev found (f, p) = rw (f, p) refl

  visit-outside :
      (obj : ListObject) (found : Found env o)
      → (obj.is_dir || is_outside env o obj) ≡ true
      → visit env o none found obj ≡ (found, none)
  unfolding visit
  visit-outside obj found h = rw h refl

  -- Without a label selector, if all files are parsed and those of one directory are of one
  -- resource, as far as the options ask for it.
  pub visit-SkipsWhole : AllParsed → OneResource env o objs → SkipsWhole (visit env o none) objs
  visit-SkipsWhole parsed one acc obj i e acc' obj' i' d =
      elim (Bool-cases (obj.is_dir || is_outside env o obj)) [
        | inl y ↦
            absurd
              (cc (sym e ∙ ap (λ (x : Found env o × Option Error). x.1) (visit-outside obj acc y)))
        | inr n ↦
            let (rev, p) = parsed obj i n in
            let skipped = foreign_skips rev acc (
              sym (ap (λ (x : Found env o × Option Error). x.1) (visit-Parsed obj rev acc (n, p)))
              ∙ e) in
            elim (Bool-cases (obj'.is_dir || is_outside env o obj')) [
              | inl y' ↦
                  let v = visit-outside obj' acc' y' in
                  (
                    ap (λ (x : Found env o × Option Error). x.0) v,
                    inl (ap (λ (x : Found env o × Option Error). x.1) v),
                  )
              | inr n' ↦
                  let (rev', p') = parsed obj' i' n' in
                  let v =
                    visit-Parsed obj' rev' acc' (n', p')
                    ∙ visit_foreign rev' acc'
                        (one obj' obj rev' rev i' i d (n', p') (n, p) ∙ skipped) in
                  (
                    ap (λ (x : Found env o × Option Error). x.0) v,
                    inr (ap (λ (x : Found env o × Option Error). x.1) v),
                  )
            ]
      ]
