-- ===== src/Store/Revision/Lazy.antt =====
-- `ParseLazyLoadingRevision` of pkg/store/revision.go loads nothing.
use saiki.Prelude.{◌≡◌, refl, subst, Str}
use saiki.Errors.{ok, >>=-eq-ok, ok-injective}
use saiki.Golang.Strings.{split}
use saiki.Golang.FilePath.{slash}
use saiki.Store.Revision.{Revision, unloaded, parse_lazy_loading_revision, parse_split, with_group}

-- A revision that is parsed has no object yet.
pub parse_lazy_loading_revision-unloaded :
    {U : Type 0} (path : Str) (r : Revision U)
    → parse_lazy_loading_revision path ≡ ok r
    → r.body ≡ unloaded
unfolding parse_lazy_loading_revision
parse_lazy_loading_revision-unloaded {U} path r h =
    let (fields, hf, e) =
      >>=-eq-ok (parse_split path (with_group (split slash path)))
        (λ fields. ok (record { fields = fields; body = unloaded })) h in
    subst (λ (q : Revision U). q.body ≡ unloaded) (ok-injective e) refl
