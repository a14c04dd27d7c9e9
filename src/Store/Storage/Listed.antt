-- ===== src/Store/Storage/Listed.antt =====
-- What holds of every revision that `List` of pkg/store/storage.go returns.
use saiki.Prelude.{
  ◌≡◌, sym, subst, inl, inr, Bool, false, List, [], ◌∷◌, if◌then◌else◌, Str, All, Bool-cases,
}
use saiki.Errors.{ok, ◌>>=◌, >>=-eq-ok, ok-injective}
use saiki.Store.Revision.{Revision, revision_key_of, resource_key_of, parse_lazy_loading_revision}
use saiki.Store.RevisionList.{sort, sort-All}
use saiki.Store.Backend.{read_dir}
use saiki.Store.Storage.{Env, RevisionStore, parse_all, list_revisions}

module _ {U : Type 0} (P : Revision U → Type 0) (directory : Str)
    (parsed : (name : Str) (r : Revision U)
      → parse_lazy_loading_revision (revision_key_of directory name) ≡ ok r
      → r.deleted ≡ false
      → P r) where
  parse_all-All :
      (names : List Str) (l : List (Revision U)) → parse_all directory names ≡ ok l → All P l
  unfolding parse_all
  parse_all-All [] l h = subst (All P) (ok-injective h) tt
  parse_all-All (name ∷ names) l h =
      let (r, hr, h1) =
        >>=-eq-ok (parse_lazy_loading_revision {U = U} (revision_key_of directory name))
          (λ r. do rest ← parse_all directory names; ok (if r.deleted then rest else r ∷ rest)) h in
      let (rest, hrest, h2) =
        >>=-eq-ok (parse_all directory names) (λ rest. ok (if r.deleted then rest else r ∷ rest))
          h1 in
      let ih = parse_all-All names rest hrest in
      subst (All P) (ok-injective h2) (elim (Bool-cases r.deleted) [
        | inl e ↦ subst (λ (b : Bool). All P (if b then rest else r ∷ rest)) (sym e) ih
        | inr e ↦
            subst (λ (b : Bool). All P (if b then rest else r ∷ rest)) (sym e)
              (parsed name r hr e, ih)
      ])

module _ {U B : Type 0} (env : Env U B) (s : RevisionStore B) (v k n m : Str)
    (P : Revision U → Type 0)
    (parsed : (name : Str) (r : Revision U)
      → parse_lazy_loading_revision (revision_key_of (resource_key_of v k n m) name) ≡ ok r
      → r.deleted ≡ false
      → P r) where
  -- The listed revisions are parsed from the keys of files, and not deleted.
  pub list_revisions-All : (l : List (Revision U)) → list_revisions env v k n m s ≡ ok l → All P l
  unfolding list_revisions
  list_revisions-All l h =
      let directory = resource_key_of v k n m in
      let (infos, hi, h1) =
        >>=-eq-ok (read_dir env.bucket directory s.backend)
          (λ infos. do revisions ← parse_all {U = U} directory infos; ok (sort revisions)) h in
      let (revisions, hr, h2) =
        >>=-eq-ok (parse_all {U = U} directory infos) (λ revisions. ok (sort revisions)) h1 in
      subst (All P) (ok-injective h2)
        (sort-All P revisions (parse_all-All P directory parsed infos revisions hr))
