-- ===== src/Tests/Skipping.antt =====
-- The walk of `State` for one namespace, over files of two.
use saiki.Prelude.{
  ◌≡◌, refl, sym, ap, ◌∙◌, Bool, false, not, List, [], ◌∷◌, none, Str, ◌==◌, str_eq, codes, In,
  here, there,
}
use saiki.Prelude.Int.{pos}
use saiki.Golang.Strings.{join, split, has_suffix, trim_prefix}
use saiki.Golang.FilePath.{join_path, clean, is_rooted, dir}
use saiki.Golang.Strconv.{atoi}
use saiki.Golang.Time.{unix}
use saiki.Errors.{Result, ok, err}
use saiki.Store.Revision.{Revision, parse_lazy_loading_revision}
use saiki.Store.Backend.{ListObject, walk}
use saiki.Store.Backend.Walk.{walk-visit_all, visit_all}
use saiki.Store.Storage.{RevisionStore}
use saiki.Store.Storage.State.{StateOptions, visit, is_foreign}
use saiki.Store.Storage.State.Newest.{OneResource, Parsed}
use saiki.Store.Storage.State.Skipped.{AllParsed, visit-SkipsWhole}
use saiki.Tests.{Files, env}

-- one file in the namespace `default`, and two of another object
abbrev three_files : RevisionStore Files
three_files = record {
  backend =
      (codes "v1/Pod/default/web/7-5.json", codes "web")
      ∷ (codes "v1/Pod/other/web/8-5.json", codes "web")
      ∷ (codes "v1/Pod/other/web/9-5.json", codes "web")
      ∷ [];
  latest_cache = [];
}

abbrev file_at : Str → ListObject
file_at key = record { key = key; is_dir = false }

abbrev files : List ListObject
files =
    file_at (codes "v1/Pod/default/web/7-5.json")
    ∷ file_at (codes "v1/Pod/other/web/8-5.json")
    ∷ file_at (codes "v1/Pod/other/web/9-5.json")
    ∷ []

-- `state --namespace default`
abbrev in_default : StateOptions Str
in_default = record {
  api_version = [];
  kind = [];
  label_selector = none;
  time = pos 9_000_000_000;
  namespace = codes "default";
  all_namespaces = false;
  name = [];
  all_revisions = false;
  only_deleted = false;
}

files-AllParsed : AllParsed env in_default files
unfolding parse_lazy_loading_revision trim_prefix split join join_path clean is_rooted atoi
    has_suffix unix
files-AllParsed obj here n = (_, refl)
files-AllParsed obj (there here) n = (_, refl)
files-AllParsed obj (there (there here)) n = (_, refl)
files-AllParsed obj (there (there (there i))) n = elim i [ ]

abbrev foreign_of : Result (Revision Str) → Bool
foreign_of (ok rev) = is_foreign in_default rev
foreign_of (err e) = false

abbrev elsewhere : Str → Bool
elsewhere d = not (d == codes "v1/Pod/default/web")

-- which files are foreign
by_directory :
    (obj : ListObject) (rev : Revision Str)
    → In obj files
    → Parsed env in_default files obj rev
    → is_foreign in_default rev ≡ elsewhere (dir obj.key)
unfolding parse_lazy_loading_revision trim_prefix split join join_path clean is_rooted atoi
    has_suffix unix dir is_foreign
by_directory obj rev here p = ap foreign_of (sym p.1)
by_directory obj rev (there here) p = ap foreign_of (sym p.1)
by_directory obj rev (there (there here)) p = ap foreign_of (sym p.1)
by_directory obj rev (there (there (there i))) p = elim i [ ]

files-OneResource : OneResource env in_default files
files-OneResource obj obj' rev rev' i i' d p p' =
    by_directory obj rev i p ∙ ap elsewhere d ∙ sym (by_directory obj' rev' i' p')

walk-visit_all_example :
    walk env.bucket [] (visit env in_default none) ([], three_files) three_files.backend
    ≡ visit_all
        (visit env in_default none)
        ([], three_files)
        (env.bucket.list [] [] three_files.backend).objects
        (env.bucket.list [] [] three_files.backend).ended
walk-visit_all_example =
    walk-visit_all (visit env in_default none) env.bucket [] ([], three_files) three_files.backend
      (visit-SkipsWhole env in_default files files-AllParsed files-OneResource)
