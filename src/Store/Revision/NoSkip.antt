-- ===== src/Store/Revision/NoSkip.antt =====
-- The parser of pkg/store/revision.go never asks a walk to skip a directory.
use saiki.Prelude.{◌≡◌, ◌≢◌, subst, List, [], ◌∷◌, Option, none, some, Str, str_eq}
use saiki.Prelude.Int.{ℤ}
use saiki.Golang.Strings.{split}
use saiki.Golang.FilePath.{slash}
use saiki.Golang.Strconv.{atoi, NumError}
use saiki.Errors.{Error, skip_dir, Result, ok, err, ◌>>=◌}
use saiki.Store.Revision.{
  checked, first_part, parse_parts, parse_file, parse_namespaced_revision,
  parse_cluster_scoped_revision, parse_split, with_group, parse_lazy_loading_revision,
}

abbrev NoSkip : {A : Type 0} → Result A → Type 0
NoSkip (ok a) = Unit
NoSkip (err e) = e ≢ skip_dir

>>=-NoSkip :
    {A B : Type 0} (r : Result A) (next : A → Result B)
    → NoSkip r
    → ((a : A) → NoSkip (next a))
    → NoSkip (r >>= next)
>>=-NoSkip (ok a) next h k = k a
>>=-NoSkip (err e) next h k = h

checked-NoSkip : (s : Str) (r : Option NumError × ℤ) → NoSkip (checked s r)
unfolding checked
checked-NoSkip s (none, n) = tt
checked-NoSkip s (some e, n) = λ h. cc

parse_parts-NoSkip : (file : Str) (parts : List Str) → NoSkip (parse_parts file parts)
unfolding parse_parts
parse_parts-NoSkip file (v ∷ suffix ∷ rest) =
    >>=-NoSkip (checked file (atoi (first_part (split b'.' suffix)))) _ (checked-NoSkip file _)
      (λ t. >>=-NoSkip (checked file (atoi v)) _ (checked-NoSkip file _) (λ rv. tt))
parse_parts-NoSkip file [] = λ h. cc
parse_parts-NoSkip file (v ∷ []) = λ h. cc

parse_split-NoSkip : (path : Str) (parts : List Str) → NoSkip (parse_split path parts)
unfolding parse_split parse_namespaced_revision parse_cluster_scoped_revision parse_file
parse_split-NoSkip path (g ∷ v ∷ k ∷ n ∷ file ∷ []) =
    >>=-NoSkip (parse_file file) _ (parse_parts-NoSkip file (split b'-' file)) (λ a. tt)
parse_split-NoSkip path (g ∷ v ∷ k ∷ ns ∷ n ∷ file ∷ []) =
    >>=-NoSkip (parse_file file) _ (parse_parts-NoSkip file (split b'-' file)) (λ a. tt)
parse_split-NoSkip path _ = λ h. cc

pub parse_never_skips :
    {U : Type 0} (path : Str) (e : Error)
    → parse_lazy_loading_revision {U = U} path ≡ err e
    → e ≢ skip_dir
unfolding parse_lazy_loading_revision
parse_never_skips path e h = subst NoSkip h (
    >>=-NoSkip (parse_split path (with_group (split slash path))) _
      (parse_split-NoSkip path (with_group (split slash path))) (λ fields. tt))
