-- ===== src/Tests/Applied.antt =====
-- The verb `apply` at concrete inputs.
use saiki.Prelude.{◌≡◌, refl, true, false, List, [], ◌∷◌, Str, codes}
use saiki.Prelude.Int.{ℤ, pos}
use saiki.Golang.Strings.{split, join, has_suffix}
use saiki.Golang.FilePath.{join_path, clean, base, is_rooted, dir}
use saiki.Golang.Strconv.{atoi, itoa}
use saiki.Golang.Time.{unix, to_unix}
use saiki.Errors.{ok}
use saiki.Store.Revision.{
  Revision, unloaded, parse_lazy_loading_revision, resource_key, revision_from, revision_key,
}
use saiki.Store.RevisionList.{sort, less}
use saiki.Store.Backend.{read_dir, open_and_read}
use saiki.Store.Storage.{
  RevisionStore, list_revisions, content, namespace_get, get, latest_revision,
}
use saiki.Prelude.Dict.{lookup, insert}
use saiki.Cmd.Revisions.Apply.{apply_object, create_and_say, strip_metadata}
use saiki.Cmd.Revisions.{Flags, apply_verb, refuses, select}
use saiki.Cmd.Revisions.Command.{Asked, revisions_command}
use saiki.Cmd.Revisions.Command.Latest.{
  over_store, reflagged, done_for, revisions_command-reflagged,
}
use saiki.Tests.{Files, env, web}
use saiki.Tests.Commands.{surroundings, delete_four, pods}

-- two revisions of one object
abbrev two_stored : RevisionStore Files
two_stored = record {
  backend =
      (codes "v1/Pod/default/web/7-5.json", codes "old")
      ∷ (codes "v1/Pod/default/web/9-5.json", codes "new")
      ∷ [];
  latest_cache = [];
}

abbrev lazy_web : ℤ → Revision Str
lazy_web v = record { fields = web v false; body = unloaded }

abbrev both : List (Revision Str)
both = lazy_web (pos 7) ∷ lazy_web (pos 9) ∷ []

two_listed :
    list_revisions env (codes "v1") (codes "Pod") (codes "default") (codes "web") two_stored
    ≡ ok both
unfolding list_revisions read_dir join_path clean join split parse_lazy_loading_revision base
    is_rooted atoi has_suffix unix less sort dir
two_listed = refl

-- `revisions apply pod web --revision 7`, and `--revision 9`
abbrev version_flags : ℤ → Str → Flags
version_flags v text = record {
  revision = v;
  revision_text = text;
  at = pos 0;
  ago = pos 0;
  all = false;
}

abbrev apply_seven : Asked
apply_seven = record delete_four { verb = apply_verb; flags = version_flags (pos 7) (codes "7") }

revisions_command-reflagged_example :
    revisions_command
      (over_store env true surroundings)
      (reflagged apply_seven (version_flags (pos 9) (codes "9")))
      two_stored
      []
    ≡ done_for
        (over_store env true surroundings)
        (web (pos 9) false)
        (revisions_command (over_store env true surroundings) apply_seven two_stored [])
unfolding refuses select
revisions_command-reflagged_example =
    revisions_command-reflagged env true surroundings apply_seven
      (version_flags (pos 9) (codes "9")) (codes "v1") pods both (lazy_web (pos 7))
      (lazy_web (pos 9)) [] [] two_stored [] refl refl refl refl two_listed
      ((refl, refl, refl, refl), ((refl, refl, refl, refl), tt)) refl refl

-- With `--revision 7` the content of version 9 goes to the cluster.
newest_applied :
    (revisions_command (over_store env true surroundings) apply_seven two_stored []).2
    ≡ codes "new" ∷ []
unfolding revisions_command refuses list_revisions read_dir join_path clean join split
    parse_lazy_loading_revision base atoi select sort has_suffix less content namespace_get lookup
    apply_object create_and_say strip_metadata is_rooted itoa to_unix unix insert open_and_read
    resource_key revision_from revision_key get latest_revision dir
newest_applied = refl
