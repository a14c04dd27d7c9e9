-- ===== src/Tests/Exported.antt =====
-- A state that is written to a directory, at concrete inputs.

use saiki.Prelude.{
  ◌≡◌, refl, sym, ap, ◌∙◌, if◌then◌else◌, ◌==◌, str_eq, [], ◌∷◌, none, some, Option, Str, codes,
}
use saiki.Prelude.Int.{pos}
use saiki.Prelude.Dict.{lookup, insert, lookup-insert}
use saiki.Golang.Strings.{join, split, trim_suffix}
use saiki.Golang.FilePath.{join_path, clean, is_rooted, ext}
use saiki.Golang.Strconv.{itoa}
use saiki.Golang.Time.{to_unix}
use saiki.Errors.{Error, Result, ok}
use saiki.Store.Revision.{Revision, key, resource_key, revision_key}
use saiki.Store.Storage.State.{StateMap}
use saiki.Cmd.State.{state_file}
use saiki.Cmd.State.Export.{ExportLibrary, write_state, written}
use saiki.Cmd.State.Export.Written.{IsFileSystem}
use saiki.Tests.{Files, web_at, web_gone}

-- a file system is a table of its files
abbrev pub export_library : ExportLibrary Str Files
export_library = record {
  mkdir_all = λ path f. (none, f);
  write_file = λ path bytes f. (none, insert path bytes f);
  marshal_json = λ u. ok u;
  json_to_yaml = λ json. ok json;
}

abbrev pub read_table : Files → Str → Option Str
read_table f path = lookup path f

wrote_table :
    (path other bytes : Str) (f f' : Files)
    → export_library.write_file path bytes f ≡ (none, f')
    → lookup other f' ≡ (if path == other then some bytes else lookup other f)
wrote_table path other bytes f f' e =
    ap (λ (r : Option Error × Files). lookup other r.1) (sym e) ∙ lookup-insert path other bytes f

pub table_files : IsFileSystem export_library read_table
table_files = record {
  wrote = wrote_table;
  made = λ path other f f' e. ap (λ (r : Option Error × Files). lookup other r.1) (sym e);
}

-- the version as the content
abbrev content_in : Revision Str → Str → Result Str × Str
content_in rev s = (ok (itoa rev.fields.resource_version), s)

-- a deleted and a live revision of one object
abbrev two_revisions : StateMap Str
two_revisions = (codes "v1/Pod/default/web", web_gone (pos 9) ∷ web_at (pos 7) ∷ []) ∷ []

abbrev files : Files
files =
    (codes "out/v1/Pod/default/web/9-5.json.yaml", codes "9")
    ∷ (codes "out/v1/Pod/default/web/7-5.yaml", codes "7")
    ∷ []

two_written :
    write_state export_library content_in (codes "out") two_revisions [] [] ≡ written [] files
unfolding write_state state_file trim_suffix join_path clean join split key resource_key
    revision_key itoa to_unix ext insert is_rooted
two_written = refl
