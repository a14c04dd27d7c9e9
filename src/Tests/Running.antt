-- ===== src/Tests/Running.antt =====
-- The subcommand `state --directory out` on a store of two pods.
use saiki.Prelude.{
  ◌≡◌, ◌≢◌, ap, refl, sym, subst, arith, str_beq_iff, true, false, ◌==◌, str_eq, [], ◌∷◌, none,
  some, Str, codes, All,
}
use saiki.Prelude.Int.{pos}
use saiki.Prelude.Dict.{lookup, insert}
use saiki.Prelude.Dict.Ranged.{IsRange}
use saiki.Util.{slice_in}
use saiki.Golang.Strings.{join, split, has_suffix, trim_prefix, trim_suffix}
use saiki.Golang.FilePath.{join_path, clean, is_rooted, dir, base, ext}
use saiki.Golang.Strconv.{atoi, itoa}
use saiki.Golang.Time.{unix, to_unix}
use saiki.Errors.{ok}
use saiki.Store.Revision.{
  Revision, unloaded, key, revision_from, resource_key, revision_key, parse_lazy_loading_revision,
}
use saiki.Store.Backend.{walk, open_and_read, read_dir}
use saiki.Store.RevisionList.{sort, less}
use saiki.Store.Storage.{
  RevisionStore, content, get, namespace_get, latest_revision, list_revisions,
}
use saiki.Store.Storage.State.{
  StateOptions, StateMap, state, is_foreign, is_left_out, walk_root, put,
}
use saiki.Store.Storer.{store_storer}
use saiki.Store.Storage.State.Alone.{OneAt}
use saiki.Store.Marshal.{revisions_of}
use saiki.Cmd.State.{StateFlags, state_file, state_command, options_for, asks}
use saiki.Cmd.State.Export.{write_state}
use saiki.Cmd.State.Run.{StateParts, state_run, exported}
use saiki.Cmd.State.Run.Exported.{state_run-Exports, with_store, ExportsAmong}
use saiki.Tests.{Files, env, pod_meta, web}
use saiki.Store.Revision.RoundTrip.{IsStorable, core, namespaced}
use saiki.Tests.Store.{web7-IsStorable, IsPlain-pod, IsPlain-web}
use saiki.Tests.Commands.{mapping, no_selector, json}
use saiki.Tests.Exported.{export_library, read_table, table_files}

-- two pods, in different namespaces
abbrev two_pods : RevisionStore Files
two_pods = record {
  backend =
      (codes "v1/Pod/default/web/7-5.json", codes "web")
      ∷ (codes "v1/Pod/web/web/8-6.json", codes "other")
      ∷ [];
  latest_cache = [];
}

-- a map of two entries, visited from its end
abbrev reversed : StateMap Str → StateMap Str
reversed (a ∷ b ∷ []) = b ∷ a ∷ []
reversed st = st

abbrev parts : StateParts Str (RevisionStore Files) Files
parts = record {
  storer = store_storer env true;
  mapping = mapping;
  parse_selector = no_selector;
  now = pos 9_000_000_000;
  files = export_library;
  json = json;
  meta = pod_meta;
  marshal_state = λ st. ok [];
  age = λ t. [];
  ranged = reversed;
}

-- `state --directory out`
abbrev to_out : StateFlags
to_out = record {
  at = pos 0;
  ago = pos 0;
  namespace = [];
  label_selector = [];
  with_content = false;
  all_namespaces = false;
  directory = codes "out";
  output = [];
  only_content = false;
}

abbrev asked : StateOptions Str
asked = record {
  api_version = [];
  kind = [];
  label_selector = none;
  time = pos 9_000_000_000;
  namespace = [];
  all_namespaces = false;
  name = [];
  all_revisions = false;
  only_deleted = false;
}

to_out-asks : state_command mapping no_selector (pos 9_000_000_000) to_out [] ≡ asks asked false
unfolding state_command
to_out-asks = refl

abbrev first_pod : Revision Str
first_pod = record { fields = web (pos 7) false; body = unloaded }

abbrev second_pod : Revision Str
second_pod = record {
  fields = record (web (pos 8) false) {
    namespace = codes "web";
    revision_timestamp = pos 6_000_000_000;
  };
  body = unloaded;
}

abbrev found : StateMap Str
found =
    (codes "v1/Pod/default/web", first_pod ∷ []) ∷ (codes "v1/Pod/web/web", second_pod ∷ []) ∷ []

found_two : (state env asked two_pods).0 ≡ (found, two_pods)
unfolding state walk walk_root is_foreign is_left_out dir clean split join is_rooted
    parse_lazy_loading_revision trim_prefix atoi has_suffix unix join_path slice_in lookup put
    insert resource_key
found_two = refl

abbrev out : Files
out =
    (codes "out/v1/Pod/web/web/8-6.yaml", codes "other")
    ∷ (codes "out/v1/Pod/default/web/7-5.yaml", codes "web")
    ∷ []

-- the store after both objects were read
abbrev read_pods : RevisionStore Files
read_pods = record two_pods {
  latest_cache =
      (codes "v1/Pod/web/web", codes "8-6.json")
      ∷ (codes "v1/Pod/default/web", codes "7-5.json")
      ∷ [];
}

ran : state_run (with_store parts env true) to_out [] two_pods [] ≡ exported read_pods out
unfolding state walk walk_root is_foreign is_left_out dir clean split join is_rooted
    parse_lazy_loading_revision trim_prefix atoi has_suffix unix join_path slice_in lookup put
    insert resource_key state_run state_command write_state content state_file trim_suffix key
    revision_key itoa to_unix ext get namespace_get latest_revision list_revisions open_and_read
    read_dir base sort less revision_from options_for
ran = refl

abbrev first_key : Str
first_key = codes "v1/Pod/default/web"

abbrev second_key : Str
second_key = codes "v1/Pod/web/web"

reversed-IsRange : IsRange (reversed found) found
unfolding lookup
reversed-IsRange = record {
  names = (((λ e. cc), tt), (tt, tt));
  values = λ k. ground (arith, str_beq_iff first_key k, str_beq_iff second_key k);
}

found-IsRange : IsRange (reversed (state env asked two_pods).0.0) (state env asked two_pods).0.0
found-IsRange =
    subst (λ (r : StateMap Str × RevisionStore Files). IsRange (reversed r.0) r.0) (sym found_two)
      reversed-IsRange

second-IsStorable : IsStorable second_pod.fields
second-IsStorable = record {
  version_parts = codes "v1" ∷ [];
  version = core refl;
  kind = IsPlain-pod;
  namespace_parts = codes "web" ∷ [];
  namespace = namespaced IsPlain-web;
  name = IsPlain-web;
  resource_version = 8;
  version_eq = refl;
  version_fits = omega arith;
  seconds = 6;
  seconds_eq = unfold to_unix in refl;
  seconds_fit = omega arith;
}

found-IsStorable :
    All (λ r. IsStorable r.fields) (revisions_of (reversed (state env asked two_pods).0.0))
found-IsStorable =
    subst
      (λ (r : StateMap Str × RevisionStore Files).
        All (λ q. IsStorable q.fields) (revisions_of (reversed r.0)))
      (sym found_two) (unfold revisions_of in (second-IsStorable, (web7-IsStorable, tt)))

found-at : lookup first_key (state env asked two_pods).0.0 ≡ some (first_pod ∷ [])
unfolding lookup
found-at = ap (λ (r : StateMap Str × RevisionStore Files). lookup first_key r.0) found_two

abbrev notes : Str
notes = codes "out/notes"

elsewhere :
    (r : Revision Str)
    → (state_file (codes "out") r == notes) ≡ false
    → state_file (codes "out") r ≢ notes
elsewhere r e h = ground (arith, e, (str_beq_iff (state_file (codes "out") r) notes).1 h)

files_elsewhere :
    All (λ r. (state_file (codes "out") r == notes) ≡ false) (second_pod ∷ first_pod ∷ [])
unfolding state_file trim_suffix join_path clean join split key resource_key revision_key itoa
    to_unix ext is_rooted
files_elsewhere = (refl, (refl, tt))

found_elsewhere :
    All
      (λ r. state_file (codes "out") r ≢ notes)
      (revisions_of (reversed (state env asked two_pods).0.0))
unfolding revisions_of
found_elsewhere =
    subst
      (λ (r : StateMap Str × RevisionStore Files).
        All (λ r. state_file (codes "out") r ≢ notes) (revisions_of (reversed r.0)))
      (sym found_two)
      (elsewhere second_pod files_elsewhere.0, (elsewhere first_pod files_elsewhere.1.0, tt))

state_run-Exports_example :
    OneAt first_key (first_pod ∷ [])
    × ExportsAmong parts env true read_table table_files
        (codes "out")
        (state env asked two_pods).0.1
        out
        (first_pod ∷ [])
        (revisions_of (reversed (state env asked two_pods).0.0))
    × (read_table out notes ≡ read_table [] notes)
state_run-Exports_example =
    state_run-Exports parts env true read_table table_files to_out [] two_pods read_pods [] out
      asked false first_key (first_pod ∷ []) notes to_out-asks found-IsRange found-IsStorable ran
      found-at found_elsewhere
