-- ===== src/Tests/Commands.antt =====
-- The theorems about the command line, and about the texts and the metrics, at concrete inputs.
use saiki.Prelude.{Bool, ◌≡◌, refl, true, false, List, [], ◌∷◌, none, some, Str, codes, str_eq, All}
use saiki.Prelude.Int.{pos}
use saiki.Errors.{Result, ok, err, not_found}
use saiki.Store.Revision.{Revision}
use saiki.Store.Config.{ApiResource}
use saiki.Store.Storage.{RevisionStore}
use saiki.Store.Storage.State.{StateOptions, state}
use saiki.Store.Storer.{Storer, store_storer}
use saiki.Store.Metrics.{Metrics, AsyncWriteRevisionInterface, RevisionPurger}
use saiki.Store.Metrics.Tally.{
  Request, create, delete, purge_all, serve_all, serve_measured, tally, serve_measured-tally,
}
use saiki.Store.Marshal.{
  Json, list_with_content, state_with_content, state_only_content, revision_text, entry_text,
  object_text, revisions_of,
}
use saiki.Store.Marshal.Joined.{marshal-join, bracketed, texts, on_ok}
use saiki.Golang.Strings.{join}
use saiki.Golang.Time.{unix}
use saiki.Cmd.State.{StateFlags, state_command, asks, options_for}
use saiki.Cmd.State.Table.{state_command-Told, Told}
use saiki.Cmd.Revisions.{delete_verb}
use saiki.Cmd.Revisions.Apply.{DynamicClient, ObjectLibrary, strip_metadata, apply_object}
use saiki.Cmd.Revisions.Apply.Outcome.{apply_object-Outcome, Outcome}
use saiki.Cmd.Revisions.Command.{Asked, Surroundings, revisions_command}
use saiki.Cmd.Revisions.Command.Touches.{revisions_command-Touches, Touches}
use saiki.Tests.{Files, env, pod_meta, web, web_at, empty_store}

abbrev storer : Storer Str (RevisionStore Files)
storer = store_storer env true

abbrev pub pods : ApiResource
pods = record {
  name = codes "pods";
  singular_name = codes "pod";
  kind = codes "Pod";
  short_names = codes "po" ∷ [];
  namespaced = true;
}

abbrev pub mapping : Str → Result (Str × ApiResource)
mapping word = ok (codes "v1", pods)

abbrev pub no_selector : Str → Result (Result (Str → Bool))
no_selector text = err not_found

-- `state pods`
abbrev state_flags : StateFlags
state_flags = record {
  at = pos 9;
  ago = pos 0;
  namespace = [];
  label_selector = [];
  with_content = false;
  all_namespaces = false;
  directory = [];
  output = [];
  only_content = false;
}

abbrev all_pods : StateOptions Str
all_pods = record {
  api_version = codes "v1";
  kind = codes "Pod";
  label_selector = none;
  time = pos 9_000_000_000;
  namespace = [];
  all_namespaces = false;
  name = [];
  all_revisions = false;
  only_deleted = false;
}

abbrev stored : RevisionStore Files
stored = (storer.update_in (web_at (pos 4)) empty_store).1

asks-all_pods :
    state_command mapping no_selector (pos 0) state_flags (codes "pods" ∷ []) ≡ asks all_pods true
unfolding state_command options_for unix
asks-all_pods = refl

state_command-Told_example :
    All (λ entry. All (Told all_pods true) entry.1) (state env all_pods stored).0.0
state_command-Told_example =
    state_command-Told mapping no_selector (pos 0) state_flags (codes "pods" ∷ []) env stored
      all_pods true asks-all_pods

-- a library whose objects need no stripping
abbrev pub lib : ObjectLibrary Str
lib = record {
  clear_creation_timestamp = λ u. u;
  clear_deletion_timestamp = λ u. u;
  clear_resource_version = λ u. u;
  clear_status = λ u. (none, u);
  marshal = λ u. ok u;
  create_merge_patch = λ old new. ok new;
  is_not_found = λ e. false;
}

-- a cluster that is the list of what was sent to it
abbrev pub client : DynamicClient Str (List Str)
client = record {
  create_object = λ u c. (none, u ∷ c);
  get_object = λ name c. ok name;
  patch_object = λ name patch c. (some not_found, patch ∷ c);
}

apply_object-Outcome_example :
    Outcome lib client true
      (codes "web")
      (strip_metadata lib (codes "web"))
      []
      (apply_object lib client true (web (pos 4) false) (codes "web") [])
apply_object-Outcome_example =
    apply_object-Outcome lib client true (web (pos 4) false) (codes "web") []

abbrev pub surroundings : Surroundings Str (RevisionStore Files) (List Str)
surroundings = record {
  storer = storer;
  mapping = mapping;
  now = pos 0;
  lib = lib;
  parse_group_version = λ text. ok text;
  client_for = λ gv resource namespace. ok client;
}

-- `revisions delete pod web --revision 4`
abbrev pub delete_four : Asked
delete_four = record {
  verb = delete_verb;
  resource = codes "pod";
  name = codes "web";
  flags = record {
    revision = pos 4;
    revision_text = codes "4";
    at = pos 0;
    ago = pos 0;
    all = false;
  };
  namespace_flag = codes "default";
  overwrite = false;
}

revisions_command-Touches_example :
    Touches surroundings delete_four stored []
      (revisions_command surroundings delete_four stored [])
revisions_command-Touches_example = revisions_command-Touches surroundings delete_four stored []

abbrev pub json : Json Str
json = record {
  marshal_revision = λ prefix indent rev. ok rev.name;
  marshal_object = λ prefix indent u. ok u;
  quoted = λ text. text;
}

abbrev two_webs : List (Revision Str)
two_webs = web_at (pos 4) ∷ web_at (pos 7) ∷ []

marshal-join_example :
    (list_with_content json storer pod_meta (pos 0) [] (codes "  ") two_webs stored
      ≡ bracketed json storer pod_meta
          (pos 0)
          []
          b'['
          b']'
          (revision_text json storer pod_meta (pos 0) [] (codes "  "))
          two_webs
          stored)
    × (state_with_content json storer pod_meta
          (pos 0)
          []
          (codes "  ")
          ((codes "web", two_webs) ∷ [])
          stored
        ≡ bracketed json storer pod_meta
            (pos 0)
            []
            b'{'
            b'}'
            (entry_text json storer pod_meta (pos 0) [] (codes "  "))
            ((codes "web", two_webs) ∷ [])
            stored)
    × (state_only_content json storer pod_meta
          (pos 0)
          []
          (codes "  ")
          ((codes "web", two_webs) ∷ [])
          stored
        ≡ on_ok (join b'\n') (
            texts
              (object_text json storer pod_meta (pos 0) [] (codes "  "))
              (revisions_of ((codes "web", two_webs) ∷ []))
              stored))
marshal-join_example =
    marshal-join json storer pod_meta (pos 0) [] (codes "  ") two_webs
      ((codes "web", two_webs) ∷ []) stored

-- a store that only counts what it is asked
abbrev counting : AsyncWriteRevisionInterface Str Str (List Str)
counting = record {
  interface = record {
    create_by = λ rev s. (ok rev, codes "create" ∷ s);
    update_by = λ rev s. (ok rev, codes "update" ∷ s);
    delete_by = λ rev s. ((none, rev), codes "delete" ∷ s);
    get_by = λ rev s. (ok none, s);
    list_by = λ api_version kind name s. (ok [], s);
  };
  async_create_by = λ rev s. (ok rev.name, codes "create" ∷ s);
  async_update_by = λ rev s. (ok rev.name, codes "update" ∷ s);
  async_delete_by = λ rev s. (ok rev.name, codes "delete" ∷ s);
}

abbrev purging : RevisionPurger Str (List Str)
purging = record {
  purge_revision_by = λ rev s. (none, codes "purge" ∷ s);
  purge_revisions_by = λ revs s. ((revs, none), codes "purge" ∷ s);
}

abbrev no_metrics : Metrics
no_metrics = record {
  get_counter = 0;
  get_latency = 0;
  create_counter = 0;
  create_latency = 0;
  delete_counter = 0;
  delete_latency = 0;
  list_counter = 0;
  list_latency = 0;
}

abbrev requests : List (Request Str)
requests = create (web_at (pos 4)) ∷ delete (web_at (pos 4)) ∷ purge_all two_webs ∷ []

serve_measured-tally_example : serve_measured counting purging requests ([], no_metrics) ≡ (
  (serve_all counting purging requests []).0,
  ((serve_all counting purging requests []).1, tally requests no_metrics),
)
serve_measured-tally_example = serve_measured-tally counting purging requests [] no_metrics
