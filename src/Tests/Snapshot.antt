-- ===== src/Tests/Snapshot.antt =====
-- The theorem about the newest revisions of `State` at a concrete store.
use saiki.Prelude.{◌≡◌, refl, false, true, [], ◌∷◌, none, Str, codes, In, here}
use saiki.Prelude.Int.{pos}
use saiki.Prelude.Dict.{lookup}
use saiki.Util.{slice_in}
use saiki.Golang.Strings.{join, split, has_suffix, trim_prefix}
use saiki.Golang.FilePath.{join_path, clean, is_rooted, dir}
use saiki.Golang.Strconv.{atoi}
use saiki.Golang.Time.{unix}
use saiki.Store.Revision.{Revision, resource_key, parse_lazy_loading_revision, unloaded}
use saiki.Store.Backend.{ListObject, walk}
use saiki.Store.Storage.{RevisionStore}
use saiki.Store.Storage.State.{StateOptions, state, is_foreign, is_left_out, walk_root}
use saiki.Store.Storage.State.Newest.{OneResource, At, Kept}
use saiki.Store.Storage.State.Walked.{state-At, listing}
use saiki.Cmd.State.{state_file}
use saiki.Golang.Strings.{trim_suffix}
use saiki.Golang.FilePath.{ext}
use saiki.Golang.Strconv.{itoa}
use saiki.Golang.Time.{to_unix}
use saiki.Store.Revision.{key, revision_key}
use saiki.Prelude.Dict.{insert}
use saiki.Store.Storage.State.{put}
use saiki.Tests.{Files, env, web}

-- one file of one pod
abbrev one_file : RevisionStore Files
one_file = record {
  backend = (codes "v1/Pod/default/web/7-5.json", codes "web") ∷ [];
  latest_cache = [];
}

abbrev file : ListObject
file = record { key = codes "v1/Pod/default/web/7-5.json"; is_dir = false }

abbrev parsed : Revision Str
parsed = record { fields = web (pos 7) false; body = unloaded }

-- everything of the time 9 seconds
abbrev snapshot : StateOptions Str
snapshot = record {
  api_version = [];
  kind = [];
  label_selector = none;
  time = pos 9_000_000_000;
  namespace = [];
  all_namespaces = true;
  name = [];
  all_revisions = false;
  only_deleted = false;
}

snapshot-OneResource : OneResource env snapshot (listing env snapshot one_file)
unfolding is_foreign
snapshot-OneResource obj obj' rev rev' i i' d p p' = refl

file_listed : In file (listing env snapshot one_file)
unfolding walk_root
file_listed = here

file-Kept : Kept env snapshot (listing env snapshot one_file) file parsed
unfolding is_foreign is_left_out dir clean split join is_rooted parse_lazy_loading_revision
    trim_prefix atoi has_suffix unix join_path
file-Kept = ((refl, refl), refl, refl)

state_ends : (state env snapshot one_file).1 ≡ none
unfolding state walk walk_root is_foreign is_left_out dir clean split join is_rooted
    parse_lazy_loading_revision trim_prefix atoi has_suffix unix join_path slice_in lookup
state_ends = refl

state-At_example :
    At env snapshot
      (listing env snapshot one_file)
      (state env snapshot one_file).0.0
      (resource_key parsed.fields)
      (pos 5_000_000_000)
state-At_example =
    state-At env snapshot one_file file parsed refl refl snapshot-OneResource state_ends file_listed
      file-Kept

-- the pod, and its deletion a second later
abbrev deleted_pod : RevisionStore Files
deleted_pod = record {
  backend =
      (codes "v1/Pod/default/web/7-5.json", codes "web")
      ∷ (codes "v1/Pod/default/web/9-6.json.deleted", codes "web")
      ∷ [];
  latest_cache = [];
}

abbrev deletion : Revision Str
deletion = record {
  fields = record (web (pos 9) true) { revision_timestamp = pos 6_000_000_000 };
  body = unloaded;
}

-- A deleted object is part of the state after its deletion.
deletion_shown :
    (state env snapshot deleted_pod).0.0 ≡ (codes "v1/Pod/default/web", deletion ∷ []) ∷ []
unfolding state walk walk_root is_foreign is_left_out dir clean split join is_rooted
    parse_lazy_loading_revision trim_prefix atoi has_suffix unix join_path slice_in lookup put
    insert resource_key
deletion_shown = refl

-- where the command writes the object of a revision, and of a deletion
files_written :
    (state_file (codes "out") parsed ≡ codes "out/v1/Pod/default/web/7-5.yaml")
    × (state_file (codes "out") deletion ≡ codes "out/v1/Pod/default/web/9-6.json.yaml")
unfolding state_file trim_suffix join_path clean join split key resource_key revision_key itoa
    to_unix ext
files_written = (refl, refl)
