-- ===== src/Tests/Store.antt =====
-- The store's theorems at concrete inputs.
use saiki.Prelude.{
  ◌≡◌, refl, true, false, List, [], ◌∷◌, none, some, Str, codes, str_eq, All, arith,
}
use saiki.Store.Backend.RemoveAll.{remove_all_s3, DeletesAll, HasOutput}
use saiki.Store.Backend.{s3_provider, remove_all}
use saiki.Prelude.Int.{pos}
use saiki.Errors.{ok}
use saiki.Golang.Time.{to_unix}
use saiki.Golang.FilePath.Plain.{IsPlain}
use saiki.Store.Revision.{
  Revision, RevisionFields, key, resource_key, parse_lazy_loading_revision, unloaded, revision_from,
}
use saiki.Store.Revision.RoundTrip.{IsStorable, core, namespaced, to_seconds, parse-key}
use saiki.Golang.FilePath.{join_path, clean, base, is_rooted, dir}
use saiki.Golang.Strings.{join, split, has_suffix}
use saiki.Golang.Strconv.{atoi}
use saiki.Golang.Time.{unix}
use saiki.Store.RevisionList.{less, sort}
use saiki.Store.Backend.{read_dir}
use saiki.Store.Storage.{
  RevisionStore, update, namespace_get, encode, content, list_revisions, latest_revision,
}
use saiki.Store.Storage.Update.{
  get-update, update-outcome, ReadsBack, Decodes, update_error, remember,
}
use saiki.Store.Storage.Latest.{latest_revision-LatestOf, content-same_resource, IsLive, LatestOf}
use saiki.Store.Storage.Purge.{keys, parse_deleted}
use saiki.Store.Storage.Purge.Reported.{parse_deleted-keys, reloaded}
use saiki.Store.Storage.State.{StateOptions, state}
use saiki.Store.Storage.State.Filters.{state-AllPass, AllPass}
use saiki.Prelude.{str_beq_iff}
use saiki.Prelude.Dict.{Dict, lookup}
use saiki.Store.Storage.{Env}
use saiki.Store.Storer.{store_storer}
use saiki.Controller.Cache.{safe_copy}
use saiki.Controller.Cache.Entries.{IsKeyed}
use saiki.Controller.Purger.{purge, purge_key_func}
use saiki.Controller.Purger.Store.{queue_of, lookup-purge_s3}
use saiki.Handler.{ResourceHandlers, set_handler}
use saiki.Store.Backend.Requests.{remove_all-InLimits, InLimits, traced}
use saiki.Store.Storage.Sync.{sync}
use saiki.Store.Storage.Sync.Stale.{sync-Sound, Sound}
use saiki.Tests.{Files, table, table-reads, pod_meta, env, web, web_at, empty_store}

abbrev pub web7 : RevisionFields
web7 = web (pos 7) false

pub IsPlain-default : IsPlain (codes "default")
IsPlain-default = record {
  not_empty = λ e. cc;
  not_dot = λ e. cc;
  not_dot_dot = λ e. cc;
  one_part = ground arith;
}

pub IsPlain-pod : IsPlain (codes "Pod")
IsPlain-pod = record {
  not_empty = λ e. cc;
  not_dot = λ e. cc;
  not_dot_dot = λ e. cc;
  one_part = ground arith;
}

pub IsPlain-web : IsPlain (codes "web")
IsPlain-web = record {
  not_empty = λ e. cc;
  not_dot = λ e. cc;
  not_dot_dot = λ e. cc;
  one_part = ground arith;
}

pub web7-IsStorable : IsStorable web7
web7-IsStorable = record {
  version_parts = codes "v1" ∷ [];
  version = core refl;
  kind = IsPlain-pod;
  namespace_parts = codes "default" ∷ [];
  namespace = namespaced IsPlain-default;
  name = IsPlain-web;
  resource_version = 7;
  version_eq = refl;
  version_fits = omega arith;
  seconds = 5;
  seconds_eq = unfold to_unix in refl;
  seconds_fit = omega arith;
}

parse-key_example :
    parse_lazy_loading_revision {U = Str} (key web7)
    ≡ ok (record { fields = to_seconds web7; body = unloaded })
parse-key_example = parse-key {U = Str} web7 web7-IsStorable

keys_parsed : parse_deleted {U = Str} (keys (web_at (pos 7) ∷ [])) ≡ reloaded (web_at (pos 7)) ∷ []
keys_parsed = parse_deleted-keys (web_at (pos 7) ∷ []) (web7-IsStorable, tt)

env-ReadsBack : ReadsBack env
env-ReadsBack path bytes s a b c = table-reads path bytes s

env-Decodes : Decodes env
unfolding encode
env-Decodes u bytes e = (bytes, refl, (let same : u ≡ bytes = cc in rw same refl))

web_encoded : encode env (codes "web") ≡ ok (codes "web")
unfolding encode
web_encoded = refl

get-update_example :
    ((update env (web_at (pos 7)) empty_store).0 ≡ none)
    × ((namespace_get env (web (pos 3) false) (update env (web_at (pos 7)) empty_store).1).0
        ≡ ok (some (revision_from pod_meta (pos 0) (codes "web"))))
unfolding resource_key
get-update_example =
    get-update env (web_at (pos 7)) (codes "web") refl empty_store (web (pos 3) false) (codes "web")
      refl env-ReadsBack env-Decodes web_encoded refl refl refl

update-outcome_example :
    ((update env (web_at (pos 7)) empty_store).0
      ≡ update_error env
          (web_at (pos 7))
          (codes "web")
          refl
          empty_store
          none
          (encode env (codes "web")))
    × ((update env (web_at (pos 7)) empty_store).1.latest_cache
        ≡ remember env (web_at (pos 7)) (codes "web") refl empty_store (
            update_error env
              (web_at (pos 7))
              (codes "web")
              refl
              empty_store
              none
              (encode env (codes "web"))))
update-outcome_example = update-outcome env (web_at (pos 7)) (codes "web") refl empty_store

versions_share_content :
    content env (record { fields = web (pos 7) false; body = unloaded }) empty_store
    ≡ content env (record { fields = web (pos 9) true; body = unloaded }) empty_store
versions_share_content =
    content-same_resource env empty_store (web (pos 7) false) (web (pos 9) true) refl refl refl refl

-- one live revision, and one that is deleted
abbrev stored : RevisionStore Files
stored = record {
  backend =
      (codes "v1/Pod/default/web/7-5.json", codes "web")
      ∷ (codes "v1/Pod/default/web/9-5.json.deleted", codes "web")
      ∷ [];
  latest_cache = [];
}

abbrev web7_lazy : Revision Str
web7_lazy = record { fields = web7; body = unloaded }

stored_list :
    list_revisions env (codes "v1") (codes "Pod") (codes "default") (codes "web") stored
    ≡ ok (web7_lazy ∷ [])
unfolding list_revisions read_dir join_path clean join split parse_lazy_loading_revision base
    is_rooted atoi has_suffix unix less sort dir
stored_list = refl

stored_latest : latest_revision env web7 stored ≡ ok (some web7_lazy)
unfolding latest_revision
stored_latest = rw stored_list refl

latest_revision-LatestOf_example :
    (l : List (Revision Str)) × (list_revisions env
        (codes "v1")
        (codes "Pod")
        (codes "default")
        (codes "web")
        stored
      ≡ ok l)
    × All IsLive l
    × LatestOf l (some web7_lazy)
latest_revision-LatestOf_example =
    latest_revision-LatestOf env stored web7 (some web7_lazy) stored_latest

table-DeletesAll : DeletesAll table
table-DeletesAll keys s = refl

table-HasOutput : HasOutput table
table-HasOutput keys s = (_, refl)

remove_all_s3_example :
    (remove_all table s3_provider (codes "a" ∷ codes "b" ∷ []) []).0 ≡ codes "a" ∷ codes "b" ∷ []
remove_all_s3_example = remove_all_s3 table (codes "a" ∷ codes "b" ∷ []) [] refl table-DeletesAll

remove_all-InLimits_example :
    InLimits table
      (codes "a" ∷ codes "b" ∷ [])
      (remove_all (traced table) s3_provider (codes "a" ∷ codes "b" ∷ []) ([], [])).2.1
remove_all-InLimits_example = remove_all-InLimits table (codes "a" ∷ codes "b" ∷ []) []

-- a handler that knows no object
abbrev knows_none : ResourceHandlers Str
knows_none =
    set_handler (codes "v1") (codes "Pod") []
      (record { get_by_key = λ k. ok false; store_get = λ u. ok false }) []

sync-Sound_example : Sound false knows_none (sync env knows_none stored).0
sync-Sound_example = sync-Sound env knows_none stored

-- the pods of the time 9 seconds
abbrev pods_then : StateOptions Str
pods_then = record {
  api_version = codes "v1";
  kind = codes "Pod";
  label_selector = none;
  time = pos 9_000_000_000;
  namespace = [];
  all_namespaces = true;
  name = [];
  all_revisions = false;
  only_deleted = false;
}

state-AllPass_example : AllPass pods_then (state env pods_then stored).0.0
state-AllPass_example = state-AllPass env pods_then stored

-- the store on S3, and a queue with one revision
abbrev env_s3 : Env Str Files
env_s3 = record env { provider = s3_provider }

abbrev queued : Dict Str (Revision Str)
queued = (key web7, web_at (pos 7)) ∷ []

queued_own : (k : Str) (r : Revision Str) → lookup k queued ≡ some r → purge_key_func r ≡ k
unfolding lookup
queued_own k r h = ground (arith, h, str_beq_iff (key web7) k)

queued-IsKeyed : IsKeyed (queue_of queued)
queued-IsKeyed = record { own_key = queued_own }

queued-IsStorable : All (λ rev. IsStorable rev.fields) (safe_copy (queue_of queued))
unfolding safe_copy
queued-IsStorable = (web7-IsStorable, tt)

lookup-purge_s3_example :
    lookup (key web7) (purge (store_storer env_s3 true) (queue_of queued) empty_store).0.m ≡ none
lookup-purge_s3_example =
    lookup-purge_s3 env_s3 queued empty_store (key web7) refl refl table-DeletesAll queued-IsKeyed
      queued-IsStorable
