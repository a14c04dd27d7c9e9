-- ===== src/Tests/Controller.antt =====
-- The controller's theorems at concrete inputs.
use saiki.Prelude.{
  ◌≡◌, refl, true, [], ◌∷◌, Option, none, some, ◌↔◌, Str, codes, str_eq, str_beq_iff, ◌==◌, In, All,
  arith,
}
use saiki.Prelude.Int.{pos}
use saiki.Prelude.Dict.{lookup}
use saiki.Errors.{Error, Result, ok}
use saiki.Store.Revision.{Revision, revision_from}
use saiki.Store.Storage.{RevisionStore}
use saiki.Store.Storer.{Storer, store_storer}
use saiki.Controller.Cache.{Cache, KeyFunc, new, cache, cache_all, delete, safe_copy}
use saiki.Controller.Cache.Newest.{NewestOf, cache_all-new-NewestOf}
use saiki.Controller.Cache.Entries.{delete-cache_newer, IsKeyed}
use saiki.Controller.Policy.{
  RpoPolicy, BackupRule, BackupPolicy, tests, matches, fill_rpo, rule_for,
}
use saiki.Controller.Policy.Selection.{rule_for-none, rule_for-Greatest, Greatest}
use saiki.Controller.Policy.Tier.{tier_of}
use saiki.Controller.Policy.Defaults.{rule_for-Returns, Returns}
use saiki.Controller.Purger.{new_purge, purge}
use saiki.Controller.Purger.Emptied.{lookup-purge, remaining, reported}
use saiki.Controller.Flusher.{Flush, new_flush, flush, retry_cycle}
use saiki.Controller.Flusher.Drained.{lookup-flush, started}
use saiki.Controller.Flusher.Retry.{retry_cycle-AtLeast, AtLeast}
use saiki.Controller.Reaper.{reap_revisions}
use saiki.Controller.Reaper.Selection.{reap_revisions-scan, scan}
use saiki.Controller.Operator.{Operator, OperatorState, object, process_unstructured}
use saiki.Controller.Operator.Worker.{process_unstructured-MayQueue, MayQueue}
use saiki.Util.{slice_in}
use saiki.Tests.{Files, env, pod_meta, web_at, empty_store}

abbrev by_name : KeyFunc Str
by_name r = r.name

cache_all-new-NewestOf_example :
    NewestOf by_name
      (codes "web")
      (λ r. In r (web_at (pos 9) ∷ web_at (pos 4) ∷ []))
      (lookup (codes "web") (cache_all (new by_name) (web_at (pos 9) ∷ web_at (pos 4) ∷ [])).m)
cache_all-new-NewestOf_example =
    cache_all-new-NewestOf by_name (web_at (pos 9) ∷ web_at (pos 4) ∷ []) (codes "web")

newer_kept :
    lookup
      (codes "web")
      (delete (cache (new by_name) (some (web_at (pos 9)))) (some (web_at (pos 4)))).m
    ≡ lookup (codes "web") (cache (new by_name) (some (web_at (pos 9)))).m
newer_kept =
    delete-cache_newer (new by_name) (web_at (pos 4)) (web_at (pos 9)) (codes "web") refl
      (omega arith)

-- a cache with one revision
abbrev one_web : Cache Str
one_web = record { m = (codes "web", web_at (pos 4)) ∷ []; key_func = by_name }

one_web_own : (k : Str) (r : Revision Str) → lookup k one_web.m ≡ some r → by_name r ≡ k
unfolding lookup
one_web_own k r h = ground (arith, h, str_beq_iff (codes "web") k)

one_web-IsKeyed : IsKeyed one_web
one_web-IsKeyed = record { own_key = one_web_own }

abbrev defaults : RpoPolicy
defaults = record { purge_older_than = pos 100; rpo = pos 10 }

-- pods of every namespace, with no RPO policy of its own
abbrev pods : BackupRule Str
pods = record {
  api_groups = [];
  resources = codes "Pod" ∷ [];
  resource_names = [];
  namespaces = codes "*" ∷ [];
  fields = codes "spec" ∷ [];
  label_selector = none;
  rpo_policy = none;
}

abbrev policy : Option RpoPolicy → BackupPolicy Str
policy p = record { rules = pods ∷ []; fields = codes "metadata.labels" ∷ []; rpo_policy = p }

abbrev pods_filled : BackupRule Str
pods_filled = record pods {
  fields = codes "spec" ∷ codes "metadata.labels" ∷ [];
  rpo_policy = some defaults;
}

pods_chosen :
    rule_for (policy (some defaults)) (ok (codes "web")) (web_at (pos 4))
    ≡ some (some pods_filled, policy (some defaults))
unfolding rule_for tests matches slice_in fill_rpo
pods_chosen = refl

rule_for-Greatest_example :
    Greatest (policy (some defaults)) (ok (codes "web")) (web_at (pos 4)) pods_filled
rule_for-Greatest_example =
    rule_for-Greatest (policy (some defaults)) (ok (codes "web")) (web_at (pos 4)) pods_filled
      (policy (some defaults)) pods_chosen

rule_not_found :
    (rule_for (policy none) (ok (codes "web")) (web_at (pos 4)) ≡ some (none, policy none))
    ↔ All (λ x. tier_of (ok (codes "web")) (web_at (pos 4)) x ≡ 0) (pods ∷ [])
rule_not_found = rule_for-none (policy none) (ok (codes "web")) (web_at (pos 4))

rule_for-Returns_example :
    Returns
      (policy (some defaults))
      (ok (codes "web"))
      (web_at (pos 4))
      defaults
      (rule_for (policy (some defaults)) (ok (codes "web")) (web_at (pos 4)))
rule_for-Returns_example =
    rule_for-Returns (policy (some defaults)) (ok (codes "web")) (web_at (pos 4)) defaults refl

abbrev storer : Storer Str (RevisionStore Files)
storer = store_storer env true

abbrev accepts : Revision Str → Option Error
accepts r = none

lookup-purge_example :
    lookup (codes "web") (purge storer one_web empty_store).0.m
    ≡ remaining by_name
        (codes "web")
        (reported storer (safe_copy one_web) empty_store)
        (lookup (codes "web") one_web.m)
lookup-purge_example = lookup-purge storer one_web empty_store (codes "web")

abbrev flusher : Flush Str
flusher = record { c = one_web; retry_cache = one_web }

lookup-flush_example :
    lookup (codes "web") (flush storer accepts one_web one_web empty_store).flush_cache.m
    ≡ remaining by_name
        (codes "web")
        (started storer accepts (safe_copy one_web))
        (lookup (codes "web") one_web.m)
lookup-flush_example = lookup-flush storer accepts one_web one_web empty_store (codes "web")

accepts_all : (r : Revision Str) → accepts r ≡ none
accepts_all r = refl

one_web_found : lookup (codes "web") one_web.m ≡ some (web_at (pos 4))
unfolding lookup
one_web_found = refl

one_web-AtLeast : AtLeast (pos 4) (lookup (codes "web") one_web.m)
one_web-AtLeast = rw one_web_found (omega arith)

retry_cycle-AtLeast_example :
    AtLeast
      (pos 4)
      (lookup (codes "web") (retry_cycle storer accepts flusher empty_store).0.retry_cache.m)
retry_cycle-AtLeast_example =
    retry_cycle-AtLeast storer accepts flusher empty_store (codes "web") (pos 4) one_web-AtLeast

abbrev name_of : Revision Str → Result Str
name_of r = ok r.name

reap_revisions-scan_example :
    reap_revisions name_of
      (pos 9_000_000_000)
      (web_at (pos 4) ∷ web_at (pos 7) ∷ [])
      (policy (some defaults))
    ≡ scan name_of (pos 9_000_000_000) (web_at (pos 4) ∷ []) (policy (some defaults))
reap_revisions-scan_example =
    reap_revisions-scan name_of (pos 9_000_000_000) (web_at (pos 4) ∷ []) (web_at (pos 7))
      (policy (some defaults))

abbrev operator : Operator Str (RevisionStore Files) Str
operator = record {
  store = storer;
  meta = pod_meta;
  nested_field = λ u path. ok (some u);
  deep_equal = λ a b. a == b;
  now = pos 0;
}

abbrev operating : OperatorState Str (RevisionStore Files)
operating = record {
  backup_policy = policy (some defaults);
  resource_handlers = [];
  flusher = new_flush;
  purger = new_purge;
  stored = empty_store;
}

process_unstructured-MayQueue_example :
    MayQueue operator
      (revision_from pod_meta (pos 0) (codes "web"))
      operating
      (process_unstructured operator (object (codes "web")) operating)
process_unstructured-MayQueue_example =
    process_unstructured-MayQueue operator (object (codes "web")) operating
