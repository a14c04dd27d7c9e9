-- ===== src/Tests/Starting.antt =====
-- The start of the operator at concrete inputs.
use saiki.Prelude.{if◌then◌else◌, ◌≡◌, refl, true, List, [], ◌∷◌, none, some, Str, codes, str_eq}
use saiki.Prelude.Int.{pos}
use saiki.Errors.{ok}
use saiki.Handler.{ResourceHandler, handler_for}
use saiki.Store.Storage.{RevisionStore}
use saiki.Store.Storer.{store_storer}
use saiki.Controller.Policy.{RpoPolicy, BackupPolicy, BackupRule, matches}
use saiki.Util.{slice_in}
use saiki.Prelude.Dict.{lookup, insert}
use saiki.Controller.Flusher.{new_flush}
use saiki.Controller.Purger.{new_purge}
use saiki.Controller.Operator.{Operator, OperatorState, Item, object}
use saiki.Controller.Metrics.{Registerer, depth, deprecated_depth, retries}
use saiki.Controller.Operator.Queues.{new_queues}
use saiki.Controller.Operator.Dynamics.{
  get_dynamics, ApiResourceList, Discovery, Dynamics, add_lists,
}
use saiki.Controller.Operator.Dynamics.Namespaces.{get_dynamics-AllReduced, AllReduced}
use saiki.Controller.Operator.Factory.{Dynamic, dynamic_factory, client_for_group_version_resource}
use saiki.Controller.Operator.Start.{Cluster, OperatorOptions, new_operator, running, watch_all}
use saiki.Controller.Operator.Start.Watches.{handler_for-watch_all, Handled}
use saiki.Handler.Keys.{IsWatchable}
use saiki.Store.Revision.RoundTrip.{IsNamespace, core, cluster_scoped, namespaced}
use saiki.Tests.Store.{IsPlain-pod, IsPlain-default}
use saiki.Tests.{Files, env, pod_meta, empty_store}

abbrev pub knows_all : ResourceHandler Str
knows_all = record { get_by_key = λ k. ok true; store_get = λ u. ok true }

abbrev pub inform : Dynamic → ResourceHandler Str
inform client = knows_all

-- a registry is the names that it has
abbrev pub registerer : Registerer (List Str)
registerer = record {
  registered = slice_in;
  must_register = λ name r. if slice_in r name then none else some (name ∷ r);
}

-- a cluster of no resources
abbrev pub cluster : Cluster Str (RevisionStore Files) (List Str)
cluster = record {
  server_groups_and_resources = ok [];
  write_config = λ resources s. (none, s);
  parse_group_version = λ text. ok text;
  inform = inform;
  queue_metrics = depth ∷ deprecated_depth ∷ retries ∷ [];
  registerer = registerer;
  registry =
      codes "processing_errors"
      ∷ codes "last_processed_resource_version"
      ∷ codes "last_seen_resource_version"
      ∷ [];
}

abbrev pub hourly : RpoPolicy
hourly = record { purge_older_than = pos 0; rpo = pos 3_600 }

abbrev pub no_rules : BackupPolicy Str
no_rules = record { rules = []; fields = []; rpo_policy = some hourly }

abbrev pub options : OperatorOptions Str (RevisionStore Files)
options = record {
  backup_policy = no_rules;
  storer = some empty_store;
  flusher = none;
  purger = none;
  has_reaper = true;
  reap_interval = pos 0;
}

abbrev pub started : OperatorState Str (RevisionStore Files)
started = record {
  backup_policy = no_rules;
  resource_handlers = [];
  flusher = new_flush;
  purger = new_purge;
  stored = empty_store;
}

pub options-started : new_operator cluster options ≡ running started
unfolding new_operator get_dynamics watch_all new_queues
options-started = refl

abbrev pub operator : Operator Str (RevisionStore Files) Str
operator = record {
  store = store_storer env true;
  meta = pod_meta;
  nested_field = λ u path. ok (some u);
  deep_equal = λ a b. true;
  now = pos 0;
}

abbrev pub items : List (Item Str)
items = object (codes "web") ∷ object (codes "db") ∷ []

abbrev pods : Dynamic
pods = record {
  group_version = codes "v1";
  resource = codes "pods";
  kind = codes "Pod";
  namespace = [];
}

v1_pods-IsWatchable :
    (n : Str) (ns : List Str) → IsNamespace n ns → IsWatchable (codes "v1") (codes "Pod") n
v1_pods-IsWatchable n ns h = record {
  version_parts = codes "v1" ∷ [];
  version = core refl;
  kind = IsPlain-pod;
  namespace_parts = ns;
  namespace = h;
}

handler_for-watch_all_example :
    Handled inform
      (pods ∷ [])
      (codes "v1")
      (codes "Pod")
      (codes "default")
      (handler_for (watch_all inform (pods ∷ []) []) (codes "v1") (codes "Pod") (codes "default"))
handler_for-watch_all_example =
    handler_for-watch_all inform (pods ∷ []) (codes "v1") (codes "Pod") (codes "default")
      (v1_pods-IsWatchable [] [] (cluster_scoped refl), tt)
      (v1_pods-IsWatchable (codes "default") (codes "default" ∷ []) (namespaced IsPlain-default))

abbrev pub in_two : BackupRule Str
in_two = record {
  api_groups = codes "v1" ∷ [];
  resources = codes "pods" ∷ [];
  resource_names = [];
  namespaces = codes "a" ∷ codes "b" ∷ codes "a" ∷ [];
  label_selector = none;
  fields = [];
  rpo_policy = none;
}

abbrev pub pod_resource : ApiResourceList
pod_resource = record {
  group_version = codes "v1";
  api_resources = record { name = codes "pods"; kind = codes "Pod"; required_verbs = true } ∷ [];
}

abbrev factory : Discovery Dynamic
factory = dynamic_factory (λ t. ok t)

abbrev pub client_in : Str → Dynamic
client_in n = record pods { namespace = n }

two_clients :
    get_dynamics factory (pod_resource ∷ []) (in_two ∷ [])
    ≡ ok (client_in (codes "a") ∷ client_in (codes "b") ∷ [])
unfolding get_dynamics matches slice_in lookup insert client_for_group_version_resource
two_clients = refl

get_dynamics-AllReduced_example :
    (m : Dynamics factory) × (add_lists factory (pod_resource ∷ []) (in_two ∷ []) [] ≡ ok m)
    × AllReduced factory m (client_in (codes "a") ∷ client_in (codes "b") ∷ [])
get_dynamics-AllReduced_example =
    get_dynamics-AllReduced factory (pod_resource ∷ []) (in_two ∷ [])
      (client_in (codes "a") ∷ client_in (codes "b") ∷ []) two_clients
