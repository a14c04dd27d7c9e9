-- ===== src/Tests/Queues.antt =====
-- The work queues of the operator at concrete inputs.
use saiki.Prelude.{
  ◌≡◌, refl, ◌⊎◌, true, List, [], ◌∷◌, ◌++◌, none, some, Str, codes, here, All, arith,
  if◌then◌else◌, ◌==◌, str_eq,
}
use saiki.Prelude.Int.{pos}
use saiki.Errors.{ok}
use saiki.Util.{slice_in}
use saiki.Store.Storage.{RevisionStore}
use saiki.Prelude.Dict.{lookup, insert}
use saiki.Golang.Strings.{split}
use saiki.Controller.Metrics.{depth, init_metrics, new_metrics, metric_name}
use saiki.Controller.Metrics.Registry.{Registers}
use saiki.Controller.Policy.{matches}
use saiki.Controller.Operator.Dynamics.{get_dynamics}
use saiki.Controller.Operator.Factory.{Dynamic, client_for_group_version_resource}
use saiki.Controller.Operator.Queues.{queue_name, new_queues, group_and_version}
use saiki.Controller.Operator.Queues.Names.{DistinctQueues, SharedQueue}
use saiki.Controller.Operator.Queues.Named.{WellNamed, of_label}
use saiki.Controller.Operator.Start.{Cluster, OperatorOptions, new_operator, panicked}
use saiki.Controller.Operator.Start.Begun.{Runs, new_operator-Runs}
use saiki.Tests.{Files, empty_store}
use saiki.Tests.Starting.{cluster, options, registerer, pod_resource, in_two, no_rules, client_in}

taken :
    (name other : Str) (r r' : List Str)
    → (if slice_in r name then none else some (name ∷ r)) ≡ some r'
    → slice_in r' other ≡ (if other == name then true else slice_in r other)
unfolding slice_in
taken name other r r' e = ground arith

registerer-Registers : Registers registerer
unfolding slice_in
registerer-Registers = record {
  accepts = λ name r v u. (name ∷ r, rw u refl);
  refuses = λ name r h. rw h refl;
  adds_name = taken;
}

-- pods are watched in the namespaces "a" and "b"
abbrev pod_cluster : Cluster Str (RevisionStore Files) (List Str)
pod_cluster = record cluster { server_groups_and_resources = ok (pod_resource ∷ []) }

abbrev pod_options : OperatorOptions Str (RevisionStore Files)
pod_options = record options {
  backup_policy = record no_rules { rules = in_two ∷ [] };
  reap_interval = pos 1;
}

abbrev in_a_and_b : List Dynamic
in_a_and_b = client_in (codes "a") ∷ client_in (codes "b") ∷ []

named : (n : Str) → All (λ b. of_label b ≡ true) n → WellNamed (client_in n)
unfolding group_and_version split
named n h = (tt, (refl, (refl, tt)), (refl, (refl, (refl, tt))), h)

queue_in_a : queue_name (client_in (codes "a")) ≡ codes "v1_Pod_a"
unfolding queue_name group_and_version split
queue_in_a = refl

-- Of two groups that differ in a dash and a dot, the second queue makes the registration panic.
abbrev grouped : Str → Dynamic
grouped group = record {
  group_version = group ++ codes "/v1";
  resource = codes "ks";
  kind = codes "K";
  namespace = [];
}

dash_and_dot :
    new_queues registerer (depth ∷ []) (grouped (codes "a-b.io") ∷ grouped (codes "a.b.io") ∷ []) []
    ≡ none
unfolding new_queues new_metrics metric_name queue_name group_and_version split slice_in
dash_and_dot = refl

new_operator-Runs_example :
    (DistinctQueues in_a_and_b
      × Runs pod_cluster pod_options in_a_and_b empty_store (new_operator pod_cluster pod_options))
    ⊎ (SharedQueue in_a_and_b × (new_operator pod_cluster pod_options ≡ panicked))
unfolding get_dynamics matches slice_in lookup insert client_for_group_version_resource init_metrics
new_operator-Runs_example =
    new_operator-Runs pod_cluster pod_options empty_store empty_store (pod_resource ∷ []) in_a_and_b
      [] refl refl refl refl refl refl registerer-Registers (λ n. refl) refl
      (((λ e. cc), ((λ e. cc), tt)), (((λ e. cc), tt), (tt, tt))) here
      (named (codes "a") (refl, tt), (named (codes "b") (refl, tt), tt))
