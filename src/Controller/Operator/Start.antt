-- ===== src/Controller/Operator/Start.antt =====
-- How pkg/controller/controller.go makes an operator: `New` and `watchDynamic`.
pub mod Launched
pub mod Begun
pub mod Watches
use saiki.Prelude.{
  Bool, true, false, List, [], ◌∷◌, ◌++◌, Option, none, some, if◌then◌else◌, Str, ◌==◌, str_eq,
  nat_eq, codes,
}
use saiki.Prelude.Int.{ℤ, pos, ltb_ℤ}
use saiki.Errors.{Error, Result, ok, err}
use saiki.Handler.{ResourceHandler, ResourceHandlers, set_handler}
use saiki.Controller.Cache.{Cache}
use saiki.Controller.Policy.{RpoPolicy, BackupPolicy}
use saiki.Controller.Flusher.{Flush, new_flush}
use saiki.Controller.Purger.{new_purge}
use saiki.Controller.Operator.{OperatorState}
use saiki.Controller.Operator.Dynamics.{ApiResourceList, get_dynamics}
use saiki.Controller.Metrics.{QueueMetric, Registerer}
use saiki.Controller.Operator.Queues.{new_queues}
use saiki.Controller.Operator.Factory.{Dynamic, dynamic_factory}

-- The options that were given; an option that was not is `none`.
pub record OperatorOptions (U S : Type 0) : Type 0 where
  pub backup_policy : BackupPolicy U
  pub storer : Option S
  pub flusher : Option (Flush U)
  pub purger : Option (Cache U)
  pub has_reaper : Bool
  pub reap_interval : ℤ

-- A start ends the process, panics, or gives an operator.
pub data Started (U S : Type 0) : Type 0 where
  exited : Str → Started U S
  panicked : Started U S
  running : OperatorState U S → Started U S

-- `time.NewTicker` panics on an interval that is not positive.
abbrev pub ticks : ℤ → Bool
ticks interval = ltb_ℤ (pos 0) interval

-- `policy.RPOPolicy.RPO`: a nil policy is a panic
abbrev pub has_interval : Option RpoPolicy → Bool
has_interval none = false
has_interval (some p) = ticks p.rpo

module _ {U : Type 0} (inform : Dynamic → ResourceHandler U) where
  -- `watchDynamic`: `inform` stands for the informer that the client library makes. The queue
  -- beside it is that of `new_queues`.
  unfoldable pub watch_dynamic : Dynamic → ResourceHandlers U → ResourceHandlers U
  watch_dynamic client handlers =
      set_handler client.group_version client.kind client.namespace (inform client) handlers

  unfoldable pub watch_all : List Dynamic → ResourceHandlers U → ResourceHandlers U
  watch_all [] handlers = handlers
  watch_all (client ∷ clients) handlers = watch_all clients (watch_dynamic client handlers)

-- What `New` calls in the cluster and in the store.
pub record Cluster (U S R : Type 0) : Type 0 where
  pub server_groups_and_resources : Result (List ApiResourceList)
  pub write_config : List ApiResourceList → S → Option Error × S
  pub parse_group_version : Str → Result Str
  pub inform : Dynamic → ResourceHandler U
  -- what the library of work queues asks of the provider for each queue, and the metrics' registry
  pub queue_metrics : List QueueMetric
  pub registerer : Registerer R
  pub registry : R

module _ {U S R : Type 0} (cluster : Cluster U S R) (opts : OperatorOptions U S) where
  with_queues : Option R → List Dynamic → Flush U → Cache U → S → Started U S
  with_queues none clients f p s = panicked
  with_queues (some r) clients f p s = running (record {
    backup_policy = opts.backup_policy;
    resource_handlers = watch_all cluster.inform clients [];
    flusher = f;
    purger = p;
    stored = s;
  })

  watched : Result (List Dynamic) → Flush U → Cache U → S → Started U S
  unfolding with_queues
  watched (err e) f p s = exited (codes "flattening desired api resources to dynamic clients")
  watched (ok clients) f p s =
      with_queues (new_queues cluster.registerer cluster.queue_metrics clients cluster.registry)
        clients f p s

  configured : Result (List ApiResourceList) → Flush U → Cache U → S → Started U S
  unfolding watched
  configured (err e) f p s = exited (codes "discovering resources")
  configured (ok resources) f p s =
      let (e, s') = cluster.write_config resources s in
      elim e [
        | some x ↦ exited (codes "writing config")
        | none ↦
            watched
              (get_dynamics (dynamic_factory cluster.parse_group_version) resources
                opts.backup_policy.rules)
              f p s'
      ]

  with_reaper : Flush U → Cache U → S → Started U S
  unfolding configured
  with_reaper f p s =
      let started = configured cluster.server_groups_and_resources f p s in
      if opts.has_reaper then started else if ticks opts.reap_interval then started else panicked

  with_purger : Option (Cache U) → Flush U → S → Started U S
  unfolding with_reaper
  with_purger (some p) f s = with_reaper f p s
  with_purger none f s =
      if has_interval opts.backup_policy.rpo_policy then with_reaper f new_purge s else panicked

  with_flusher : Option (Flush U) → S → Started U S
  unfolding with_purger
  with_flusher (some f) s = with_purger opts.purger f s
  with_flusher none s =
      if has_interval opts.backup_policy.rpo_policy
      then with_purger opts.purger new_flush s
      else panicked

  -- `New`: what is not given is made from the policy, the configuration is written, and the
  -- resources of the policy are watched.
  unfoldable pub new_operator : Started U S
  unfolding with_flusher
  new_operator = elim opts.storer [
    | none ↦ exited (codes "storer must be set")
    | some s ↦ with_flusher opts.flusher s
  ]
