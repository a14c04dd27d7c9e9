-- ===== src/Controller/Metrics.antt =====
-- pkg/controller/metrics.go: the metrics of the work queues, and their registration in the Prometheus
-- library. Every name stands under the namespace "saiki" and the subsystem "controller".
pub mod Names
pub mod Registry
use saiki.Prelude.{
  ℕ, Bool, ◌&&◌, ◌||◌, leb, ◌==◌, nat_eq, List, [], ◌∷◌, ◌++◌, Option, none, some, Str, codes,
}

-- The methods of `queueMetricsProvider`, which the library of work queues calls.
pub data QueueMetric : Type 0 where
  depth adds latency longest_running_processor_seconds unfinished_work_seconds : QueueMetric
  work_duration retries : QueueMetric
  deprecated_adds deprecated_depth deprecated_latency : QueueMetric
  deprecated_longest_running_processor : QueueMetric
  deprecated_longest_running_processor_microseconds : QueueMetric
  deprecated_retries deprecated_unfinished_work_seconds deprecated_work_duration : QueueMetric

-- What a method registers for a queue; the deprecated metrics do nothing and are not registered.
unfoldable pub metric_name : QueueMetric → Str → Option Str
metric_name depth name = some (codes "workqueue_depth_" ++ name)
metric_name adds name = some (codes "workqueue_adds_" ++ name)
metric_name latency name = some (codes "workqueue_latency_" ++ name)
metric_name longest_running_processor_seconds name =
    some (codes "longest_running_process_seconds_" ++ name)
metric_name unfinished_work_seconds name = some (codes "workqueue_unfinished_work_seconds_" ++ name)
metric_name work_duration name = some (codes "workqueue_duration_" ++ name)
metric_name retries name = some (codes "workqueue_retries_" ++ name)
metric_name deprecated_adds name = none
metric_name deprecated_depth name = none
metric_name deprecated_latency name = none
metric_name deprecated_longest_running_processor name = none
metric_name deprecated_longest_running_processor_microseconds name = none
metric_name deprecated_retries name = none
metric_name deprecated_unfinished_work_seconds name = none
metric_name deprecated_work_duration name = none

-- The Prometheus library: `MustRegister` of a metric of a name, which may panic.
pub record Registerer (R : Type 0) : Type 0 where
  pub registered : R → Str → Bool
  pub must_register : Str → R → Option R

-- the metrics that are not of a queue
unfoldable pub other_names : List Str
other_names =
    codes "last_seen_resource_version"
    ∷ codes "last_processed_resource_version"
    ∷ codes "processing_errors"
    ∷ []

-- the characters of a name, as the library documents them
abbrev pub metric_char : ℕ → Bool
metric_char c =
    (leb b'a' c && leb c b'z')
    || (leb b'A' c && leb c b'Z')
    || (leb b'0' c && leb c b'9')
    || c == b'_'
    || c == b':'

infixl 5 ◌>>=◌
abbrev pub ◌>>=◌ {ℓ κ} : {A : Type ℓ} {B : Type κ} → Option A → (A → Option B) → Option B
none >>= f = none
some a >>= f = f a

module _ {R : Type 0} (lib : Registerer R) where
  unfoldable pub must_register_all : List Str → R → Option R
  must_register_all [] r = some r
  must_register_all (name ∷ names) r = lib.must_register name r >>= λ r'. must_register_all names r'

  -- `init`
  unfoldable pub init_metrics : R → Option R
  unfolding must_register_all other_names
  init_metrics = must_register_all other_names

  -- one method of the provider
  unfoldable pub new_metric : QueueMetric → Str → R → Option R
  new_metric m name r = elim (metric_name m name) [ none ↦ some r | some n ↦ lib.must_register n r ]

  -- the methods that the library calls for a queue of this name
  unfoldable pub new_metrics : List QueueMetric → Str → R → Option R
  unfolding new_metric
  new_metrics [] name r = some r
  new_metrics (m ∷ ms) name r = new_metric m name r >>= λ r'. new_metrics ms name r'
