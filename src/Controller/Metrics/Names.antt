-- ===== src/Controller/Metrics/Names.antt =====
-- The names of the metrics of pkg/controller/metrics.go: which method made a name, and for which queue.
use saiki.Prelude.{
  ℕ, ◌≡◌, ◌≢◌, refl, Bool, true, ◌&&◌, sym, ap, ◌∙◌, [], ◌∷◌, ◌++◌, some, if◌then◌else◌, Str, ◌==◌,
  nat_eq, codes, drop, All, arith,
}
use saiki.Controller.Metrics.{
  QueueMetric, depth, adds, latency, longest_running_processor_seconds, unfinished_work_seconds,
  work_duration, retries, metric_name, metric_char, other_names,
}

-- a name that a method makes for a queue
abbrev pub MadeFor : Str → Str → Type 0
MadeFor queue name = (m : QueueMetric) × (metric_name m queue ≡ some name)

by_letters : ℕ → ℕ → QueueMetric
by_letters c d =
    if c == b'd'
    then (if d == b'e' then depth else work_duration)
    else if c == b'a'
    then adds
    else if c == b'l'
    then latency
    else if c == b'u'
    then unfinished_work_seconds
    else if c == b'r'
    then retries
    else longest_running_processor_seconds

at_eleventh : Str → QueueMetric
unfolding by_letters
at_eleventh (c ∷ d ∷ s) = by_letters c d
at_eleventh _ = depth

-- the method, by two letters of the name
metric_at : Str → QueueMetric
unfolding at_eleventh
metric_at name = at_eleventh (drop 10 name)

prefix_length : QueueMetric → ℕ
prefix_length depth = 16
prefix_length adds = 15
prefix_length latency = 18
prefix_length longest_running_processor_seconds = 32
prefix_length unfinished_work_seconds = 34
prefix_length work_duration = 19
prefix_length retries = 18
prefix_length _ = 0

some-injective : {x y : Str} → some x ≡ some y → x ≡ y
some-injective e = cc

-- What a method made is none of the other names of the package, and the method and the queue can be
-- read from it.
abbrev Reads : QueueMetric → Str → Str → Type 0
Reads m queue name =
    (metric_at name ≡ m)
    × (drop (prefix_length m) name ≡ queue)
    × All (λ other. name ≢ other) other_names

metric_name-Reads :
    (m : QueueMetric) (queue name : Str) → metric_name m queue ≡ some name → Reads m queue name
unfolding metric_at metric_name prefix_length other_names
metric_name-Reads depth q n e = rw (← (some-injective e)) (refl, refl, ground arith)
metric_name-Reads adds q n e = rw (← (some-injective e)) (refl, refl, ground arith)
metric_name-Reads latency q n e = rw (← (some-injective e)) (refl, refl, ground arith)
metric_name-Reads longest_running_processor_seconds q n e =
    rw (← (some-injective e)) (refl, refl, ground arith)
metric_name-Reads unfinished_work_seconds q n e =
    rw (← (some-injective e)) (refl, refl, ground arith)
metric_name-Reads work_duration q n e = rw (← (some-injective e)) (refl, refl, ground arith)
metric_name-Reads retries q n e = rw (← (some-injective e)) (refl, refl, ground arith)
metric_name-Reads _ q n e = cc

all_letters : Str → Bool
all_letters [] = true
all_letters (c ∷ s) = metric_char c && all_letters s

prefixed :
    (p q : Str)
    → all_letters p ≡ true
    → All (λ c. metric_char c ≡ true) q
    → All (λ c. metric_char c ≡ true) (p ++ q)
unfolding all_letters
prefixed [] q h hq = hq
prefixed (c ∷ p) q h hq = (ground (arith, h), prefixed p q (ground (arith, h)) hq)

pub metric_name-MetricChars :
    (m : QueueMetric) (queue name : Str)
    → metric_name m queue ≡ some name
    → All (λ c. metric_char c ≡ true) queue
    → All (λ c. metric_char c ≡ true) name
unfolding metric_name all_letters
metric_name-MetricChars depth q n e h =
    rw (← (some-injective e)) (prefixed (codes "workqueue_depth_") q refl h)
metric_name-MetricChars adds q n e h =
    rw (← (some-injective e)) (prefixed (codes "workqueue_adds_") q refl h)
metric_name-MetricChars latency q n e h =
    rw (← (some-injective e)) (prefixed (codes "workqueue_latency_") q refl h)
metric_name-MetricChars longest_running_processor_seconds q n e h =
    rw (← (some-injective e)) (prefixed (codes "longest_running_process_seconds_") q refl h)
metric_name-MetricChars unfinished_work_seconds q n e h =
    rw (← (some-injective e)) (prefixed (codes "workqueue_unfinished_work_seconds_") q refl h)
metric_name-MetricChars work_duration q n e h =
    rw (← (some-injective e)) (prefixed (codes "workqueue_duration_") q refl h)
metric_name-MetricChars retries q n e h =
    rw (← (some-injective e)) (prefixed (codes "workqueue_retries_") q refl h)
metric_name-MetricChars _ q n e h = cc

-- A name is made by one method for one queue.
pub MadeFor-unique : (q q' n : Str) (a : MadeFor q n) (b : MadeFor q' n) → (a.0 ≡ b.0) × (q ≡ q')
MadeFor-unique q q' n (m, e) (m', e') =
    let (x, y, z) = metric_name-Reads m q n e in
    let (x', y', z') = metric_name-Reads m' q' n e' in
    let same : m ≡ m' = sym x ∙ x' in (same, sym y ∙ ap (λ k. drop (prefix_length k) n) same ∙ y')

pub MadeFor-other : (q n : Str) → MadeFor q n → All (λ other. n ≢ other) other_names
MadeFor-other q n (m, e) = (metric_name-Reads m q n e).2
