-- ===== src/Controller/Operator/Queues.antt =====
-- The work queues of `watchDynamic` of pkg/controller/controller.go: their names, and the metrics that
-- are registered under these.
pub mod Named
pub mod Inverse
pub mod Names
pub mod Registered
use saiki.Prelude.{List, [], ◌∷◌, ◌++◌, Option, some, if◌then◌else◌, Str, ◌==◌, str_eq, nat_eq}
use saiki.Golang.Strings.{split}
use saiki.Controller.Metrics.{QueueMetric, Registerer, new_metrics, ◌>>=◌}
use saiki.Controller.Operator.Factory.{Dynamic}

-- `strings.Replace(s, "-", "_", -1)` and the same for a dot
unfoldable pub underscored : Str → Str
underscored [] = []
underscored (c ∷ s) = (if c == b'-' then b'_' else if c == b'.' then b'_' else c) ∷ underscored s

-- the group and the version of a group version's text
unfoldable pub group_and_version : List Str → Str × Str
group_and_version [] = ([], [])
group_and_version (version ∷ []) = ([], version)
group_and_version (group ∷ version ∷ more) = (group, version)

-- group, version, kind and namespace in one text
unfoldable pub spelled : Str → Str → Str → Str → Str
spelled group version kind namespace =
    let versioned = version ++ (b'_' ∷ kind) in
    let grouped = if group == [] then versioned else group ++ (b'_' ∷ versioned) in
    if namespace == [] then grouped else grouped ++ (b'_' ∷ namespace)

module _ (client : Dynamic) where
  abbrev pub group_of : Str
  group_of = (group_and_version (split b'/' client.group_version)).0

  abbrev pub version_of : Str
  version_of = (group_and_version (split b'/' client.group_version)).1

  -- the name of the work queue of a client
  unfoldable pub queue_name : Str
  unfolding spelled underscored
  queue_name = underscored (spelled group_of version_of client.kind client.namespace)

-- The queues of the clients, one after the other; `calls` are the methods of the provider that the
-- library calls for each. A panic of the registration is `none`.
module _ {R : Type 0} (lib : Registerer R) (calls : List QueueMetric) where
  unfoldable pub new_queues : List Dynamic → R → Option R
  new_queues [] r = some r
  new_queues (client ∷ clients) r =
      new_metrics lib calls (queue_name client) r >>= λ r'. new_queues clients r'
