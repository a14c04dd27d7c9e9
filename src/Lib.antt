-- ===== src/Lib.antt =====
-- saiki: the backup of Kubernetes objects as revisions in a bucket.
--
-- The program watches the resources that its policy names. A worker makes a revision of each object
-- that it gets from an informer's queue, looks up the rule for it, and queues it at the flusher, which
-- writes its pending revisions to the store at an interval. The reaper looks for old revisions in the
-- store and queues them at the purger, which removes them at an interval. The store keeps each
-- revision as one blob, whose key spells the revision's fields; a getter in memory may stand before it.
--
-- The files and the code that they are about; `U` is the type of Kubernetes objects throughout.
--
-- - Store/Revision: pkg/store/revision.go, the fields, the keys (`Key`, `ResourceKey`) and their parser
--   (`ParseLazyLoadingRevision`); Store/RevisionList: `Less` and `Cut`.
-- - Store/Backend: pkg/store/backend/cloud/blob/blob.go over a bucket, which is a record of what the
--   calls of the Go CDK return; Store/Backend/Walk and Store/Backend/RemoveAll: its two loops.
--   Store/Backend/Requests: what the bulk deletion asks S3 for, by a bucket that remembers it.
--   Store/Backend/Instrumented: pkg/store/backend/metrics.go.
-- - Store/Storage: pkg/store/storage.go; the record `Env` holds what a store is made of, and the
--   record `RevisionStore` what changes. Store/Storage/State, Sync and Purge: the methods of these
--   names. Store/Storer: the interface of pkg/store/store.go, which the controller takes as a
--   parameter and the store fills.
-- - Store/Metrics: pkg/store/metrics.go, wrappers of the interfaces of pkg/store/store.go whose state
--   holds the counters; Store/Marshal: the texts of pkg/store/state.go and of a list of revisions.
-- - Store/Open: how the settings choose a backend and a store (pkg/store/backend/backends.go, `New` in
--   pkg/store/backend/cloud/blob/blob.go and pkg/store/storage.go).
-- - Store/InMemory and Store/InMemory/Query: pkg/store/inmemory_getter.go; Store/ReadWrite:
--   pkg/store/readwrite.go; Store/AsyncWriter: pkg/store/asyncwriter.go, as a step relation.
-- - Store/Crypt: pkg/store/crypt; Store/Config: pkg/store/config.
-- - Controller/Cache, Policy, Flusher, Purger, Reaper: the packages of these names under
--   pkg/controller; Controller/Metrics: pkg/controller/metrics.go; Controller/Operator:
--   pkg/controller/controller.go, what a worker does with an item (`processUnstructured`), and in
--   Controller/Operator/Dynamics `getDynamics`, with the namespaces of its clients in
--   Dynamics/Namespaces. Under Controller/Operator stand Factory (pkg/discovery/factory.go), Queues
--   (the work queues of `watchDynamic` and their metrics), Start (`New` and `watchDynamic`, with
--   what they leave in Start/Launched, Start/Begun and Start/Watches), Run (`Run` from its
--   wait for the caches on, and the loop of a worker), Unbroken (workers under a policy with a default), Http (the HTTP handlers) and Life
--   (`Run` beside the goroutine of the HTTP server, as a step relation).
-- - Handler: pkg/handler/resource.go; Rpo: pkg/rpo/rpo.go; Util: pkg/util/sliceutil; Errors:
--   pkg/errors.
-- - Cmd/Revisions: the subcommand of cmd/revisions.go: which revisions it works on, in
--   Cmd/Revisions/Command the command with its verbs, and in Cmd/Revisions/Apply how it applies an
--   object to the cluster; Cmd/State: the options and the table of cmd/state.go, Cmd/State/Export
--   the files that it writes to a directory, and Cmd/State/Run the command from its flags to these.
-- - Golang: what the code uses of Go's packages strings, strconv, path/filepath and time. Prelude: names
--   and lemmas that all files share. Tests: data, and theorems at concrete inputs.
--
-- A method that changes its receiver returns the changed record beside its result. An error is a
-- value of `Result` or an `Option`; a panic is `none` or a value of its own where a file says so. A Go
-- map is an association list: a `range` over it runs in the order of the list, which is any order. Texts
-- are lists of bytes, and integers are over the native numbers; a resource version and a timestamp are
-- assumed to fit 64 bits where a theorem needs it. No loop needs fuel: the loop over the chunks of a bulk
-- deletion runs the number of rounds that the code computes, and each other loop runs over a list.
-- Locks make each operation of a cache one step.
--
-- Parameters are: the bucket of the Go CDK with S3's bulk deletion, the JSON codec, the AEAD, the
-- clock, what an informer's store answers, the cluster behind its client library, the calls of package
-- os, and the parts and fields of a Kubernetes object. Not modelled are the informers, tickers and
-- signals around the modelled rounds; the counters of the flusher, the purger and the reaper, which
-- nothing reads; the reading of flags and the output formats of `revisions get`; and the constructors
-- that only call a library. The store of Store/Storage is the one without the wrappers of
-- Store/Metrics and Store/Backend/Instrumented.
pub mod Prelude
pub mod Golang
pub mod Errors
pub mod Util
pub mod Store
pub mod Handler
pub mod Rpo
pub mod Controller
pub mod Cmd
pub mod Tests
