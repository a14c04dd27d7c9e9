-- ===== src/Controller/Operator/Run.antt =====
-- The workers' loop of pkg/controller/controller.go, and the order in which `Run` starts it.
use saiki.Prelude.{Bool, true, false, List, [], ◌∷◌, Option, none, some, if◌then◌else◌, Str, codes}
use saiki.Controller.Operator.{Operator, OperatorState, Item, process_unstructured, sync_store}

-- the end of `Run`
pub data Ran (U S : Type 0) : Type 0 where
  failed : Str → Ran U S
  panicked : Ran U S
  finished : OperatorState U S → Ran U S

module _ {U S F : Type 0} (o : Operator U S F) where
  -- `processNextWorkItem`: what `Get` gives is an item, or the end of the queue. True asks for more;
  -- `none` is a panic.
  unfoldable pub process_next_work_item :
      Option (Item U) → OperatorState U S → Option (Bool × OperatorState U S)
  process_next_work_item none s = some (false, s)
  process_next_work_item (some item) s = elim (process_unstructured o item s) [
    | none ↦ none
    | some s' ↦ some (true, s')
  ]

  -- `runWorker`, on the items that its queue gives until it is shut down: the state afterwards and the
  -- items that were left in the queue
  unfoldable pub run_worker :
      List (Item U) → OperatorState U S → Option (List (Item U) × OperatorState U S)
  run_worker [] s = elim (process_next_work_item none s) [ none ↦ none | some r ↦ some ([], r.1) ]
  run_worker (item ∷ items) s = elim (process_next_work_item (some item) s) [
    | none ↦ none
    | some r ↦ elim r.0 [ true ↦ run_worker items r.1 | false ↦ some (items, r.1) ]
  ]

  -- `Run` from its wait for the informers' caches on, behind the `go` statement that starts the HTTP
  -- server: what that goroutine does beside it, its panics included, stands in Life. The store is
  -- synced after the caches, and before any worker runs. `items` is what the workers together take from
  -- the queues, in the order in which they take it, until the context ends.
  unfoldable pub run_from_wait : Bool → List (Item U) → OperatorState U S → Ran U S
  unfolding run_worker
  run_from_wait caches_synced items s =
      let (e, s') = sync_store o s in
      let worked = elim (run_worker items s') as (λ _. Ran U S) [
        | none ↦ panicked
        | some r ↦ finished r.1
      ] in
      if caches_synced
      then elim e [ some x ↦ failed (codes "syncing store") | none ↦ worked ]
      else failed (codes "failed to wait for caches to sync")
