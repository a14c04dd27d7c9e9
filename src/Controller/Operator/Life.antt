-- ===== src/Controller/Operator/Life.antt =====
-- `Run` of pkg/controller/controller.go beside the goroutine of its HTTP server, as a step relation: the
-- caches and the store are synced, the workers take items, and probes are answered at any time.
pub mod Further
pub mod Explained
use saiki.Prelude.{◌≡◌, Bool, true, false, List, [], ◌∷◌, ◌++◌, none, some, Str, codes}
use saiki.Errors.{Error}
use saiki.Controller.Operator.{Operator, OperatorState, Item, sync_store}
use saiki.Controller.Operator.Run.{Ran, failed, panicked, finished, process_next_work_item}
use saiki.Controller.Operator.Http.{HttpOptions, Response, answer, start_http_server}

-- `waiting` for the caches, `syncing` the store, with the workers started, and at the end of `Run`
pub data Phase (U S : Type 0) : Type 0 where
  waiting syncing working : Phase U S
  ended : Ran U S → Phase U S

-- `taken` are the items that the workers have processed, and `answers` the responses of the readiness
-- handler, the last one first.
pub record Life (U S : Type 0) : Type 0 where
  pub phase : Phase U S
  pub ready : Bool
  pub state : OperatorState U S
  pub taken : List (Item U)
  pub answers : List Response

abbrev pub begun : {U S : Type 0} → OperatorState U S → Life U S
begun s = record { phase = waiting; ready = false; state = s; taken = []; answers = [] }

module _ {U S F : Type 0} (o : Operator U S F) (h : HttpOptions) where
  pub data Step : Life U S → Life U S → Type 0 where
    probed :
        (l : Life U S) (path : Str) (a : Response)
        → answer h path l.ready ≡ some a
        → Step l (record l { answers = a ∷ l.answers })
    crashed :
        (l : Life U S) → start_http_server h ≡ none → Step l (record l { phase = ended panicked })
    caches_synced : (l : Life U S) → l.phase ≡ waiting → Step l (record l { phase = syncing })
    caches_failed :
        (l : Life U S)
        → l.phase ≡ waiting
        → Step l (record l { phase = ended (failed (codes "failed to wait for caches to sync")) })
    store_synced :
        (l : Life U S) (s : OperatorState U S)
        → l.phase ≡ syncing
        → sync_store o l.state ≡ (none, s)
        → Step l (record l { phase = working; ready = true; state = s })
    store_failed :
        (l : Life U S) (x : Error) (s : OperatorState U S)
        → l.phase ≡ syncing
        → sync_store o l.state ≡ (some x, s)
        → Step l (record l { phase = ended (failed (codes "syncing store")); state = s })
    worked :
        (l : Life U S) (item : Item U) (s : OperatorState U S)
        → l.phase ≡ working
        → process_next_work_item o (some item) l.state ≡ some (true, s)
        → Step l (record l { state = s; taken = l.taken ++ (item ∷ []) })
    broke :
        (l : Life U S) (item : Item U)
        → l.phase ≡ working
        → process_next_work_item o (some item) l.state ≡ none
        → Step l (record l { phase = ended panicked })
    done :
        (l : Life U S) → l.phase ≡ working → Step l (record l { phase = ended (finished l.state) })

  pub data Steps (l : Life U S) : Life U S → Type 0 where
    none_yet : Steps l l
    further : {m n : Life U S} → Steps l m → Step m n → Steps l n
