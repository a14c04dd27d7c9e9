-- ===== src/Tests/Living.antt =====
-- A life of the operator at concrete inputs.
use saiki.Prelude.{◌≡◌, refl, inl, true, [], ◌∷◌, Option, none, some, Str, codes}
use saiki.Prelude.Int.{pos, ltb_ℤ}
use saiki.Prelude.Dict.{Dict, lookup, insert}
use saiki.Store.Storage.{RevisionStore}
use saiki.Store.Storage.Sync.{sync}
use saiki.Store.Backend.{walk}
use saiki.Controller.Policy.{rule_for, RpoPolicy}
use saiki.Controller.Operator.{OperatorState, Item, object, sync_store, process_unstructured}
use saiki.Controller.Operator.Run.{run_worker, finished, process_next_work_item}
use saiki.Controller.Operator.Http.{HttpOptions, HttpHandler, Response, answer, start_http_server}
use saiki.Controller.Operator.Life.{
  Life, syncing, working, ended, begun, Steps, none_yet, further, probed, caches_synced,
  store_synced, worked, done,
}
use saiki.Controller.Operator.Life.Explained.{Explained, Steps-Explained}
use saiki.Controller.Operator.Unbroken.{Drains, Survives}
use saiki.Controller.Operator.Start.Launched.{new_operator-run_worker}
use saiki.Tests.{Files}
use saiki.Tests.Starting.{operator, started, cluster, options, options-started, items, no_rules}

abbrev http : HttpOptions
http = record {
  metrics_handler = codes "/metrics";
  readiness_handler = codes "/healthz";
  http_server_port = 3800;
}

abbrev not_ready : Response
not_ready = record { status = 503; text = codes "saiki is still initializing" }

abbrev is_ready : Response
is_ready = record { status = 200; text = codes "ok" }

-- Two handlers at one path make the server's goroutine panic.
same_path : start_http_server (record http { readiness_handler = codes "/metrics" }) ≡ none
unfolding start_http_server lookup insert
same_path = refl

abbrev synced : OperatorState Str (RevisionStore Files)
synced = (sync_store operator started).1

abbrev or_synced :
    Option (OperatorState Str (RevisionStore Files)) → OperatorState Str (RevisionStore Files)
or_synced none = synced
or_synced (some s) = s

abbrev item : Item Str
item = object (codes "web")

abbrev behind : OperatorState Str (RevisionStore Files)
behind = or_synced (process_unstructured operator item synced)

abbrev at_end : Life Str (RevisionStore Files)
at_end = record {
  phase = ended (finished behind);
  ready = true;
  state = behind;
  taken = item ∷ [];
  answers = is_ready ∷ not_ready ∷ [];
}

abbrev probed_early : Life Str (RevisionStore Files)
probed_early = record (begun started) { answers = not_ready ∷ [] }

abbrev with_caches : Life Str (RevisionStore Files)
with_caches = record probed_early { phase = syncing }

abbrev with_workers : Life Str (RevisionStore Files)
with_workers = record with_caches { phase = working; ready = true; state = synced }

abbrev probed_late : Life Str (RevisionStore Files)
probed_late = record with_workers { answers = is_ready ∷ not_ready ∷ [] }

abbrev one_done : Life Str (RevisionStore Files)
one_done = record probed_late { state = behind; taken = item ∷ [] }

-- a probe, the synced caches and store, another probe, an item, and the end
life : Steps operator http (begun started) at_end
unfolding answer sync_store process_next_work_item lookup insert sync walk process_unstructured
    rule_for
life =
    further
      (further
        (further
          (further
            (further (further none_yet (probed (begun started) (codes "/healthz") not_ready refl))
              (caches_synced probed_early refl))
            (store_synced with_caches synced refl refl))
          (probed with_workers (codes "/healthz") is_ready refl))
        (worked probed_late item behind refl refl))
      (done one_done refl)

Steps-Explained_example : Explained operator http started at_end
Steps-Explained_example = Steps-Explained operator http started life

handlers_served : (mux : Dict Str HttpHandler) × (start_http_server http ≡ some mux)
unfolding start_http_server lookup insert
handlers_served = (_, refl)

new_operator-run_worker_example :
    (d : RpoPolicy) × (no_rules.rpo_policy ≡ some d)
    × (ltb_ℤ (pos 0) d.rpo ≡ true)
    × Drains operator d (run_worker operator items started)
    × Survives operator d (finished behind)
new_operator-run_worker_example =
    new_operator-run_worker cluster options started operator items http handlers_served.0 at_end
      (finished behind) (inl refl) options-started handlers_served.1 life refl
