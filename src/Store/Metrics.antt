-- ===== src/Store/Metrics.antt =====
-- pkg/store/metrics.go: the wrappers that count and time the requests to a store. The metrics are global,
-- so the state of the wrapped store holds them; a latency is the number of its observations.
pub mod Tally
use saiki.Prelude.{ℕ, suc, List, Option, Str}
use saiki.Errors.{Error, Result}
use saiki.Store.Revision.{RevisionFields, Revision}

pub record Metrics : Type 0 where
  pub get_counter : ℕ
  pub get_latency : ℕ
  pub create_counter : ℕ
  pub create_latency : ℕ
  pub delete_counter : ℕ
  pub delete_latency : ℕ
  pub list_counter : ℕ
  pub list_latency : ℕ

-- `RevisionInterface` of store.go, over the states of the store; `Delete` marks its revision.
pub record RevisionInterface (U T : Type 0) : Type 0 where
  pub create_by : Revision U → T → Result (Revision U) × T
  pub update_by : Revision U → T → Result (Revision U) × T
  pub delete_by : Revision U → T → (Option Error × Revision U) × T
  pub get_by : RevisionFields → T → Result (Option (Revision U)) × T
  pub list_by : Str → Str → Str → T → Result (List (Revision U)) × T

-- `AsyncWriteRevisionInterface`: `C` is what stands for the channel of a response.
pub record AsyncWriteRevisionInterface (U C T : Type 0) : Type 0 where
  pub interface : RevisionInterface U T
  pub async_create_by : Revision U → T → Result C × T
  pub async_update_by : Revision U → T → Result C × T
  pub async_delete_by : Revision U → T → Result C × T

pub record RevisionPurger (U T : Type 0) : Type 0 where
  pub purge_revision_by : Revision U → T → Option Error × T
  pub purge_revisions_by : List (Revision U) → T → (List (Revision U) × Option Error) × T

unfoldable pub inc_get : Metrics → Metrics
inc_get m = record m { get_counter = suc m.get_counter }

unfoldable pub inc_create : Metrics → Metrics
inc_create m = record m { create_counter = suc m.create_counter }

unfoldable pub inc_delete : Metrics → Metrics
inc_delete m = record m { delete_counter = suc m.delete_counter }

unfoldable pub inc_list : Metrics → Metrics
inc_list m = record m { list_counter = suc m.list_counter }

unfoldable pub observe_get : Metrics → Metrics
observe_get m = record m { get_latency = suc m.get_latency }

unfoldable pub observe_create : Metrics → Metrics
observe_create m = record m { create_latency = suc m.create_latency }

unfoldable pub observe_delete : Metrics → Metrics
observe_delete m = record m { delete_latency = suc m.delete_latency }

unfoldable pub observe_list : Metrics → Metrics
observe_list m = record m { list_latency = suc m.list_latency }

-- `on` changes the metrics inside of a state.
module _ {T : Type 0} (on : (Metrics → Metrics) → T → T) where
  -- a counter is increased, the call is made, and its latency is observed
  abbrev pub measured :
      {R : Type 0} → (Metrics → Metrics) → (Metrics → Metrics) → (T → R × T) → T → R × T
  measured inc observe f t = let (r, t') = f (on inc t) in (r, on observe t')

  module _ {U : Type 0} where
    -- `NewInstrumentedRevisionInterface`; a deletion is counted as one, and timed as an update.
    unfoldable pub instrumented_revision_interface : RevisionInterface U T → RevisionInterface U T
    instrumented_revision_interface r = record {
      create_by = λ rev. measured inc_create observe_create (r.create_by rev);
      update_by = λ rev. measured inc_create observe_create (r.update_by rev);
      delete_by = λ rev. measured inc_delete observe_create (r.delete_by rev);
      get_by = λ rev. measured inc_get observe_get (r.get_by rev);
      list_by =
          λ api_version kind name. measured inc_list observe_list (r.list_by api_version kind name);
    }

    -- `NewInstrumentedAsyncRevisionInterface`: an asynchronous call is timed until it has its channel.
    unfoldable pub instrumented_async_revision_interface :
        {C : Type 0} → AsyncWriteRevisionInterface U C T → AsyncWriteRevisionInterface U C T
    instrumented_async_revision_interface r = record {
      interface = instrumented_revision_interface r.interface;
      async_create_by = λ rev. measured inc_create observe_create (r.async_create_by rev);
      async_update_by = λ rev. measured inc_create observe_create (r.async_update_by rev);
      async_delete_by = λ rev. measured inc_delete observe_create (r.async_delete_by rev);
    }

    -- `NewInstrumentedRevisionPurger`: a whole list is one request.
    unfoldable pub instrumented_revision_purger : RevisionPurger U T → RevisionPurger U T
    instrumented_revision_purger r = record {
      purge_revision_by = λ rev. measured inc_delete observe_delete (r.purge_revision_by rev);
      purge_revisions_by = λ revs. measured inc_delete observe_delete (r.purge_revisions_by revs);
    }
