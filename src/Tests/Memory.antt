-- ===== src/Tests/Memory.antt =====
-- The theorems about the getter in memory, and the store behind it, at concrete inputs.
use saiki.Prelude.{◌≡◌, refl, true, false, [], ◌∷◌, none, Str, codes, str_eq, In, here}
use saiki.Prelude.Int.{pos}
use saiki.Errors.{not_found, err}
use saiki.Golang.Time.{zero_time}
use saiki.Store.Storage.{RevisionStore}
use saiki.Store.Storage.State.{StateOptions}
use saiki.Store.Storer.{Storer, store_storer}
use saiki.Store.InMemory.{MemCache, set_revision, delete_cached, mem_get, cache_state}
use saiki.Store.InMemory.Lookup.{mem_get-delete_latest}
use saiki.Store.InMemory.Query.{mem_state, drops}
use saiki.Store.InMemory.Query.Panics.{mem_state_panics}
use saiki.Store.ReadWrite.{ReadWriteStore, rw_get, rw_update}
use saiki.Store.ReadWrite.Coherence.{rw_get-rw_update, read_after}
use saiki.Tests.{Files, env, web, web_at, empty_store}

abbrev one_web : MemCache Str
one_web = record {
  m = (codes "v1/Pod/default/web", (pos 4, web_at (pos 4)) ∷ []) ∷ [];
  latest_cache = [];
}

mem_get-delete_latest_example :
    mem_get
      (web (pos 7) false)
      (delete_cached (web_at (pos 7)) (set_revision (web_at (pos 7)) one_web))
    ≡ err not_found
mem_get-delete_latest_example = mem_get-delete_latest (web_at (pos 7)) one_web

abbrev only_nodes : StateOptions Str
only_nodes = record {
  api_version = [];
  kind = codes "Node";
  label_selector = none;
  time = zero_time;
  namespace = [];
  all_namespaces = true;
  name = [];
  all_revisions = false;
  only_deleted = false;
}

one_web-In : In (codes "v1/Pod/default/web", web_at (pos 4) ∷ []) (cache_state one_web)
unfolding cache_state
one_web-In = here

no_node : drops only_nodes (web_at (pos 4)) ≡ true
unfolding drops
no_node = refl

mem_state_panics_example : mem_state only_nodes one_web ≡ none
mem_state_panics_example =
    mem_state_panics only_nodes one_web (codes "v1/Pod/default/web") (web_at (pos 4)) [] one_web-In
      refl no_node

abbrev storer : Storer Str (RevisionStore Files)
storer = store_storer env true

abbrev both : ReadWriteStore Str (RevisionStore Files)
both = record { storer = empty_store; reader = one_web }

rw_get-rw_update_example :
    rw_get storer (web (pos 1) false) (rw_update storer (web_at (pos 7)) both).1
    ≡ read_after storer
        (storer.update_in (web_at (pos 7)) empty_store).0
        (web_at (pos 7))
        (web (pos 1) false)
        both
rw_get-rw_update_example = rw_get-rw_update storer (web_at (pos 7)) (web (pos 1) false) both
