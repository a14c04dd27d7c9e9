-- ===== src/Store/InMemory/Query/Panics.antt =====
-- When `State` of the getter in memory panics, and what it returns where nothing is filtered.
use saiki.Prelude.{
  ◌≡◌, refl, ap, ◌∙◌, true, false, List, [], ◌∷◌, Option, none, some, Str, In, here, there, arith,
}
use saiki.Prelude.Dict.{Dict}
use saiki.Store.Revision.{Revision}
use saiki.Store.Storage.State.{StateOptions}
use saiki.Store.InMemory.{MemCache, cache_state}
use saiki.Store.InMemory.Query.{
  drops, scan_from, close, query_resource, add_entry, query_all, mem_state,
}

module _ {U : Type 0} (o : StateOptions U) where
  add_entry_panics :
      (rk : Str) (q : Option (Option (List (Revision U)))) → add_entry rk q none ≡ none
  unfolding add_entry
  add_entry_panics rk none = refl
  add_entry_panics rk (some q) = refl

  query_all_panics :
      (rk : Str) (revs : List (Revision U)) (state : Dict Str (List (Revision U)))
      → In (rk, revs) state
      → query_resource o revs ≡ none
      → query_all o state ≡ none
  unfolding query_all add_entry
  query_all_panics rk revs [] m h = elim m [ ]
  query_all_panics rk revs (_ ∷ state) here h = rw h refl
  query_all_panics rk revs ((j, other) ∷ state) (there m) h =
      ap (add_entry j (query_resource o other)) (query_all_panics rk revs state m h)
      ∙ add_entry_panics j (query_resource o other)

  first_drops :
      (rev : Revision U) (revs : List (Revision U))
      → o.all_revisions ≡ false
      → drops o rev ≡ true
      → query_resource o (rev ∷ revs) ≡ none
  unfolding query_resource close scan_from
  first_drops rev revs h d = ground (arith, h, d)

  -- Unless all revisions are asked for, `State` of the getter in memory panics as soon as it holds one
  -- resource whose first revision is not of the asked API version, kind, namespace or name.
  pub mem_state_panics :
      (c : MemCache U) (rk : Str) (rev : Revision U) (revs : List (Revision U))
      → In (rk, rev ∷ revs) (cache_state c)
      → o.all_revisions ≡ false
      → drops o rev ≡ true
      → mem_state o c ≡ none
  unfolding mem_state
  mem_state_panics c rk rev revs m h d =
      query_all_panics rk (rev ∷ revs) (cache_state c) m (first_drops rev revs h d)
