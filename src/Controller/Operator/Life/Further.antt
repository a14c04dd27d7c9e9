-- ===== src/Controller/Operator/Life/Further.antt =====
-- The loop of a worker of pkg/controller/controller.go, one item further.
use saiki.Prelude.{
  ◌≡◌, refl, sym, ap, ◌∙◌, inl, inr, Bool, true, false, List, [], ◌∷◌, ◌++◌, Option, none, some,
  codes, Option-cases,
}
use saiki.Errors.{Error}
use saiki.Controller.Operator.{Operator, OperatorState, Item, sync_store, process_unstructured}
use saiki.Controller.Operator.Run.{
  Ran, failed, panicked, finished, process_next_work_item, run_worker, run_from_wait,
}

module _ {U S F : Type 0} (o : Operator U S F) where
  -- the rest of a worker's items behind one of them
  abbrev onwards :
      List (Item U) → Option (OperatorState U S) → Option (List (Item U) × OperatorState U S)
  onwards items none = none
  onwards items (some s) = run_worker o items s

  run_worker_next :
      (item : Item U) (items : List (Item U)) (s : OperatorState U S)
      → run_worker o (item ∷ items) s ≡ onwards items (process_unstructured o item s)
  unfolding run_worker process_next_work_item
  run_worker_next item items s = go (process_unstructured o item s)
    where
      go :
          (p : Option (OperatorState U S))
          → (elim (elim p as (λ _. Option (Bool × OperatorState U S)) [
            | none ↦ none
            | some s' ↦ some (true, s')
          ])
              as (λ _. Option (List (Item U) × OperatorState U S)) [
                | none ↦ none
                | some r ↦ elim r.0 [ true ↦ run_worker o items r.1 | false ↦ some (items, r.1) ]
              ])
            ≡ onwards items p
      go none = refl
      go (some s') = refl

  pub run_worker_none : (s : OperatorState U S) → run_worker o [] s ≡ some ([], s)
  unfolding run_worker process_next_work_item
  run_worker_none s = refl

  pub run_worker-snoc :
      (items : List (Item U)) (item : Item U) (s t : OperatorState U S)
      → run_worker o items s ≡ some ([], t)
      → run_worker o (items ++ (item ∷ [])) s ≡ run_worker o (item ∷ []) t
  run_worker-snoc [] item s t e =
      let same : s ≡ t = cc (sym (run_worker_none s) ∙ e) in ap (run_worker o (item ∷ [])) same
  run_worker-snoc (i ∷ items) item s t e = elim (Option-cases (process_unstructured o i s)) [
    | inl p ↦ absurd (cc (sym e ∙ run_worker_next i items s ∙ ap (onwards items) p))
    | inr (s', p) ↦
        run_worker_next i (items ++ (item ∷ [])) s
        ∙ ap (onwards (items ++ (item ∷ []))) p
        ∙ run_worker-snoc items item s' t
            (sym (run_worker_next i items s ∙ ap (onwards items) p) ∙ e)
  ]

  abbrev stepped : Option (OperatorState U S) → Option (Bool × OperatorState U S)
  stepped none = none
  stepped (some s) = some (true, s)

  next_stepped :
      (item : Item U) (s : OperatorState U S)
      → process_next_work_item o (some item) s ≡ stepped (process_unstructured o item s)
  unfolding process_next_work_item
  next_stepped item s = go (process_unstructured o item s)
    where
      go :
          (p : Option (OperatorState U S))
          → (elim p as (λ _. Option (Bool × OperatorState U S)) [
            | none ↦ none
            | some s' ↦ some (true, s')
          ])
            ≡ stepped p
      go none = refl
      go (some s') = refl

  pub next_some :
      (item : Item U) (s t : OperatorState U S)
      → process_next_work_item o (some item) s ≡ some (true, t)
      → run_worker o (item ∷ []) s ≡ some ([], t)
  next_some item s t e =
      run_worker_next item [] s ∙ go (process_unstructured o item s) (sym (next_stepped item s) ∙ e)
    where
      go :
          (p : Option (OperatorState U S))
          → stepped p ≡ some (true, t)
          → onwards [] p ≡ some ([], t)
      go none e = cc
      go (some s') e =
          let same : s' ≡ t = cc in
          run_worker_none s' ∙ ap (λ (q : OperatorState U S). some ([], q)) same

  pub next_none :
      (item : Item U) (s : OperatorState U S)
      → process_next_work_item o (some item) s ≡ none
      → run_worker o (item ∷ []) s ≡ none
  next_none item s e =
      run_worker_next item [] s ∙ go (process_unstructured o item s) (sym (next_stepped item s) ∙ e)
    where
      go : (p : Option (OperatorState U S)) → stepped p ≡ none → onwards [] p ≡ none
      go none e = refl
      go (some s') e = cc

  abbrev pub ending : Option (List (Item U) × OperatorState U S) → Ran U S
  ending none = panicked
  ending (some r) = finished r.1

  abbrev by_sync : List (Item U) → Option Error × OperatorState U S → Ran U S
  by_sync items (some x, t) = failed (codes "syncing store")
  by_sync items (none, t) = ending (run_worker o items t)

  run_from_wait-by_sync :
      (items : List (Item U)) (s : OperatorState U S)
      → run_from_wait o true items s ≡ by_sync items (sync_store o s)
  unfolding run_from_wait
  run_from_wait-by_sync items s = go (sync_store o s)
    where
      ended :
          (r : Option (List (Item U) × OperatorState U S))
          → (elim r as (λ _. Ran U S) [ none ↦ panicked | some r ↦ finished r.1 ]) ≡ ending r
      ended none = refl
      ended (some r) = refl

      go :
          (p : Option Error × OperatorState U S)
          → (elim p.0 as (λ _. Ran U S) [
            | some x ↦ failed (codes "syncing store")
            | none ↦ elim (run_worker o items p.1) as (λ _. Ran U S) [
              | none ↦ panicked
              | some r ↦ finished r.1
            ]
          ])
            ≡ by_sync items p
      go (some x, t) = refl
      go (none, t) = ended (run_worker o items t)

  pub run_from_wait-not_cached :
      (s : OperatorState U S)
      → run_from_wait o false [] s ≡ failed (codes "failed to wait for caches to sync")
  unfolding run_from_wait
  run_from_wait-not_cached s = refl

  pub run_from_wait-store_failed :
      (s t : OperatorState U S) (x : Error)
      → sync_store o s ≡ (some x, t)
      → run_from_wait o true [] s ≡ failed (codes "syncing store")
  run_from_wait-store_failed s t x e = run_from_wait-by_sync [] s ∙ ap (by_sync []) e

  pub run_from_wait-run_worker :
      (items : List (Item U)) (s t : OperatorState U S)
      → sync_store o s ≡ (none, t)
      → run_from_wait o true items s ≡ ending (run_worker o items t)
  run_from_wait-run_worker items s t e = run_from_wait-by_sync items s ∙ ap (by_sync items) e
