-- ===== src/Controller/Operator/Life/Explained.antt =====
-- What the life of an operator of pkg/controller/controller.go has to do with its `Run`, and what its
-- readiness handler answers.
use saiki.Prelude.{
  ◌≡◌, refl, sym, subst, ap, ◌∙◌, ◌⊎◌, inl, inr, Bool, true, false, List, [], ◌∷◌, ◌++◌, none, some,
  All,
}
use saiki.Controller.Operator.{Operator, OperatorState, Item, sync_store}
use saiki.Controller.Operator.Run.{Ran, panicked, run_worker, run_from_wait}
use saiki.Controller.Operator.Life.Further.{
  run_worker-snoc, next_some, next_none, run_worker_none, ending, run_from_wait-not_cached,
  run_from_wait-store_failed, run_from_wait-run_worker,
}
use saiki.Controller.Operator.Http.{
  HttpOptions, Response, answer-respond, respond, start_http_server,
}
use saiki.Controller.Operator.Life.{
  Phase, waiting, syncing, working, ended, Life, begun, Step, probed, crashed, caches_synced,
  caches_failed, store_synced, store_failed, worked, broke, done, Steps, none_yet, further,
}

-- every answer says that the operator is not ready
abbrev pub Unready : List Response → Type 0
Unready = All (λ a. a ≡ respond false)

-- Once an answer says that the operator is ready, all later ones do; the last answer stands first.
abbrev pub Settled : List Response → Type 0
Settled [] = Unit
Settled (a ∷ answers) =
    ((a ≡ respond true) × Settled answers) ⊎ ((a ≡ respond false) × Unready answers)

Unready-Settled : (answers : List Response) → Unready answers → Settled answers
Unready-Settled [] h = tt
Unready-Settled (a ∷ answers) h = inr (h.0, h.1)

module _ {U S F : Type 0} (o : Operator U S F) (h : HttpOptions) (s : OperatorState U S) where
  -- the state when the store was synced without an error
  abbrev pub Synced : Type 0
  Synced = (t : OperatorState U S) × (sync_store o s ≡ (none, t))

  -- the end of `Run` on the items taken, the one that made it panic included, or the crash of the
  -- server's goroutine
  abbrev pub Ends : List (Item U) → Ran U S → Type 0
  Ends taken r =
      ((synced : Bool) × (items : List (Item U)) × (run_from_wait o synced items s ≡ r)
        × ((items ≡ taken) ⊎ ((item : Item U) × (items ≡ taken ++ (item ∷ [])))))
      ⊎ ((r ≡ panicked) × (start_http_server h ≡ none))

  abbrev pub Phased : Life U S → Phase U S → Type 0
  Phased l waiting = Unready l.answers × (l.ready ≡ false) × (l.state ≡ s) × (l.taken ≡ [])
  Phased l syncing = Unready l.answers × (l.ready ≡ false) × (l.state ≡ s) × (l.taken ≡ [])
  Phased l working =
      Settled l.answers
      × (l.ready ≡ true)
      × (t : OperatorState U S) × (sync_store o s ≡ (none, t))
      × (run_worker o l.taken t ≡ some ([], l.state))
  Phased l (ended r) =
      ((Unready l.answers × (l.ready ≡ false)) ⊎ (Settled l.answers × (l.ready ≡ true) × Synced))
      × Ends l.taken r

  abbrev pub Explained : Life U S → Type 0
  Explained l = Phased l l.phase

  probed-Phased :
      (l : Life U S) (p : Phase U S) (a : Response)
      → a ≡ respond l.ready
      → Phased l p
      → Phased (record l { answers = a ∷ l.answers }) p
  probed-Phased l waiting a e (u, r, t, k) = ((e ∙ ap respond r, u), r, t, k)
  probed-Phased l syncing a e (u, r, t, k) = ((e ∙ ap respond r, u), r, t, k)
  probed-Phased l working a e (u, r, t, q, w) = (inl (e ∙ ap respond r, u), r, t, q, w)
  probed-Phased l (ended x) a e (inl (u, r), d) = (inl ((e ∙ ap respond r, u), r), d)
  probed-Phased l (ended x) a e (inr (u, r, y), d) = (inr (inl (e ∙ ap respond r, u), r, y), d)

  crashed-Phased :
      (l : Life U S) (p : Phase U S)
      → start_http_server h ≡ none
      → Phased l p
      → Phased (record l { phase = ended panicked }) (ended panicked)
  crashed-Phased l waiting e (u, r, t, k) = (inl (u, r), inr (refl, e))
  crashed-Phased l syncing e (u, r, t, k) = (inl (u, r), inr (refl, e))
  crashed-Phased l working e (u, r, t, q, w) = (inr (u, r, (t, q)), inr (refl, e))
  crashed-Phased l (ended x) e (a, d) = (a, inr (refl, e))

  Step-Explained : {l m : Life U S} → Step o h l m → Explained l → Explained m
  Step-Explained (probed l path a e) x =
      probed-Phased l l.phase a (answer-respond h path l.ready a e) x
  Step-Explained (crashed l e) x = crashed-Phased l l.phase e x
  Step-Explained (caches_synced l p) x = subst (Phased l) p x
  Step-Explained (caches_failed l p) x =
      let (u, r, t, k) = subst (Phased l) p x in
      (inl (u, r), inl (false, [], run_from_wait-not_cached o s, inl (sym k)))
  Step-Explained (store_synced l t p e) x =
      let (u, r, q, k) = subst (Phased l) p x in
      (
        Unready-Settled l.answers u,
        refl,
        t,
        ap (sync_store o) (sym q) ∙ e,
        ap (λ items. run_worker o items t) k ∙ run_worker_none o t,
      )
  Step-Explained (store_failed l y t p e) x =
      let (u, r, q, k) = subst (Phased l) p x in
      (
        inl (u, r),
        inl (
          true,
          [],
          run_from_wait-store_failed o s t y (ap (sync_store o) (sym q) ∙ e),
          inl (sym k),
        ),
      )
  Step-Explained (worked l item t p e) x =
      let (u, r, t0, q, w) = subst (Phased l) p x in
      subst (Phased (record l { state = t; taken = l.taken ++ (item ∷ []) })) (sym p)
        (u, r, t0, q, run_worker-snoc o l.taken item t0 l.state w ∙ next_some o item l.state t e)
  Step-Explained (broke l item p e) x =
      let (u, r, t0, q, w) = subst (Phased l) p x in
      (
        inr (u, r, (t0, q)),
        inl (
          true,
          l.taken ++ (item ∷ []),
          run_from_wait-run_worker o (l.taken ++ (item ∷ [])) s t0 q
              ∙ ap (ending o)
                  (run_worker-snoc o l.taken item t0 l.state w ∙ next_none o item l.state e),
          inr (item, refl),
        ),
      )
  Step-Explained (done l p) x =
      let (u, r, t0, q, w) = subst (Phased l) p x in
      (
        inr (u, r, (t0, q)),
        inl (true, l.taken, run_from_wait-run_worker o l.taken s t0 q ∙ ap (ending o) w, inl refl),
      )

  -- From its start on, whatever comes in between: the readiness handler answers 503 until the store is
  -- synced, and 200 from then on; the workers start after it, and have done what a worker does with all
  -- the items taken so far, one after the other; and where `Run` ends, it ends as the sequential model
  -- does on these items, with one more if that made a worker panic, unless registering the HTTP
  -- handlers panicked.
  pub Steps-Explained : {l : Life U S} → Steps o h (begun s) l → Explained l
  Steps-Explained none_yet = (tt, refl, refl, refl)
  Steps-Explained (further steps step) = Step-Explained step (Steps-Explained steps)
