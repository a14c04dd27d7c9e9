-- ===== src/Controller/Operator/Unbroken.antt =====
-- The workers of pkg/controller/controller.go under a policy that has a default RPO policy.
use saiki.Prelude.{
  codes, ◌≡◌, refl, ap, ◌∙◌, Bool, true, false, List, [], ◌∷◌, Option, none, some, arith,
  if◌then◌else◌,
}
use saiki.Errors.{Error, ok}
use saiki.Handler.{ResourceHandler, handler_for}
use saiki.Store.Revision.{Revision, revision_from}
use saiki.Controller.Policy.{BackupRule, BackupPolicy, RpoPolicy, rule_for}
use saiki.Controller.Policy.Defaults.{Returns, rule_for-Returns}
use saiki.Controller.Flusher.{queue_flush}
use saiki.Controller.Operator.{
  Item, deleted_final_state_unknown, object, unstructured_pair, Operator, OperatorState, different,
  handle_resource_filter, handle_deletion, handle_rotation, find_old, store_new, handle_found,
  by_rule, process_new, process_unstructured, sync_store, queue_stale,
}
use saiki.Controller.Operator.Worker.{handle_rotation_lem}
use saiki.Controller.Operator.Run.{
  process_next_work_item, run_worker, run_from_wait, Ran, failed, panicked, finished,
}
use saiki.Store.Storage.Sync.{Synced}

module _ {U S F : Type 0} (o : Operator U S F) where
  abbrev Keeps : OperatorState U S → OperatorState U S → Type 0
  Keeps s s' = s'.backup_policy ≡ s.backup_policy

  store_new-Keeps :
      (old : Option U) (u : U) (rev : Revision U) (rule : BackupRule U) (s : OperatorState U S)
      → Keeps s (store_new o old u rev rule s)
  unfolding store_new
  store_new-Keeps old u rev rule s =
      go (
        different o.nested_field o.deep_equal (find_old o old rev s.stored).0 rev (ok u)
          rule.fields)
    where
      s' : OperatorState U S
      s' = record s { stored = (find_old o old rev s.stored).1 }

      queued : OperatorState U S
      queued = record s' { flusher = queue_flush rev s'.flusher }

      go : (b : Bool) → Keeps s (if b then handle_rotation o rev rule queued else s')
      go true =
          ap (λ (t : OperatorState U S). t.backup_policy) (handle_rotation_lem o rev rule queued)
      go false = refl

  handle_found-Keeps :
      (h : Option (ResourceHandler U)) (old : Option U) (u : U) (rev : Revision U)
      (rule : BackupRule U) (s : OperatorState U S)
      → Keeps s (handle_found o h old u rev rule s)
  unfolding handle_found handle_deletion
  handle_found-Keeps none old u rev rule s = refl
  handle_found-Keeps (some handler) old u rev rule s =
      ground (arith, store_new-Keeps old u rev rule s)

  -- the step did not panic, and the policy's default is still there
  abbrev pub Unbroken : RpoPolicy → Option (OperatorState U S) → Type 0
  Unbroken d none = ⊥
  Unbroken d (some s) = s.backup_policy.rpo_policy ≡ some d

  by_rule-Unbroken :
      (d : RpoPolicy) (r : Option (Option (BackupRule U) × BackupPolicy U)) (old : Option U) (u : U)
      (rev : Revision U) (s : OperatorState U S)
      → s.backup_policy.rpo_policy ≡ some d
      → Returns s.backup_policy (ok u) rev d r
      → Unbroken d (by_rule o r old u rev s)
  unfolding by_rule
  by_rule-Unbroken d none old u rev s h r = absurd r
  by_rule-Unbroken d (some (none, policy)) old u rev s h r =
      ap (λ (b : BackupPolicy U). b.rpo_policy) r ∙ h
  by_rule-Unbroken d (some (some rule, policy)) old u rev s h (j, own, p, g, e, filled, kept) =
      go (handle_resource_filter rev (ok u) rule)
    where
      s' : OperatorState U S
      s' = record s { backup_policy = policy }

      handler : Option (ResourceHandler U)
      handler = handler_for s.resource_handlers rev.api_version rev.kind rev.namespace

      go :
          (b : Bool)
          → Unbroken d (if b then some s' else some (handle_found o handler old u rev rule s'))
      go true = kept
      go false =
          ap (λ (b : BackupPolicy U). b.rpo_policy) (handle_found-Keeps handler old u rev rule s')
          ∙ kept

  process_new-Unbroken :
      (d : RpoPolicy) (old : Option U) (u : U) (s : OperatorState U S)
      → s.backup_policy.rpo_policy ≡ some d
      → Unbroken d (process_new o old u s)
  unfolding process_new
  process_new-Unbroken d old u s h =
      let rev = revision_from o.meta o.now u in
      by_rule-Unbroken d (rule_for s.backup_policy (ok u) rev) old u rev s h
        (rule_for-Returns s.backup_policy (ok u) rev d h)

  process_unstructured-Unbroken :
      (d : RpoPolicy) (item : Item U) (s : OperatorState U S)
      → s.backup_policy.rpo_policy ≡ some d
      → Unbroken d (process_unstructured o item s)
  unfolding process_unstructured
  process_unstructured-Unbroken d (deleted_final_state_unknown u) s h =
      process_new-Unbroken d none u s h
  process_unstructured-Unbroken d (object u) s h = process_new-Unbroken d none u s h
  process_unstructured-Unbroken d (unstructured_pair old u) s h =
      process_new-Unbroken d (some old) u s h

  abbrev pub Drains : RpoPolicy → Option (List (Item U) × OperatorState U S) → Type 0
  Drains d none = ⊥
  Drains d (some (left, s)) = (left ≡ []) × (s.backup_policy.rpo_policy ≡ some d)

  run_worker-next :
      (d : RpoPolicy) (item : Item U) (items : List (Item U)) (s : OperatorState U S)
      (r : Option (OperatorState U S))
      → process_unstructured o item s ≡ r
      → Unbroken d r
      → ((s : OperatorState U S)
          → s.backup_policy.rpo_policy ≡ some d
          → Drains d (run_worker o items s))
      → Drains d (run_worker o (item ∷ items) s)
  unfolding run_worker process_next_work_item
  run_worker-next d item items s none e h ih = absurd h
  run_worker-next d item items s (some s') e h ih =
      rw (e, run_worker, process_next_work_item) (ih s' h)

  -- With a default RPO policy a worker never panics: it takes every item of its queue, whatever the
  -- items, the store and the client library do, and the default stays in the policy.
  pub run_worker-Drains :
      (d : RpoPolicy) (items : List (Item U)) (s : OperatorState U S)
      → s.backup_policy.rpo_policy ≡ some d
      → Drains d (run_worker o items s)
  run_worker-Drains d [] s h = unfold run_worker process_next_work_item in (refl, h)
  run_worker-Drains d (item ∷ items) s h =
      run_worker-next d item items s (process_unstructured o item s) refl
        (process_unstructured-Unbroken d item s h) (λ s h. run_worker-Drains d items s h)

  -- `Run` did not panic, and the policy's default is still there once the workers are done
  abbrev pub Survives : RpoPolicy → Ran U S → Type 0
  Survives d (failed m) = Unit
  Survives d panicked = ⊥
  Survives d (finished s) = s.backup_policy.rpo_policy ≡ some d

  sync_store-Keeps : (s : OperatorState U S) → Keeps s (sync_store o s).1
  unfolding sync_store
  sync_store-Keeps s = go (o.store.sync_in s.resource_handlers s.stored).1
    where
      synced : Synced U
      synced = (o.store.sync_in s.resource_handlers s.stored).0

      go :
          (e : Option Error)
          → Keeps s
              (elim e as (λ _. Option Error × OperatorState U S) [
                | some x ↦ (some x, s)
                | none ↦ (none, record s { flusher = queue_stale o synced.to_delete s.flusher })
              ]).1
      go none = refl
      go (some x) = refl

  worked-Survives :
      (d : RpoPolicy) (r : Option (List (Item U) × OperatorState U S))
      → Drains d r
      → Survives d (elim r as (λ _. Ran U S) [ none ↦ panicked | some r ↦ finished r.1 ])
  worked-Survives d none h = h
  worked-Survives d (some (left, s)) h = h.1

  -- With a default RPO policy `Run` ends with an error or with its workers done, never in a panic.
  pub run_from_wait-Survives :
      (d : RpoPolicy) (synced : Bool) (items : List (Item U)) (s : OperatorState U S)
      → s.backup_policy.rpo_policy ≡ some d
      → Survives d (run_from_wait o synced items s)
  unfolding run_from_wait
  run_from_wait-Survives d synced items s h =
      let s' = (sync_store o s).1 in
      go synced (sync_store o s).0 _ (
        worked-Survives d (run_worker o items s') (
          run_worker-Drains d items s'
            (ap (λ (b : BackupPolicy U). b.rpo_policy) (sync_store-Keeps s) ∙ h)))
    where
      go :
          (b : Bool) (e : Option Error) (w : Ran U S)
          → Survives d w
          → Survives d (
              if b
              then elim e as (λ _. Ran U S) [ some x ↦ failed (codes "syncing store") | none ↦ w ]
              else failed (codes "failed to wait for caches to sync"))
      go false e w k = tt
      go true none w k = k
      go true (some x) w k = tt
