-- ===== src/Controller/Operator/Worker.antt =====
-- What one item of a queue does to the flusher and the purger.
use saiki.Prelude.{
  ◌≡◌, refl, sym, subst, ◌⊎◌, inl, inr, Bool, true, false, List, [], ◌∷◌, Option, none, some, arith,
  if◌then◌else◌, str_eq,
}
use saiki.Prelude.Int.{int_eq}
use saiki.Errors.{Result, ok, err}
use saiki.Handler.{ResourceHandler, handler_for}
use saiki.Store.Revision.{Revision, revision_from, set_deleted}
use saiki.Controller.Policy.{BackupRule, BackupPolicy, RpoPolicy, rule_for}
use saiki.Controller.Flusher.{queue_flush}
use saiki.Controller.Reaper.{queue_all}
use saiki.Controller.Operator.{
  Item, deleted_final_state_unknown, object, unstructured_pair, Operator, OperatorState, different,
  handle_resource_filter, handle_deletion, handle_rotation, rotated, store_new, find_old,
  handle_found, by_rule, process_new, process_unstructured,
}
use saiki.Rpo.{rotate, rotate-NothingOr, NothingOr}

-- the object of an item
abbrev pub new_object : {U : Type 0} → Item U → U
new_object (deleted_final_state_unknown u) = u
new_object (object u) = u
new_object (unstructured_pair old u) = u

module _ {U S F : Type 0} (o : Operator U S F) where
  -- The purger's queue is left alone, and the flusher's too, but for the revision, live or deleted.
  abbrev pub QueuesOnly : Revision U → OperatorState U S → OperatorState U S → Type 0
  QueuesOnly rev s s' =
      (s'.purger ≡ s.purger)
      × ((s'.flusher ≡ s.flusher)
          ⊎ ((s'.flusher ≡ queue_flush rev s.flusher)
              ⊎ (s'.flusher ≡ queue_flush (set_deleted true rev) s.flusher)))

  rotated_none :
      (listed result : Result (List (Revision U))) (s : OperatorState U S)
      → NothingOr listed result
      → rotated o result s ≡ s
  unfolding rotated queue_all
  rotated_none listed (err e) s h = refl
  rotated_none listed (ok []) s h = refl
  rotated_none listed (ok (r ∷ rs)) s (inl e) = absurd (cc)
  rotated_none listed (ok (r ∷ rs)) s (inr (e, h, h')) = absurd (cc)

  handle_rotation_by :
      (rev : Revision U) (rule : BackupRule U) (s : OperatorState U S) (p : Option RpoPolicy)
      → rule.rpo_policy ≡ p
      → handle_rotation o rev rule s ≡ s
  unfolding handle_rotation
  handle_rotation_by rev rule s none e = rw (e, handle_rotation) refl
  handle_rotation_by rev rule s (some p) e =
      rw (e, handle_rotation)
        (rotated_none (o.store.list_in rev.api_version rev.kind rev.namespace rev.name s.stored)
          (rotate o.store rev p s.stored) s (rotate-NothingOr o.store rev p s.stored))

  -- The rotation behind a stored revision changes nothing.
  pub handle_rotation_lem :
      (rev : Revision U) (rule : BackupRule U) (s : OperatorState U S)
      → handle_rotation o rev rule s ≡ s
  handle_rotation_lem rev rule s = handle_rotation_by rev rule s rule.rpo_policy refl

  store_new-QueuesOnly :
      (old : Option U) (u : U) (rev : Revision U) (rule : BackupRule U) (s : OperatorState U S)
      → QueuesOnly rev s (store_new o old u rev rule s)
  unfolding store_new
  store_new-QueuesOnly old u rev rule s =
      go (
        different o.nested_field o.deep_equal (find_old o old rev s.stored).0 rev (ok u)
          rule.fields)
    where
      s' : OperatorState U S
      s' = record s { stored = (find_old o old rev s.stored).1 }

      go :
          (b : Bool)
          → QueuesOnly rev s (
              if b
              then handle_rotation o rev rule (record s' { flusher = queue_flush rev s'.flusher })
              else s')
      go true =
          subst (QueuesOnly rev s)
            (sym
              (handle_rotation_lem rev rule (record s' { flusher = queue_flush rev s'.flusher })))
            (refl, inr (inl refl))
      go false = (refl, inl refl)

  handle_deletion_cases :
      (handler : ResourceHandler U) (u : U) (rev : Revision U) (s : OperatorState U S)
      → (handle_deletion o handler u rev s ≡ (false, s))
        ⊎ (handle_deletion o handler u rev s
            ≡ (true, record s { flusher = queue_flush (set_deleted true rev) s.flusher }))
  handle_deletion_cases handler u rev s = unfold handle_deletion in ground arith

  handle_found-QueuesOnly :
      (h : Option (ResourceHandler U)) (old : Option U) (u : U) (rev : Revision U)
      (rule : BackupRule U) (s : OperatorState U S)
      → QueuesOnly rev s (handle_found o h old u rev rule s)
  unfolding handle_found
  handle_found-QueuesOnly none old u rev rule s = (refl, inl refl)
  handle_found-QueuesOnly (some handler) old u rev rule s =
      elim (handle_deletion_cases handler u rev s) [
        | inl e ↦ subst By (sym e) (store_new-QueuesOnly old u rev rule s)
        | inr e ↦ subst By (sym e) (refl, inr (inr refl))
      ]
    where
      By : Bool × OperatorState U S → Type 0
      By r = QueuesOnly rev s (if r.0 then r.1 else store_new o old u rev rule r.1)

  -- what may come of an item: a panic, or a state in which only its own revision is queued
  abbrev pub MayQueue : Revision U → OperatorState U S → Option (OperatorState U S) → Type 0
  MayQueue rev s none = Unit
  MayQueue rev s (some s') = QueuesOnly rev s s'

  by_rule-MayQueue :
      (r : Option (Option (BackupRule U) × BackupPolicy U)) (old : Option U) (u : U)
      (rev : Revision U) (s : OperatorState U S)
      → MayQueue rev s (by_rule o r old u rev s)
  unfolding by_rule
  by_rule-MayQueue none old u rev s = tt
  by_rule-MayQueue (some (none, policy)) old u rev s = (refl, inl refl)
  by_rule-MayQueue (some (some rule, policy)) old u rev s =
      go (handle_resource_filter rev (ok u) rule)
    where
      s' : OperatorState U S
      s' = record s { backup_policy = policy }

      handler : Option (ResourceHandler U)
      handler = handler_for s.resource_handlers rev.api_version rev.kind rev.namespace

      go :
          (b : Bool)
          → MayQueue rev s (if b then some s' else some (handle_found o handler old u rev rule s'))
      go true = (refl, inl refl)
      go false = handle_found-QueuesOnly handler old u rev rule s'

  -- Whatever item a worker takes from its queue, it leaves the purger's queue alone, and it queues at
  -- most one revision at the flusher: that of the item's new object, as it is or marked as deleted;
  -- unless the worker panics.
  pub process_unstructured-MayQueue :
      (item : Item U) (s : OperatorState U S)
      → MayQueue (revision_from o.meta o.now (new_object item)) s (process_unstructured o item s)
  unfolding process_unstructured process_new
  process_unstructured-MayQueue (deleted_final_state_unknown u) s =
      let rev = revision_from o.meta o.now u in
      by_rule-MayQueue (rule_for s.backup_policy (ok u) rev) none u rev s
  process_unstructured-MayQueue (object u) s =
      let rev = revision_from o.meta o.now u in
      by_rule-MayQueue (rule_for s.backup_policy (ok u) rev) none u rev s
  process_unstructured-MayQueue (unstructured_pair old u) s =
      let rev = revision_from o.meta o.now u in
      by_rule-MayQueue (rule_for s.backup_policy (ok u) rev) (some old) u rev s
