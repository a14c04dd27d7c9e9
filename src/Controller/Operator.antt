-- ===== src/Controller/Operator.antt =====
-- pkg/controller/controller.go: what the controller's workers do with one item of a queue.
pub mod Worker
pub mod Dynamics
pub mod Factory
pub mod Queues
pub mod Start
pub mod Run
pub mod Unbroken
pub mod Http
pub mod Life
use saiki.Prelude.{
  Bool, true, false, not, ◌&&◌, ◌||◌, List, [], ◌∷◌, Option, none, some, if◌then◌else◌, Str, ◌==◌,
  str_eq,
}
use saiki.Prelude.Int.{ℤ, int_eq}
use saiki.Golang.Strings.{split}
use saiki.Golang.Time.{Time}
use saiki.Errors.{Error, Result, ok, err}
use saiki.Util.{slice_in}
use saiki.Handler.{ResourceHandler, ResourceHandlers, handler_for}
use saiki.Store.Revision.{Revision, ObjectMeta, revision_from, set_deleted}
use saiki.Store.Storer.{Storer}
use saiki.Store.Storage.Sync.{Synced}
use saiki.Controller.Cache.{Cache}
use saiki.Controller.Policy.{BackupRule, BackupPolicy, rule_for}
use saiki.Controller.Flusher.{Flush, queue_flush}
use saiki.Controller.Purger.{queue_purge}
use saiki.Controller.Reaper.{queue_all}
use saiki.Rpo.{rotate}

-- an item of a work queue
pub data Item (U : Type 0) : Type 0 where
  deleted_final_state_unknown : U → Item U
  object : U → Item U
  unstructured_pair : U → U → Item U

-- What the workers use: the store, the parts of an object, its fields by path, and the clock.
pub record Operator (U S F : Type 0) : Type 0 where
  pub store : Storer U S
  pub meta : ObjectMeta U
  -- `unstructured.NestedFieldNoCopy`: the field, none if it is not found, or an error
  pub nested_field : U → List Str → Result (Option F)
  -- `reflect.DeepEqual`
  pub deep_equal : F → F → Bool
  pub now : Time

-- what they change
pub record OperatorState (U S : Type 0) : Type 0 where
  pub backup_policy : BackupPolicy U
  pub resource_handlers : ResourceHandlers U
  pub flusher : Flush U
  pub purger : Cache U
  pub stored : S

module _ {U F : Type 0} (nested_field : U → List Str → Result (Option F))
    (deep_equal : F → F → Bool) where
  -- One check of `different`; two fields that are not found are both nil. A field with an error is
  -- passed over.
  field_differs : Result (Option F) → Result (Option F) → Bool
  field_differs (err e) n = false
  field_differs (ok o) (err e) = false
  field_differs (ok none) (ok none) = false
  field_differs (ok none) (ok (some n)) = true
  field_differs (ok (some o)) (ok none) = true
  field_differs (ok (some o)) (ok (some n)) = not (deep_equal o n)

  fields_differ : List Str → U → U → Bool
  unfolding field_differs
  fields_differ [] old new = false
  fields_differ (path ∷ paths) old new =
      let field = split b'.' path in
      let rest = fields_differ paths old new in
      if field_differs (nested_field old field) (nested_field new field) then true else rest

  contents_differ : List Str → Result U → Result U → Bool
  contents_differ check_fields (err e) new = true
  contents_differ check_fields (ok old) (err e) = true
  contents_differ check_fields (ok old) (ok new) = fields_differ check_fields old new

  -- `different`; the contents are what `Content` returns.
  unfoldable pub different :
      Option (Revision U × Result U) → Revision U → Result U → List Str → Bool
  unfolding contents_differ fields_differ
  different none new new_content check_fields = true
  different (some (old, old_content)) new new_content check_fields =
      if old.resource_version == new.resource_version
      then false
      else contents_differ check_fields old_content new_content

names_filtered : List Str → Str → Bool
names_filtered [] name = false
names_filtered (n ∷ names) name = not (slice_in (n ∷ names) name)

module _ {U : Type 0} where
  labels_filtered : Option (U → Bool) → Result U → Bool
  labels_filtered none content = false
  labels_filtered (some selector) (err e) = true
  labels_filtered (some selector) (ok u) = not (selector u)

  -- `handleResourceFilter`
  unfoldable pub handle_resource_filter : Revision U → Result U → BackupRule U → Bool
  unfolding names_filtered labels_filtered
  handle_resource_filter rev content rule =
      names_filtered rule.resource_names rev.name || labels_filtered rule.label_selector content

module _ {U S F : Type 0} (o : Operator U S F) where
  exists_now : Result Bool → Bool
  exists_now (err e) = false
  exists_now (ok exists) = exists

  -- `handleDeletion`: an object that the informer does not have is queued as deleted. The content of a
  -- concrete revision is its object.
  unfoldable pub handle_deletion :
      ResourceHandler U → U → Revision U → OperatorState U S → Bool × OperatorState U S
  unfolding exists_now
  handle_deletion handler u rev s =
      if exists_now (handler.store_get u)
      then (false, s)
      else (true, record s { flusher = queue_flush (set_deleted true rev) s.flusher })

  rotated : Result (List (Revision U)) → OperatorState U S → OperatorState U S
  rotated (err e) s = s
  rotated (ok revs) s = record s { purger = queue_all revs s.purger }

  -- `handleRotation`
  unfoldable pub handle_rotation : Revision U → BackupRule U → OperatorState U S → OperatorState U S
  unfolding rotated
  handle_rotation rev rule s = elim rule.rpo_policy [
    | none ↦ s
    | some p ↦ rotated (rotate o.store rev p s.stored) s
  ]

  -- the revision that the new one is compared with, and its content
  abbrev pub Old : Type 0
  Old = Option (Revision U × Result U)

  with_content : Result (Option (Revision U)) × S → Old × S
  with_content (err e, s) = (none, s)
  with_content (ok none, s) = (none, s)
  with_content (ok (some old), s) =
      let (content, s') = o.store.content_in old s in (some (old, content), s')

  -- the old value of the watch, or else that of the store
  find_old : Option U → Revision U → S → Old × S
  unfolding with_content
  find_old (some u) rev s = (some (revision_from o.meta o.now u, ok u), s)
  find_old none rev s = with_content (o.store.get_in rev.fields s)

  -- Behind the deletion: a changed object is queued, and its old revisions are rotated. The content
  -- of the old revision is read before its version is looked at, which changes the store's cache only.
  store_new : Option U → U → Revision U → BackupRule U → OperatorState U S → OperatorState U S
  unfolding find_old
  store_new old u rev rule s =
      let (found, stored) = find_old old rev s.stored in
      let s' = record s { stored = stored } in
      if different o.nested_field o.deep_equal found rev (ok u) rule.fields
      then handle_rotation rev rule (record s' { flusher = queue_flush rev s'.flusher })
      else s'

  handle_found :
      Option (ResourceHandler U)
      → Option U
      → U
      → Revision U
      → BackupRule U
      → OperatorState U S
      → OperatorState U S
  unfolding store_new
  handle_found none old u rev rule s = s
  handle_found (some handler) old u rev rule s =
      let (gone, s') = handle_deletion handler u rev s in
      if gone then s' else store_new old u rev rule s'

  by_rule :
      Option (Option (BackupRule U) × BackupPolicy U)
      → Option U
      → U
      → Revision U
      → OperatorState U S
      → Option (OperatorState U S)
  unfolding handle_found
  by_rule none old u rev s = none
  by_rule (some (none, policy)) old u rev s = some (record s { backup_policy = policy })
  by_rule (some (some rule, policy)) old u rev s =
      let s' = record s { backup_policy = policy } in
      let handler = handler_for s.resource_handlers rev.api_version rev.kind rev.namespace in
      if handle_resource_filter rev (ok u) rule
      then some s'
      else some (handle_found handler old u rev rule s')

  process_new : Option U → U → OperatorState U S → Option (OperatorState U S)
  unfolding by_rule
  process_new old u s =
      let rev = revision_from o.meta o.now u in
      by_rule (rule_for s.backup_policy (ok u) rev) old u rev s

  -- `processUnstructured`, which always returns true; `none` is a panic of `RuleFor`
  unfoldable pub process_unstructured : Item U → OperatorState U S → Option (OperatorState U S)
  unfolding process_new
  process_unstructured (deleted_final_state_unknown u) s = process_new none u s
  process_unstructured (object u) s = process_new none u s
  process_unstructured (unstructured_pair old u) s = process_new (some old) u s

  queue_stale : List (Revision U) → Flush U → Flush U
  queue_stale [] f = f
  queue_stale (rev ∷ revs) f = queue_stale revs (queue_flush (set_deleted true rev) f)

  -- `syncStore`; the revisions of the state that are marked as deleted are the same objects, which the
  -- controller does not use any more
  unfoldable pub sync_store : OperatorState U S → Option Error × OperatorState U S
  unfolding queue_stale
  sync_store s =
      let (synced, e) = o.store.sync_in s.resource_handlers s.stored in
      elim e [
        | some x ↦ (some x, s)
        | none ↦ (none, record s { flusher = queue_stale synced.to_delete s.flusher })
      ]
