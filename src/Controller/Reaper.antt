-- ===== src/Controller/Reaper.antt =====
-- pkg/controller/reaper/reaper.go: old revisions are queued for the purger.
pub mod Selection
use saiki.Prelude.{
  Bool, true, false, not, ◌&&◌, List, [], ◌∷◌, ◌++◌, Option, none, some, if◌then◌else◌,
}
use saiki.Prelude.Int.{◌-ℤ◌}
use saiki.Prelude.Dict.{Dict}
use saiki.Prelude.{Str}
use saiki.Golang.Time.{Time, after, zero_time}
use saiki.Errors.{Error, Result}
use saiki.Store.Revision.{Revision}
use saiki.Store.Storage.State.{StateOptions, StateMap}
use saiki.Store.Storer.{Storer}
use saiki.Controller.Cache.{Cache}
use saiki.Controller.Policy.{RpoPolicy, BackupRule, BackupPolicy, rule_for}
use saiki.Controller.Purger.{queue_purge}

-- the loop over the revisions to reap
unfoldable pub queue_all : {U : Type 0} → List (Revision U) → Cache U → Cache U
queue_all [] purger = purger
queue_all (rev ∷ revs) purger = queue_all revs (queue_purge rev purger)

-- `now` is the clock, `content` what `Content` returns of a revision.
module _ {U : Type 0} (content : Revision U → Result U) (now : Time) where
  -- the test behind `RuleFor`; a nil `RPOPolicy` would panic, but `RuleFor` fills it in
  is_outdated : Option RpoPolicy → Revision U → Option Bool
  is_outdated none rev = none
  is_outdated (some p) rev = some (after (now -ℤ p.purge_older_than) rev.revision_timestamp)

  prepend_if :
      Option Bool
      → Revision U
      → Option (List (Revision U) × BackupPolicy U)
      → Option (List (Revision U) × BackupPolicy U)
  prepend_if none rev rest = none
  prepend_if (some b) rev none = none
  prepend_if (some b) rev (some (revs, policy)) = some (if b then rev ∷ revs else revs, policy)

  -- one revision that is not passed over, by what `RuleFor` returned, before the others
  reap_by :
      Option (Option (BackupRule U) × BackupPolicy U)
      → Revision U
      → (BackupPolicy U → Option (List (Revision U) × BackupPolicy U))
      → Option (List (Revision U) × BackupPolicy U)
  unfolding is_outdated prepend_if
  reap_by none rev rest = none
  reap_by (some (none, policy)) rev rest = rest policy
  reap_by (some (some rule, policy)) rev rest =
      prepend_if (is_outdated rule.rpo_policy rev) rev (rest policy)

  -- The loop over the revisions of a resource: the last one is passed over unless it is deleted.
  -- `none` is a panic of `RuleFor`.
  pub reap_revisions :
      List (Revision U) → BackupPolicy U → Option (List (Revision U) × BackupPolicy U)
  unfolding reap_by
  reap_revisions [] policy = some ([], policy)
  reap_revisions (rev ∷ []) policy =
      let considered = reap_by (rule_for policy (content rev) rev) rev (λ p. some ([], p)) in
      if not rev.deleted then some ([], policy) else considered
  reap_revisions (rev ∷ next ∷ revs) policy =
      reap_by (rule_for policy (content rev) rev) rev (reap_revisions (next ∷ revs))

  append_reaped :
      List (Revision U)
      → Option (List (Revision U) × BackupPolicy U)
      → Option (List (Revision U) × BackupPolicy U)
  append_reaped revs none = none
  append_reaped revs (some (more, policy)) = some (revs ++ more, policy)

  -- the loop over the state
  pub reap_state : StateMap U → BackupPolicy U → Option (List (Revision U) × BackupPolicy U)
  unfolding reap_revisions append_reaped
  reap_state [] policy = some ([], policy)
  reap_state ((rk, revs) ∷ state) policy = elim (reap_revisions revs policy) [
    | none ↦ none
    | some reaped ↦ append_reaped reaped.0 (reap_state state reaped.1)
  ]

-- every live and deleted revision of the store
abbrev pub reap_options : {U : Type 0} → StateOptions U
reap_options = record {
  api_version = [];
  kind = [];
  label_selector = none;
  time = zero_time;
  namespace = [];
  all_namespaces = true;
  name = [];
  all_revisions = true;
  only_deleted = false;
}

-- what `reap` changes: the policy, the queue of the purger, and the store's cache
pub record Reaped (U S : Type 0) : Type 0 where
  pub policy : BackupPolicy U
  pub purger : Cache U
  pub stored : S

module _ {U S : Type 0} (storer : Storer U S) (content : Revision U → Result U) (now : Time) where
  queue_reaped :
      Cache U → S → Option (List (Revision U) × BackupPolicy U) → Option (Option Error × Reaped U S)
  queue_reaped purger s none = none
  queue_reaped purger s (some (revs, policy)) =
      some (none, record { policy = policy; purger = queue_all revs purger; stored = s })

  -- `reap`; `none` is a panic.
  unfoldable pub reap : BackupPolicy U → Cache U → S → Option (Option Error × Reaped U S)
  unfolding queue_reaped reap_state queue_all
  reap policy purger s =
      let (found, e) = storer.state_in reap_options s in
      elim e [
        | some x ↦ some (some x, record { policy = policy; purger = purger; stored = found.1 })
        | none ↦ queue_reaped purger found.1 (reap_state content now found.0 policy)
      ]
