-- ===== src/Controller/Policy.antt =====
-- pkg/controller/policy/backuppolicy.go: the rules of a backup policy, and the rule for a revision.
pub mod Tier
pub mod Search
pub mod Selection
pub mod Defaults
use saiki.Prelude.{
  ℕ, zero, suc, ◌+◌, Bool, true, false, ◌&&◌, ◌||◌, List, [], ◌∷◌, ◌++◌, Option, none, some, ltb,
  if◌then◌else◌, Str, ◌==◌, str_eq, codes,
}
use saiki.Prelude.Int.{ℤ, pos, beq_ℤ}
use saiki.Errors.{Result, ok, err}
use saiki.Util.{slice_in}
use saiki.Store.Revision.{Revision}

-- `rpo.RPOPolicy`; durations are numbers of nanoseconds
pub record RpoPolicy : Type 0 where
  pub purge_older_than : ℤ
  pub rpo : ℤ

-- A label selector is what its `Matches` says of the labels of an object.
pub record BackupRule (U : Type 0) : Type 0 where
  pub api_groups : List Str
  pub resources : List Str
  pub resource_names : List Str
  pub namespaces : List Str
  pub fields : List Str
  pub label_selector : Option (U → Bool)
  pub rpo_policy : Option RpoPolicy

pub record BackupPolicy (U : Type 0) : Type 0 where
  pub rules : List (BackupRule U)
  pub fields : List Str
  pub rpo_policy : Option RpoPolicy

-- an empty list, or one that begins with `*`
any_of : List Str → Bool
any_of [] = true
any_of (s ∷ l) = s == codes "*"

-- the test that the code writes out for names, namespaces, resources and groups
unfoldable pub matches : List Str → Str → Bool
unfolding any_of
matches allowed s = slice_in allowed s || any_of allowed

-- The five tests of one round; no value if the content could not be read.
pub record Matches : Type 0 where
  pub name_match : Bool
  pub namespace_match : Bool
  pub resources_match : Bool
  pub group_match : Bool
  pub label_match : Bool

label_test : {U : Type 0} → Result U → Option (U → Bool) → Option Bool
label_test content none = some true
label_test (ok u) (some selector) = some (selector u)
label_test (err e) (some selector) = none

-- The variables `specificity` and `ret`; of the rule, its place in the policy too.
pub record Best (U : Type 0) : Type 0 where
  pub specificity : ℕ
  pub ret : Option (ℕ × BackupRule U)

abbrev pub full_match : Matches → Bool
full_match t =
    t.name_match && t.namespace_match && t.resources_match && t.group_match && t.label_match

-- A panic is `none`: a nil `RPOPolicy` is read.
unfoldable pub fill_rpo : Option RpoPolicy → Option RpoPolicy → Option RpoPolicy
fill_rpo none none = none
fill_rpo none (some d) = some d
fill_rpo (some p) (some d) = some (record {
  purge_older_than =
      if beq_ℤ p.purge_older_than (pos 0) then d.purge_older_than else p.purge_older_than;
  rpo = if beq_ℤ p.rpo (pos 0) then d.rpo else p.rpo;
})
fill_rpo (some p) none =
    if beq_ℤ p.rpo (pos 0) || beq_ℤ p.purge_older_than (pos 0) then none else some p

module _ {U : Type 0} where
  unfoldable pub tests : Result U → Revision U → BackupRule U → Option Matches
  unfolding label_test
  tests content rev rule = elim (label_test content rule.label_selector) [
    | none ↦ none
    | some labels ↦ some (record {
      name_match = matches rule.resource_names rev.name;
      namespace_match = matches rule.namespaces rev.namespace;
      resources_match = matches rule.resources rev.kind;
      group_match = matches rule.api_groups rev.api_version;
      label_match = labels;
    })
  ]

  -- one of the three tests behind the loop's `break`
  consider : ℕ → Bool → ℕ × BackupRule U → Best U → Best U
  consider level test rule best =
      if ltb best.specificity (suc level) && test
      then record { specificity = level; ret = some rule }
      else best

  -- The three tests of a round, each on the variables as the one before it left them. The first asks
  -- for a specificity below 4, the others for one below their own level plus one.
  unfoldable pub improve : Matches → ℕ × BackupRule U → Best U → Best U
  unfolding consider
  improve t rule best = consider 1 (t.group_match && t.label_match) rule (
      consider 2 (t.resources_match && t.group_match && t.label_match) rule (
        consider 3 (t.namespace_match && t.resources_match && t.group_match && t.label_match) rule
          best))

  -- The loop over the rules from place `i` on. A rule whose tests cannot be made is passed over, and
  -- a full match ends the loop.
  unfoldable pub search_rules : Result U → Revision U → ℕ → Best U → List (BackupRule U) → Best U
  search_rules content rev i best [] = best
  search_rules content rev i best (rule ∷ rules) = elim (tests content rev rule) [
    | none ↦ search_rules content rev (suc i) best rules
    | some t ↦
        let last : Best U = record { specificity = best.specificity; ret = some (i, rule) } in
        let next = search_rules content rev (suc i) (improve t (i, rule) best) rules in
        if full_match t then last else next
  ]

  -- The rule is a copy, but its `RPOPolicy` is the very one of the policy's rule: what is filled in
  -- stays in the policy.
  update_rule : ℕ → Option RpoPolicy → List (BackupRule U) → List (BackupRule U)
  update_rule i p [] = []
  update_rule zero p (rule ∷ rules) =
      record rule { rpo_policy = elim rule.rpo_policy [ none ↦ none | some own ↦ p ] } ∷ rules
  update_rule (suc i) p (rule ∷ rules) = rule ∷ update_rule i p rules

  -- the chosen rule with the filled RPO policy
  pub with_rpo :
      BackupPolicy U
      → ℕ
      → BackupRule U
      → Option RpoPolicy
      → Option (Option (BackupRule U) × BackupPolicy U)
  unfolding update_rule
  with_rpo b i rule none = none
  with_rpo b i rule (some p) = some (
    some (record rule { fields = rule.fields ++ b.fields; rpo_policy = some p }),
    record b { rules = update_rule i (some p) b.rules },
  )

  -- what stands behind the loop
  pub finish :
      BackupPolicy U → Option (ℕ × BackupRule U) → Option (Option (BackupRule U) × BackupPolicy U)
  unfolding with_rpo
  finish b none = some (none, b)
  finish b (some (i, rule)) = with_rpo b i rule (fill_rpo rule.rpo_policy b.rpo_policy)

  -- `RuleFor`: the rule, if there is one, and the policy afterwards; `none` for a panic. `content` is
  -- what `rev.Content()` returns.
  unfoldable pub rule_for :
      BackupPolicy U → Result U → Revision U → Option (Option (BackupRule U) × BackupPolicy U)
  unfolding search_rules improve finish
  rule_for b content rev =
      finish b (search_rules content rev 0 (record { specificity = 0; ret = none }) b.rules).ret
