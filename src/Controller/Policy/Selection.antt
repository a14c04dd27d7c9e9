-- ===== src/Controller/Policy/Selection.antt =====
-- Which rule the loop of `RuleFor` chooses.
use saiki.Prelude.{
  ℕ, zero, suc, ◌≤◌, ◌≡◌, ◌↔◌, refl, inl, inr, List, [], ◌∷◌, ◌++◌, Option, none, some, arith, All,
  Option-cases, get_elem?,
}
use saiki.Errors.{Result}
use saiki.Store.Revision.{Revision}
use saiki.Controller.Policy.{
  RpoPolicy, BackupPolicy, rule_for, finish, fill_rpo, BackupRule, Best, search_rules,
}
use saiki.Controller.Policy.Tier.{tier_of}
use saiki.Controller.Policy.Search.{Fits, search_rules-Fits}

module _ {U : Type 0} where
  abbrev start : Best U
  start = record { specificity = 0; ret = none }

  module _ (b : BackupPolicy U) (content : Result U) (rev : Revision U) where
    abbrev pub Greatest : BackupRule U → Type 0
    Greatest rule =
        (j : ℕ) × (r : BackupRule U) × (p : RpoPolicy) × (get_elem? b.rules j ≡ some r)
        × (1 ≤ tier_of content rev r)
        × All (λ x. tier_of content rev x ≤ tier_of content rev r) b.rules
        × (fill_rpo r.rpo_policy b.rpo_policy ≡ some p)
        × (rule ≡ record r { fields = r.fields ++ b.fields; rpo_policy = some p })

    none_fits :
        (r : BackupRule U) (rules : List (BackupRule U)) (j : ℕ)
        → All (λ x. tier_of content rev x ≡ 0) rules
        → get_elem? rules j ≡ some r
        → tier_of content rev r ≡ 0
    none_fits r [] j h e = absurd (cc)
    none_fits r (x ∷ rules) zero h e = ground (arith, h.0, e)
    none_fits r (x ∷ rules) (suc j) h e = none_fits r rules j h.1 e

    finish-none :
        (o : Option (ℕ × BackupRule U))
        → Fits content rev 0 b.rules start o
        → (finish b o ≡ some (none, b)) ↔ All (λ x. tier_of content rev x ≡ 0) b.rules
    unfolding finish
    finish-none none h = ((λ _. h.1), (λ _. refl))
    finish-none (some (j, r)) h = (
      (λ e. ground arith),
      (λ all. elim h.3 [
        | inl e ↦ absurd (cc)
        | inr (n, e, g) ↦ let zero_tier = none_fits r b.rules n all g in absurd (omega arith)
      ]),
    )

    finish-Greatest :
        (o : Option (ℕ × BackupRule U)) (rule : BackupRule U) (after : BackupPolicy U)
        → Fits content rev 0 b.rules start o
        → finish b o ≡ some (some rule, after)
        → Greatest rule
    unfolding finish
    finish-Greatest none rule after h e = absurd (cc)
    finish-Greatest (some (j, r)) rule after h e =
        elim (Option-cases (fill_rpo r.rpo_policy b.rpo_policy)) [
          | inl f ↦ absurd (ground arith)
          | inr (p, f) ↦ elim h.3 [
            | inl s ↦ absurd (cc)
            | inr (n, i, g) ↦ (n, r, p, g, h.0, h.2, f, ground arith)
          ]
        ]

    -- There is no rule for a revision exactly if no rule of the policy fits it, not even by its group
    -- and its labels alone; then the policy stays as it is.
    pub rule_for-none :
        (rule_for b content rev ≡ some (none, b)) ↔ All (λ x. tier_of content rev x ≡ 0) b.rules
    unfolding rule_for
    rule_for-none =
        finish-none (search_rules content rev 0 start b.rules).ret
          (search_rules-Fits content rev 0 b.rules start refl)

    -- The rule for a revision is one of the policy's rules, of a tier that no other rule exceeds, with
    -- the policy's fields behind its own and an RPO policy filled in.
    pub rule_for-Greatest :
        (rule : BackupRule U) (after : BackupPolicy U)
        → rule_for b content rev ≡ some (some rule, after)
        → Greatest rule
    unfolding rule_for
    rule_for-Greatest rule after h =
        finish-Greatest (search_rules content rev 0 start b.rules).ret rule after
          (search_rules-Fits content rev 0 b.rules start refl) h
