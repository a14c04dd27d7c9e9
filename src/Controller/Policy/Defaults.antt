-- ===== src/Controller/Policy/Defaults.antt =====
-- The defaults that the policy gives to the chosen rule, and the nil `RPOPolicy` without them.
use saiki.Prelude.{
  inl, inr, ◌++◌, get_elem?, ℕ, ◌≡◌, refl, sym, subst, ap, ◌∙◌, Option, none, some, if◌then◌else◌,
}
use saiki.Prelude.Int.{ℤ, pos, beq_ℤ}
use saiki.Errors.{Result}
use saiki.Store.Revision.{Revision}
use saiki.Controller.Policy.{
  RpoPolicy, BackupPolicy, BackupRule, fill_rpo, finish, with_rpo, rule_for, search_rules,
}
use saiki.Controller.Policy.Search.{Fits, search_rules-Fits}

-- `p` is `own` where that is given and not zero, and `d` elsewhere.
abbrev pub setting : ℤ → ℤ → ℤ
setting own d = if beq_ℤ own (pos 0) then d else own

abbrev pub Filled : Option RpoPolicy → RpoPolicy → RpoPolicy → Type 0
Filled none d p = p ≡ d
Filled (some own) d p =
    (p.purge_older_than ≡ setting own.purge_older_than d.purge_older_than)
    × (p.rpo ≡ setting own.rpo d.rpo)

fill_rpo-Filled :
    (own : Option RpoPolicy) (d : RpoPolicy)
    → (p : RpoPolicy) × (fill_rpo own (some d) ≡ some p) × Filled own d p
unfolding fill_rpo
fill_rpo-Filled none d = (d, refl, refl)
fill_rpo-Filled (some own) d = (
  record {
    purge_older_than = setting own.purge_older_than d.purge_older_than;
    rpo = setting own.rpo d.rpo;
  },
  refl,
  (refl, refl),
)

module _ {U : Type 0} (b : BackupPolicy U) (content : Result U) (rev : Revision U) where
  abbrev chosen : Option (ℕ × BackupRule U)
  chosen = (search_rules content rev 0 (record { specificity = 0; ret = none }) b.rules).ret

  -- What a call returns: no rule, or a rule of the policy with its own RPO policy filled in.
  abbrev pub Returns : RpoPolicy → Option (Option (BackupRule U) × BackupPolicy U) → Type 0
  Returns d none = ⊥
  Returns d (some (none, after)) = after ≡ b
  Returns d (some (some rule, after)) =
      (j : ℕ) × (own : BackupRule U) × (p : RpoPolicy) × (get_elem? b.rules j ≡ some own)
      × (rule ≡ record own { fields = own.fields ++ b.fields; rpo_policy = some p })
      × Filled own.rpo_policy d p
      × (after.rpo_policy ≡ some d)

  finish-Returns :
      (d : RpoPolicy) (o : Option (ℕ × BackupRule U))
      → Fits content rev 0 b.rules (record { specificity = 0; ret = none }) o
      → b.rpo_policy ≡ some d
      → Returns d (finish b o)
  unfolding finish
  finish-Returns d none fits e = refl
  finish-Returns d (some (j, r)) fits e =
      let (p, filled, spec) = fill_rpo-Filled r.rpo_policy d in
      subst (λ o. Returns d (with_rpo b j r o)) (sym (ap (fill_rpo r.rpo_policy) e ∙ filled))
        (elim fits.3 [ inl s ↦ absurd (cc s) | inr (n, i, g) ↦ (n, r, p, g, refl, spec, e) ])

  -- With a default RPO policy `RuleFor` never panics: it returns no rule and leaves the policy alone,
  -- or it returns a rule of the policy, with the policy's fields behind its own, whose RPO policy is
  -- that rule's own with the default's settings in place of zeros, or the default if it has none.
  pub rule_for-Returns :
      (d : RpoPolicy) → b.rpo_policy ≡ some d → Returns d (rule_for b content rev)
  unfolding rule_for
  rule_for-Returns d e =
      finish-Returns d chosen
        (search_rules-Fits content rev 0 b.rules (record { specificity = 0; ret = none }) refl) e

  -- Without a default RPO policy `RuleFor` panics on every revision whose rule has none either.
  rule_for_panics :
      (j : ℕ) (r : BackupRule U)
      → b.rpo_policy ≡ none
      → chosen ≡ some (j, r)
      → r.rpo_policy ≡ none
      → rule_for b content rev ≡ none
  unfolding rule_for finish fill_rpo
  rule_for_panics j r e c n = rw (c, e, n)
