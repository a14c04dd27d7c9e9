-- ===== src/Controller/Policy/Tier.antt =====
-- How well a rule fits a revision, and what one round of the loop of `RuleFor` does with it.
use saiki.Prelude.{
  ℕ, suc, ◌+◌, ◌≤◌, ◌<◌, ◌≡◌, ◌⊎◌, true, false, ◌&&◌, List, ◌∷◌, Option, none, some, ltb, leb,
  arith, if◌then◌else◌, get_elem?,
}
use saiki.Errors.{Result}
use saiki.Store.Revision.{Revision}
use saiki.Controller.Policy.{BackupRule, Matches, Best, tests, full_match, improve, consider}

-- How well a rule fits: 4 if all tests pass, 3 without the name, 2 without the name and the
-- namespace, 1 if only group and labels match, and 0 otherwise.
unfoldable pub tier : Matches → ℕ
tier t =
    if full_match t
    then 4
    else if t.namespace_match && t.resources_match && t.group_match && t.label_match
    then 3
    else if t.resources_match && t.group_match && t.label_match
    then 2
    else if t.group_match && t.label_match
    then 1
    else 0

pub tier_full : (t : Matches) → full_match t ≡ true → tier t ≡ 4
unfolding tier
tier_full t h = rw h

pub tier_part : (t : Matches) → full_match t ≡ false → tier t ≤ 3
unfolding tier
tier_part t h = ground arith

pub not_taken : (s n : ℕ) → (leb s n && ltb 0 n) ≡ false → (n < s) ⊎ (n ≡ 0)
not_taken s n h = ground arith

pub tier-le-four : (t : Matches) → tier t ≤ 4
unfolding tier
tier-le-four t = ground arith

abbrev pub tier_or_zero : Option Matches → ℕ
tier_or_zero none = 0
tier_or_zero (some t) = tier t

module _ {U : Type 0} where
  abbrev pub tier_of : Result U → Revision U → BackupRule U → ℕ
  tier_of content rev rule = tier_or_zero (tests content rev rule)

  -- a round that does not end the loop
  pub improve_lem :
      (t : Matches) (rule : ℕ × BackupRule U) (best : Best U)
      → full_match t ≡ false
      → best.specificity ≤ 3
      → improve t rule best ≡ (
          if leb best.specificity (tier t) && ltb 0 (tier t)
          then record { specificity = tier t; ret = some rule }
          else best)
  unfolding improve consider tier
  improve_lem t rule best h low = ground arith

  pub tier_of-le-four :
      (content : Result U) (rev : Revision U) (rule : BackupRule U) → tier_of content rev rule ≤ 4
  tier_of-le-four content rev rule = grind (arith, tier-le-four)

  -- The rule stands in the list, whose first place is `i`, at place `j`.
  abbrev pub StandsAt : ℕ → List (BackupRule U) → ℕ → BackupRule U → Type 0
  StandsAt i rules j r = (n : ℕ) × (j ≡ i + n) × (get_elem? rules n ≡ some r)

  pub StandsAt-cons :
      (i : ℕ) (rules : List (BackupRule U)) (j : ℕ) (r x : BackupRule U)
      → StandsAt (suc i) rules j r
      → StandsAt i (x ∷ rules) j r
  StandsAt-cons i rules j r x (n, e, g) = (suc n, omega arith, g)
