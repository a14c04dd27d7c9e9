-- ===== src/Controller/Policy/Search.antt =====
-- What the loop of `RuleFor` keeps true of the best rule so far.
use saiki.Prelude.{
  ℕ, suc, ◌≤◌, ◌<◌, ◌≡◌, refl, sym, subst, ap, ◌∙◌, ◌⊎◌, inl, inr, true, false, ◌&&◌, List, [], ◌∷◌,
  Option, none, some, ltb, leb, arith, All, Bool-cases, Option-cases,
}
use saiki.Errors.{Result}
use saiki.Store.Revision.{Revision}
use saiki.Controller.Policy.{BackupRule, Matches, Best, tests, full_match, improve, search_rules}
use saiki.Controller.Policy.Tier.{
  tier, tier_full, tier_part, not_taken, tier_or_zero, tier_of, improve_lem, tier_of-le-four,
  StandsAt, StandsAt-cons,
}

module _ {U : Type 0} where
  module _ (content : Result U) (rev : Revision U) where
    abbrev pub rank : BackupRule U → ℕ
    rank = tier_of content rev

    -- Over the rules from place `i` on, and the best rule before them: `o` is a rule of the greatest
    -- tier, and no rule only if no rule fits at all.
    abbrev pub Fits : ℕ → List (BackupRule U) → Best U → Option (ℕ × BackupRule U) → Type 0
    Fits i rules best none = (best.ret ≡ none) × All (λ x. rank x ≡ 0) rules
    Fits i rules best (some (j, r)) =
        (1 ≤ rank r)
        × (best.specificity ≤ rank r)
        × All (λ x. rank x ≤ rank r) rules
        × ((best.ret ≡ some (j, r)) ⊎ StandsAt i rules j r)

    -- what the loop's variables say of the rules before
    abbrev pub Tracks : Best U → Option (ℕ × BackupRule U) → Type 0
    Tracks best none = best.specificity ≡ 0
    Tracks best (some (j, r)) =
        (best.specificity ≡ rank r) × (1 ≤ best.specificity) × (best.specificity ≤ 3)

    Tracks-low :
        (best : Best U) (o : Option (ℕ × BackupRule U)) → Tracks best o → best.specificity ≤ 3
    Tracks-low best none h = omega arith
    Tracks-low best (some (j, r)) h = h.2

    -- a rule that does not take the place of the best one
    Fits-skip :
        (i : ℕ) (rule : BackupRule U) (rules : List (BackupRule U)) (best : Best U)
        (o : Option (ℕ × BackupRule U))
        → Tracks best best.ret
        → (rank rule < best.specificity) ⊎ (rank rule ≡ 0)
        → Fits (suc i) rules best o
        → Fits i (rule ∷ rules) best o
    Fits-skip i rule rules best none tr low h = (h.0, (ground (arith, h.0, tr), h.1))
    Fits-skip i rule rules best (some (j, r)) tr low h = (
      h.0,
      h.1,
      (omega arith, h.2),
      elim h.3 [ inl e ↦ inl e | inr s ↦ inr (StandsAt-cons i rules j r rule s) ],
    )

    -- a rule that takes it
    Fits-take :
        (i : ℕ) (rule : BackupRule U) (rules : List (BackupRule U)) (best : Best U)
        (o : Option (ℕ × BackupRule U))
        → best.specificity ≤ rank rule
        → Fits (suc i) rules (record { specificity = rank rule; ret = some (i, rule) }) o
        → Fits i (rule ∷ rules) best o
    Fits-take i rule rules best none le h = absurd (cc (h.0))
    Fits-take i rule rules best (some (j, r)) le h = (
      h.0,
      omega arith,
      (h.1, h.2),
      inr (elim h.3 [
        | inl e ↦ (0, ground (arith, e), ground (arith, e))
        | inr s ↦ StandsAt-cons i rules j r rule s
      ]),
    )

    All-top : (n : ℕ) (xs : List (BackupRule U)) → 4 ≤ n → All (λ x. rank x ≤ n) xs
    All-top n [] h = tt
    All-top n (x ∷ xs) h = (omega (arith, tier_of-le-four content rev x), All-top n xs h)

    Fits-full :
        (i : ℕ) (rule : BackupRule U) (rules : List (BackupRule U)) (best : Best U)
        → best.specificity ≤ 3
        → rank rule ≡ 4
        → Fits i (rule ∷ rules) best (some (i, rule))
    Fits-full i rules_head rules best low e = (
      omega arith,
      omega arith,
      (omega arith, All-top (rank rules_head) rules (omega arith)),
      inr (0, omega arith, refl),
    )

    Fits-nil :
        (i : ℕ) (best : Best U) (o : Option (ℕ × BackupRule U))
        → best.ret ≡ o
        → Tracks best o
        → Fits i [] best o
    Fits-nil i best none e tr = (e, tt)
    Fits-nil i best (some (j, r)) e tr = (omega arith, omega arith, tt, inl e)

    abbrev result : ℕ → List (BackupRule U) → Best U → Option (ℕ × BackupRule U)
    result i rules b = (search_rules content rev (suc i) b rules).ret

    -- a round in which the loop goes on
    part_case :
        (t : Matches) (i : ℕ) (rule : BackupRule U) (rules : List (BackupRule U)) (best : Best U)
        → Tracks best best.ret
        → rank rule ≡ tier t
        → full_match t ≡ false
        → ((let b : Best U = improve t (i, rule) best in Tracks b b.ret)
            → Fits
                (suc i)
                rules
                (improve t (i, rule) best)
                (search_rules content rev (suc i) (improve t (i, rule) best) rules).ret)
        → Fits i
            (rule ∷ rules)
            best
            (search_rules content rev (suc i) (improve t (i, rule) best) rules).ret
    part_case t i rule rules best h e part ih =
        let low = Tracks-low best best.ret h in
        let step = improve_lem t (i, rule) best part low in
        elim (Bool-cases (leb best.specificity (tier t) && ltb 0 (tier t))) [
          | inl taken ↦
              let same : improve t (i, rule) best
                  ≡ record { specificity = rank rule; ret = some (i, rule) } =
                step ∙ rw (taken, e) in
              let b : Best U = record { specificity = rank rule; ret = some (i, rule) } in
              subst (λ (x : Best U). Fits i (rule ∷ rules) best (result i rules x)) (sym same)
                (Fits-take i rule rules best (result i rules b) (ground (arith, e, taken)) (
                  subst (λ (x : Best U). Tracks x x.ret → Fits (suc i) rules x (result i rules x))
                    same ih (refl, ground (arith, e, taken), rw e (tier_part t part))))
          | inr kept ↦
              let same : improve t (i, rule) best ≡ best = step ∙ rw kept in
              subst (λ (x : Best U). Fits i (rule ∷ rules) best (result i rules x)) (sym same)
                (Fits-skip i rule rules best (result i rules best) h
                  (rw e (not_taken best.specificity (tier t) kept))
                  (subst (λ (x : Best U). Tracks x x.ret → Fits (suc i) rules x (result i rules x))
                    same ih h))
        ]

    -- one round of the loop, by its tests
    module _ (i : ℕ) (rule : BackupRule U) (rules : List (BackupRule U)) (best : Best U) where
      abbrev Round : Best U → Type 0
      Round b = search_rules content rev i best (rule ∷ rules) ≡ b

      Round-none :
          tests content rev rule ≡ none → Round (search_rules content rev (suc i) best rules)
      unfolding search_rules
      Round-none e = rw (e, search_rules)

      Round-full :
          (t : Matches)
          → tests content rev rule ≡ some t
          → full_match t ≡ true
          → Round (record { specificity = best.specificity; ret = some (i, rule) })
      unfolding search_rules
      Round-full t e full = rw (e, search_rules, full)

      Round-part :
          (t : Matches)
          → tests content rev rule ≡ some t
          → full_match t ≡ false
          → Round (search_rules content rev (suc i) (improve t (i, rule) best) rules)
      unfolding search_rules
      Round-part t e part = rw (e, search_rules, part)

    pub search_rules-Fits :
        (i : ℕ) (rules : List (BackupRule U)) (best : Best U)
        → Tracks best best.ret
        → Fits i rules best (search_rules content rev i best rules).ret
    search_rules-Fits i [] best h = unfold search_rules in Fits-nil i best best.ret refl h
    search_rules-Fits i (rule ∷ rules) best h =
        let ih = search_rules-Fits (suc i) rules in
        let goal : Best U → Type 0 = λ b. Fits i (rule ∷ rules) best b.ret in
        elim (Option-cases (tests content rev rule)) [
          | inl e ↦ subst goal (sym (Round-none i rule rules best e)) (
              Fits-skip i rule rules best (search_rules content rev (suc i) best rules).ret h
                (inr (ap tier_or_zero e)) (ih best h))
          | inr (t, e) ↦ elim (Bool-cases (full_match t)) [
            | inl full ↦ subst goal (sym (Round-full i rule rules best t e full)) (
                Fits-full i rule rules best (Tracks-low best best.ret h)
                  (ap tier_or_zero e ∙ tier_full t full))
            | inr part ↦ subst goal (sym (Round-part i rule rules best t e part)) (
                part_case t i rule rules best h (ap tier_or_zero e) part
                  (ih (improve t (i, rule) best)))
          ]
        ]
