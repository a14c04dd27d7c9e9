-- ===== src/Controller/Reaper/Selection.antt =====
-- Which revisions of a resource are reaped.
use saiki.Prelude.{
  ◌≡◌, refl, ap, ◌∙◌, Bool, true, false, not, List, [], ◌∷◌, ◌++◌, Option, some, if◌then◌else◌,
}
use saiki.Golang.Time.{Time}
use saiki.Errors.{Result}
use saiki.Store.Revision.{Revision}
use saiki.Controller.Policy.{BackupPolicy, rule_for}
use saiki.Controller.Reaper.{reap_by, reap_revisions}

if_not {ℓ} : {A : Type ℓ} (b : Bool) (x y : A) → (if not b then x else y) ≡ (if b then y else x)
if_not true x y = refl
if_not false x y = refl

module _ {U : Type 0} (content : Revision U → Result U) (now : Time) where
  -- the same loop with no revision passed over
  pub scan : List (Revision U) → BackupPolicy U → Option (List (Revision U) × BackupPolicy U)
  scan [] policy = some ([], policy)
  scan (rev ∷ revs) policy = reap_by content now (rule_for policy (content rev) rev) rev (scan revs)

  reap_one :
      (last : Revision U) (policy : BackupPolicy U)
      → reap_revisions content now (last ∷ []) policy
        ≡ (if last.deleted then scan (last ∷ []) policy else some ([], policy))
  unfolding reap_revisions scan
  reap_one last policy =
      if_not last.deleted (some ([], policy))
        (reap_by content now (rule_for policy (content last) last) last (λ p. some ([], p)))

  reap_more :
      (rev : Revision U) (revs : List (Revision U)) (last : Revision U) (policy : BackupPolicy U)
      → reap_revisions content now (rev ∷ (revs ++ (last ∷ []))) policy
        ≡ reap_by content now
            (rule_for policy (content rev) rev)
            rev
            (reap_revisions content now (revs ++ (last ∷ [])))
  unfolding reap_revisions
  reap_more rev [] last policy = refl
  reap_more rev (next ∷ revs) last policy = refl

  scan_more :
      (b : Bool) (rev : Revision U) (revs : List (Revision U)) (last : Revision U)
      (policy : BackupPolicy U)
      → reap_by content now
          (rule_for policy (content rev) rev)
          rev
          (λ p. if b then scan (revs ++ (last ∷ [])) p else scan revs p)
        ≡ (if b then scan (rev ∷ revs ++ (last ∷ [])) policy else scan (rev ∷ revs) policy)
  unfolding scan
  scan_more true rev revs last policy = refl
  scan_more false rev revs last policy = refl

  -- The reaper looks at every revision of a resource but the last one, which it never reaps while it
  -- is live; a last revision that is deleted is looked at as the others are.
  pub reap_revisions-scan :
      (revs : List (Revision U)) (last : Revision U) (policy : BackupPolicy U)
      → reap_revisions content now (revs ++ (last ∷ [])) policy
        ≡ (if last.deleted then scan (revs ++ (last ∷ [])) policy else scan revs policy)
  unfolding scan
  reap_revisions-scan [] last policy = reap_one last policy
  reap_revisions-scan (rev ∷ revs) last policy =
      reap_more rev revs last policy
      ∙ ap (reap_by content now (rule_for policy (content rev) rev) rev)
          (λ i p. reap_revisions-scan revs last p i)
      ∙ scan_more last.deleted rev revs last policy
