-- ===== src/Cmd/Revisions.antt =====
-- cmd/revisions.go: which revisions of an object the subcommand `revisions` works on.
pub mod Apply
pub mod Command
use saiki.Prelude.{
  ◌≡◌, ◌≢◌, refl, ap, ◌∙◌, Bool, true, false, not, ◌&&◌, ◌||◌, List, [], ◌∷◌, Option, none, some,
  if◌then◌else◌, Str, ◌==◌, str_eq, All, arith,
}
use saiki.Prelude.Int.{ℤ, pos, int_eq, beq_ℤ_iff, ◌-ℤ◌}
use saiki.Golang.Time.{Time, unix, after}
use saiki.Store.Revision.{Revision}

-- The flags. `revision_text` is what `viper.GetString` gives for the integer flag, `0` if it is not given.
pub record Flags : Type 0 where
  pub revision : ℤ
  pub revision_text : Str
  pub at : ℤ
  pub ago : ℤ
  pub all : Bool

pub data Verb : Type 0 where
  get_verb delete_verb apply_verb other_verb : Verb

abbrev pub asks_time : Flags → Bool
asks_time f = not (f.at == pos 0) || not (f.ago == pos 0)

-- The checks before the store is opened; true if the command ends there.
unfoldable pub refuses : Verb → Flags → Bool
refuses other_verb f = true
refuses get_verb f = not (f.revision_text == []) && asks_time f
refuses delete_verb f =
    (not f.all && f.revision == pos 0) || (not (f.revision_text == []) && asks_time f)
refuses apply_verb f =
    (f.revision == pos 0 && not (asks_time f)) || (not (f.revision_text == []) && asks_time f)

module _ {U : Type 0} where
  -- The loop over the revisions for `revision`: `out` stays as it was if none has the version.
  pub by_version : ℤ → List (Revision U) → List (Revision U) → List (Revision U)
  by_version v out [] = out
  by_version v out (r ∷ revs) = by_version v (if r.resource_version == v then r ∷ [] else out) revs

  is_better : Option (Revision U) → Revision U → Bool
  is_better none r = true
  is_better (some m) r = after r.revision_timestamp m.revision_timestamp

  -- the loop for a time: the latest revision before it
  pub by_time : Time → Option (Revision U) → List (Revision U) → Option (Revision U)
  unfolding is_better
  by_time target m [] = m
  by_time target m (r ∷ revs) =
      by_time target (if after target r.revision_timestamp && is_better m r then some r else m) revs

  abbrev pub singleton_or_nil : Option (Revision U) → List (Revision U)
  singleton_or_nil none = []
  singleton_or_nil (some m) = m ∷ []

  -- `out`, which `get` prints, `delete` purges, and whose first revision `apply` applies
  unfoldable pub select : Flags → Time → List (Revision U) → List (Revision U)
  unfolding by_version by_time
  select f now revisions =
      let out =
        if f.revision_text == [] then revisions else by_version f.revision revisions revisions in
      let target = if f.at == pos 0 then now -ℤ f.ago else unix f.at in
      if asks_time f then singleton_or_nil (by_time target none out) else out

  by_version_missing :
      (v : ℤ) (out revs : List (Revision U))
      → All (λ r. r.resource_version ≢ v) revs
      → by_version v out revs ≡ out
  unfolding by_version
  by_version_missing v out [] h = refl
  by_version_missing v out (r ∷ revs) h =
      ap (λ b. by_version v (if b then r ∷ [] else out) revs) (differs r h.0)
      ∙ by_version_missing v out revs h.1
    where
      differs : (r : Revision U) → r.resource_version ≢ v → (r.resource_version == v) ≡ false
      differs r h = ground (arith, h, beq_ℤ_iff r.resource_version v)

  -- A version that no revision of the object has selects all of its revisions: with the verb `delete`,
  -- which the checks let pass, all of them are purged.
  pub select_missing :
      (f : Flags) (now : Time) (revisions : List (Revision U))
      → f.at ≡ pos 0
      → f.ago ≡ pos 0
      → f.revision ≢ pos 0
      → All (λ r. r.resource_version ≢ f.revision) revisions
      → (refuses delete_verb f ≡ false) × (select f now revisions ≡ revisions)
  unfolding refuses select
  select_missing f now revisions a g nonzero h = (
    ground (arith, a, g, nonzero, beq_ℤ_iff f.revision (pos 0)),
    ground (arith, a, g, by_version_missing f.revision revisions revisions h),
  )
