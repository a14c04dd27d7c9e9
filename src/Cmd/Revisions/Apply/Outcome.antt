-- ===== src/Cmd/Revisions/Apply/Outcome.antt =====
-- What the verb `apply` of cmd/revisions.go does to the cluster, against what it says.
use saiki.Prelude.{
  ◌≡◌, refl, ◌⊎◌, inl, inr, Bool, true, false, ◌||◌, List, [], ◌∷◌, ◌++◌, Option, none, some,
  if◌then◌else◌, Str, arith,
}
use saiki.Errors.{Error, Result, ok, err}
use saiki.Store.Revision.{RevisionFields}
use saiki.Cmd.Revisions.Apply.{
  DynamicClient, ObjectLibrary, strip_metadata, Message, creating_failed, getting_failed,
  marshaling_revision_failed, marshaling_current_failed, building_patch_failed, patching_failed,
  applied, create_and_say, patch_and_say, build_patch, patch_current, overwrite_found, apply_object,
}

abbrev is_applied : Message → Bool
is_applied (applied rev) = true
is_applied _ = false

unfoldable pub says_applied : List Message → Bool
says_applied [] = false
says_applied (m ∷ said) = is_applied m || says_applied said

module _ {U C : Type 0} (lib : ObjectLibrary U) (client : DynamicClient U C) where
  -- one object is created, and `applied` is said just where that succeeds
  abbrev pub Created : U → C → List Message × C → Type 0
  Created u c r =
      (r.1 ≡ (client.create_object u c).1)
      × (((client.create_object u c).0 ≡ none) × (says_applied r.0 ≡ true)
          ⊎ ((x : Error) × ((client.create_object u c).0 ≡ some x) × (says_applied r.0 ≡ false)))

  -- one patch of the object that is there is sent, and `applied` is said in any case
  abbrev pub Patched : Str → C → List Message × C → Type 0
  Patched name c r =
      (current : U) × (patch : Str) × (client.get_object name c ≡ ok current)
      × (r.1 ≡ (client.patch_object name patch c).1)
      × (says_applied r.0 ≡ true)

  abbrev pub Untouched : C → List Message × C → Type 0
  Untouched c r = (r.1 ≡ c) × (says_applied r.0 ≡ false)

  create_and_say-Created :
      (rev : RevisionFields) (u : U) (c : C) → Created u c (create_and_say lib client rev u c)
  unfolding create_and_say says_applied
  create_and_say-Created rev u c = go (client.create_object u c).0 refl
    where
      go :
          (e : Option Error)
          → (client.create_object u c).0 ≡ e
          → Created u c (elim e as (λ _. List Message × C) [
            | some x ↦ (creating_failed x ∷ [], (client.create_object u c).1)
            | none ↦ (applied rev ∷ [], (client.create_object u c).1)
          ])
      go none e = (refl, inl (e, refl))
      go (some x) e = (refl, inr (x, e, refl))

  says-append :
      (said more : List Message)
      → says_applied (said ++ more) ≡ (says_applied said || says_applied more)
  unfolding says_applied
  says-append [] more = refl
  says-append (m ∷ said) more = ground (arith, says-append said more)

  abbrev PatchedOr : Str → C → List Message × C → Type 0
  PatchedOr name c r = Untouched c r ⊎ Patched name c r

  patch_and_say-Patched :
      (rev : RevisionFields) (said : List Message) (patch : Str) (c : C) (current : U)
      → client.get_object rev.name c ≡ ok current
      → Patched rev.name c (patch_and_say lib client rev said patch c)
  unfolding patch_and_say says_applied
  patch_and_say-Patched rev said patch c current g = go (client.patch_object rev.name patch c).0
    where
      go :
          (e : Option Error)
          → Patched rev.name c (elim e as (λ _. List Message × C) [
            | some x ↦ (
              said ++ (patching_failed x ∷ applied rev ∷ []),
              (client.patch_object rev.name patch c).1,
            )
            | none ↦ (said ++ (applied rev ∷ []), (client.patch_object rev.name patch c).1)
          ])
      go none = (current, patch, g, refl, ground (arith, says-append said (applied rev ∷ [])))
      go (some x) = (
        current,
        patch,
        g,
        refl,
        ground (arith, says-append said (patching_failed x ∷ applied rev ∷ [])),
      )

  build_patch-PatchedOr :
      (rev : RevisionFields) (said : List Message) (rev_bytes : Str) (cur : Result Str) (c : C)
      (current : U)
      → says_applied said ≡ false
      → client.get_object rev.name c ≡ ok current
      → PatchedOr rev.name c (build_patch lib client rev said rev_bytes cur c)
  unfolding build_patch says_applied
  build_patch-PatchedOr rev said rev_bytes (err x) c current q g =
      inl (refl, ground (arith, q, says-append said (marshaling_current_failed x ∷ [])))
  build_patch-PatchedOr rev said rev_bytes (ok cur_bytes) c current q g =
      go (lib.create_merge_patch cur_bytes rev_bytes)
    where
      go :
          (p : Result Str)
          → PatchedOr rev.name c (elim p as (λ _. List Message × C) [
            | err x ↦ (said ++ (building_patch_failed x ∷ []), c)
            | ok patch ↦ patch_and_say lib client rev said patch c
          ])
      go (err x) = inl (refl, ground (arith, q, says-append said (building_patch_failed x ∷ [])))
      go (ok patch) = inr (patch_and_say-Patched rev said patch c current g)

  patch_current-PatchedOr :
      (rev : RevisionFields) (current : U) (bytes : Result Str) (c : C)
      → client.get_object rev.name c ≡ ok current
      → PatchedOr rev.name c (patch_current lib client rev current bytes c)
  unfolding patch_current says_applied
  patch_current-PatchedOr rev current (err x) c g =
      build_patch-PatchedOr rev (marshaling_revision_failed x ∷ []) [] (lib.marshal current) c
        current refl g
  patch_current-PatchedOr rev current (ok rev_bytes) c g =
      build_patch-PatchedOr rev [] rev_bytes (lib.marshal current) c current refl g

  abbrev pub Outcome : Bool → Str → U → C → List Message × C → Type 0
  Outcome overwrite name u c r =
      Created u c r ⊎ ((overwrite ≡ true) × (Untouched c r ⊎ Patched name c r))

  overwrite_found-Outcome :
      (rev : RevisionFields) (u : U) (found : Result U) (c : C)
      → client.get_object rev.name c ≡ found
      → Outcome true rev.name u c (overwrite_found lib client rev u found c)
  unfolding overwrite_found says_applied
  overwrite_found-Outcome rev u (err x) c g = go (lib.is_not_found x)
    where
      go :
          (b : Bool)
          → Outcome true rev.name u c
              (if b then create_and_say lib client rev u c else (getting_failed x ∷ [], c))
      go true = inl (create_and_say-Created rev u c)
      go false = inr (refl, inl (refl, refl))
  overwrite_found-Outcome rev u (ok current) c g =
      inr (refl, patch_current-PatchedOr rev current (lib.marshal u) c g)

  -- The verb `apply` creates the stripped object once, and says `applied` just where that succeeds; or,
  -- with `--overwrite` only, it sends one patch of the object that the cluster has, and says `applied`
  -- whether or not the patch succeeds, or it leaves the cluster alone and does not say so.
  pub apply_object-Outcome :
      (overwrite : Bool) (rev : RevisionFields) (content : U) (c : C)
      → Outcome overwrite rev.name
          (strip_metadata lib content)
          c
          (apply_object lib client overwrite rev content c)
  unfolding apply_object
  apply_object-Outcome true rev content c =
      overwrite_found-Outcome rev (strip_metadata lib content) (client.get_object rev.name c) c refl
  apply_object-Outcome false rev content c =
      inl (create_and_say-Created rev (strip_metadata lib content) c)
