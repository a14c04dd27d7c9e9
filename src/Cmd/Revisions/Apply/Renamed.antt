-- ===== src/Cmd/Revisions/Apply/Renamed.antt =====
-- The verb `apply` of cmd/revisions.go uses of a revision its name, and prints the revision.
use saiki.Prelude.{
  ◌≡◌, refl, sym, ap, ◌∙◌, Bool, true, false, List, [], ◌∷◌, ◌++◌, Option, none, some,
  if◌then◌else◌, Str,
}
use saiki.Errors.{Error, Result, ok, err}
use saiki.Store.Revision.{RevisionFields}
use saiki.Cmd.Revisions.Apply.{
  DynamicClient, ObjectLibrary, strip_metadata, Message, creating_failed, getting_failed,
  marshaling_revision_failed, marshaling_current_failed, building_patch_failed, patching_failed,
  applied, create_and_say, patch_and_say, build_patch, patch_current, overwrite_found, apply_object,
}

-- the message with another revision printed in it
abbrev pub printing : RevisionFields → Message → Message
printing r (applied q) = applied r
printing r m = m

abbrev pub all_printing : RevisionFields → List Message → List Message
all_printing r [] = []
all_printing r (m ∷ said) = printing r m ∷ all_printing r said

all_printing-append :
    (r : RevisionFields) (said more : List Message)
    → all_printing r (said ++ more) ≡ all_printing r said ++ all_printing r more
all_printing-append r [] more = refl
all_printing-append r (m ∷ said) more = ap (λ l. printing r m ∷ l) (all_printing-append r said more)

module _ {U C : Type 0} (lib : ObjectLibrary U) (client : DynamicClient U C) (q r : RevisionFields)
    (named : q.name ≡ r.name) where
  -- what is said of `q`, said of `r`
  abbrev Alike : List Message × C → List Message × C → Type 0
  Alike of_q of_r = of_r ≡ (all_printing r of_q.0, of_q.1)

  create_and_say-Alike :
      (u : U) (c : C) → Alike (create_and_say lib client q u c) (create_and_say lib client r u c)
  unfolding create_and_say
  create_and_say-Alike u c = go (client.create_object u c).0
    where
      go :
          (e : Option Error)
          → Alike
              (elim e as (λ _. List Message × C) [
                | some x ↦ (creating_failed x ∷ [], (client.create_object u c).1)
                | none ↦ (applied q ∷ [], (client.create_object u c).1)
              ])
              (elim e as (λ _. List Message × C) [
                | some x ↦ (creating_failed x ∷ [], (client.create_object u c).1)
                | none ↦ (applied r ∷ [], (client.create_object u c).1)
              ])
      go none = refl
      go (some x) = refl

  patch_and_say-Alike :
      (said : List Message) (patch : Str) (c : C)
      → Alike
          (patch_and_say lib client q said patch c)
          (patch_and_say lib client r (all_printing r said) patch c)
  unfolding patch_and_say
  patch_and_say-Alike said patch c =
      ap (λ name. sent (all_printing r said) r (client.patch_object name patch c)) (sym named)
      ∙ go (client.patch_object q.name patch c)
    where
      sent : List Message → RevisionFields → Option Error × C → List Message × C
      sent l p o = elim o.0 as (λ _. List Message × C) [
        | some x ↦ (l ++ (patching_failed x ∷ applied p ∷ []), o.1)
        | none ↦ (l ++ (applied p ∷ []), o.1)
      ]

      go : (x : Option Error × C) → Alike (sent said q x) (sent (all_printing r said) r x)
      go (none, c') = ap (λ l. (l, c')) (sym (all_printing-append r said (applied q ∷ [])))
      go (some x, c') =
          ap (λ l. (l, c')) (sym (all_printing-append r said (patching_failed x ∷ applied q ∷ [])))

  build_patch-Alike :
      (said : List Message) (rev_bytes : Str) (cur : Result Str) (c : C)
      → Alike
          (build_patch lib client q said rev_bytes cur c)
          (build_patch lib client r (all_printing r said) rev_bytes cur c)
  unfolding build_patch
  build_patch-Alike said rev_bytes (err x) c =
      ap (λ l. (l, c)) (sym (all_printing-append r said (marshaling_current_failed x ∷ [])))
  build_patch-Alike said rev_bytes (ok cur) c = go (lib.create_merge_patch cur rev_bytes)
    where
      go :
          (p : Result Str)
          → Alike
              (elim p as (λ _. List Message × C) [
                | err x ↦ (said ++ (building_patch_failed x ∷ []), c)
                | ok patch ↦ patch_and_say lib client q said patch c
              ])
              (elim p as (λ _. List Message × C) [
                | err x ↦ (all_printing r said ++ (building_patch_failed x ∷ []), c)
                | ok patch ↦ patch_and_say lib client r (all_printing r said) patch c
              ])
      go (err x) =
          ap (λ l. (l, c)) (sym (all_printing-append r said (building_patch_failed x ∷ [])))
      go (ok patch) = patch_and_say-Alike said patch c

  patch_current-Alike :
      (current : U) (bytes : Result Str) (c : C)
      → Alike
          (patch_current lib client q current bytes c)
          (patch_current lib client r current bytes c)
  unfolding patch_current
  patch_current-Alike current (err x) c =
      build_patch-Alike (marshaling_revision_failed x ∷ []) [] (lib.marshal current) c
  patch_current-Alike current (ok bytes) c = build_patch-Alike [] bytes (lib.marshal current) c

  overwrite_found-Alike :
      (u : U) (found : Result U) (c : C)
      → Alike (overwrite_found lib client q u found c) (overwrite_found lib client r u found c)
  unfolding overwrite_found
  overwrite_found-Alike u (err x) c = go (lib.is_not_found x)
    where
      go :
          (b : Bool)
          → Alike
              (if b then create_and_say lib client q u c else (getting_failed x ∷ [], c))
              (if b then create_and_say lib client r u c else (getting_failed x ∷ [], c))
      go true = create_and_say-Alike u c
      go false = refl
  overwrite_found-Alike u (ok current) c = patch_current-Alike current (lib.marshal u) c

  -- Two revisions of one name are applied alike, but for the revision that is printed.
  pub apply_object-Alike :
      (overwrite : Bool) (content : U) (c : C)
      → apply_object lib client overwrite r content c ≡ (
        all_printing r (apply_object lib client overwrite q content c).0,
        (apply_object lib client overwrite q content c).1,
      )
  unfolding apply_object
  apply_object-Alike true content c =
      let u = strip_metadata lib content in
      ap (λ name. overwrite_found lib client r u (client.get_object name c) c) (sym named)
      ∙ overwrite_found-Alike u (client.get_object q.name c) c
  apply_object-Alike false content c = create_and_say-Alike (strip_metadata lib content) c
