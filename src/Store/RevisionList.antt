-- ===== src/Store/RevisionList.antt =====
-- pkg/store/revision.go: lists of revisions, cut and sorted. `sort.Sort` orders by resource version;
-- the order of revisions with equal versions is not specified, and is here that of the list.
use saiki.Prelude.{
  ℕ, Bool, List, [], ◌∷◌, ◌++◌, take, drop, arith, if◌then◌else◌, All, Bool-cases, inl, inr,
}
use saiki.Prelude.Int.{ℤ, ltb_ℤ, ◌≤ℤ◌, le_of_lt, le_of_not_lt}
use saiki.Store.Revision.{Revision}

module _ {U : Type 0} where
  -- `Less`, of the elements at two places
  unfoldable pub less : Revision U → Revision U → Bool
  less x y = ltb_ℤ x.resource_version y.resource_version

  insert_sorted : Revision U → List (Revision U) → List (Revision U)
  insert_sorted x [] = x ∷ []
  insert_sorted x (y ∷ l) = if less y x then y ∷ insert_sorted x l else x ∷ y ∷ l

  -- `sort.Sort`
  unfoldable pub sort : List (Revision U) → List (Revision U)
  unfolding insert_sorted
  sort [] = []
  sort (x ∷ l) = insert_sorted x (sort l)

  -- `Cut(i, j)`, as the new list; what it does to the array is part of the model of its caller
  unfoldable pub cut : ℕ → ℕ → List (Revision U) → List (Revision U)
  cut i j revs = take i revs ++ drop j revs

  abbrev AllFrom : ℤ → List (Revision U) → Type 0
  AllFrom v = All (λ r. v ≤ℤ r.resource_version)

  abbrev pub IsSorted : List (Revision U) → Type 0
  IsSorted [] = Unit
  IsSorted (x ∷ l) = All (λ r. x.resource_version ≤ℤ r.resource_version) l × IsSorted l

  insert_sorted-All :
      (P : Revision U → Type 0) (x : Revision U) (l : List (Revision U))
      → P x
      → All P l
      → All P (insert_sorted x l)
  unfolding insert_sorted
  insert_sorted-All P x [] hx h = (hx, tt)
  insert_sorted-All P x (y ∷ l) hx h = elim (Bool-cases (less y x)) [
    | inl e ↦ rw e (h.0, insert_sorted-All P x l hx h.1)
    | inr e ↦ rw e (hx, h)
  ]

  -- What holds of every revision of a list holds of every revision of the sorted list.
  pub sort-All : (P : Revision U → Type 0) (l : List (Revision U)) → All P l → All P (sort l)
  unfolding sort
  sort-All P [] h = tt
  sort-All P (x ∷ l) h = insert_sorted-All P x (sort l) h.0 (sort-All P l h.1)

  All-weaken : (v w : ℤ) (l : List (Revision U)) → v ≤ℤ w → AllFrom w l → AllFrom v l
  All-weaken v w [] h a = tt
  All-weaken v w (x ∷ l) h a = (omega arith, All-weaken v w l h a.1)

  insert_sorted-IsSorted :
      (x : Revision U) (l : List (Revision U)) → IsSorted l → IsSorted (insert_sorted x l)
  unfolding insert_sorted
  insert_sorted-IsSorted x [] h = (tt, tt)
  insert_sorted-IsSorted x (y ∷ l) h = elim (Bool-cases (less y x)) [
    | inl e ↦ rw e (
      insert_sorted-All (λ r. y.resource_version ≤ℤ r.resource_version) x l
          (unfold less in le_of_lt y.resource_version x.resource_version e) h.0,
      insert_sorted-IsSorted x l h.1,
    )
    | inr e ↦
        let le = le_of_not_lt y.resource_version x.resource_version (unfold less in e) in
        rw e ((le, All-weaken x.resource_version y.resource_version l le h.0), h)
  ]

  -- Sorting orders a list by resource version.
  pub sort-IsSorted : (l : List (Revision U)) → IsSorted (sort l)
  unfolding sort
  sort-IsSorted [] = tt
  sort-IsSorted (x ∷ l) = insert_sorted-IsSorted x (sort l) (sort-IsSorted l)
