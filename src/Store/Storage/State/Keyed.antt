-- ===== src/Store/Storage/State/Keyed.antt =====
-- A property of every revision of a `State` of pkg/store/state.go and of the key that it stands under.
use saiki.Prelude.{
  ◌≡◌, refl, subst, Bool, true, false, List, [], ◌∷◌, ◌++◌, none, some, if◌then◌else◌, Str, ◌==◌,
  str_eq, str_beq_iff, All, All-append, Bool-cases, inl, inr,
}
use saiki.Prelude.Dict.{lookup, insert}
use saiki.Store.Revision.{Revision}
use saiki.Store.Storage.State.{StateMap, revisions_at}

module _ {U : Type 0} (P : Str → Revision U → Type 0) where
  abbrev pub AllKeyed : StateMap U → Type 0
  AllKeyed = All (λ entry. All (P entry.0) entry.1)

  pub insert-AllKeyed :
      (rk : Str) (revs : List (Revision U)) (res : StateMap U)
      → All (P rk) revs
      → AllKeyed res
      → AllKeyed (insert rk revs res)
  unfolding insert
  insert-AllKeyed rk revs [] h a = (h, tt)
  insert-AllKeyed rk revs ((k, v) ∷ res) h a = elim (Bool-cases (k == rk)) [
    | inl e ↦ rw e (h, a.1)
    | inr e ↦ rw e (a.0, insert-AllKeyed rk revs res h a.1)
  ]

  revisions_at-AllKeyed :
      (rk : Str) (res : StateMap U) → AllKeyed res → All (P rk) (revisions_at rk res)
  unfolding lookup
  revisions_at-AllKeyed rk [] a = tt
  revisions_at-AllKeyed rk ((k, v) ∷ res) a =
      first (k == rk) refl (revisions_at-AllKeyed rk res a.1)
    where
      first :
          (b : Bool)
          → (k == rk) ≡ b
          → All (P rk) (revisions_at rk res)
          → All (P rk) (elim (if b then some v else lookup rk res) as (λ _. List (Revision U)) [
            | none ↦ []
            | some revs ↦ revs
          ])
      first true e rest = subst (λ x. All (P x) v) ((str_beq_iff k rk).0 e) a.0
      first false e rest = rest

  -- one more revision under its key
  pub insert-append-AllKeyed :
      (rk : Str) (rev : Revision U) (res : StateMap U)
      → P rk rev
      → AllKeyed res
      → AllKeyed (insert rk (revisions_at rk res ++ (rev ∷ [])) res)
  insert-append-AllKeyed rk rev res h a =
      insert-AllKeyed rk (revisions_at rk res ++ (rev ∷ [])) res
        (All-append (P rk) (revisions_at rk res) (rev ∷ []) (revisions_at-AllKeyed rk res a)
          (h, tt))
        a
