-- ===== src/Store/Storage/State/Alone.antt =====
-- `State` of pkg/store/storage.go, asked for the newest revisions: each resource has one of them.
use saiki.Prelude.{
  ◌≡◌, ◌≢◌, refl, sym, subst, ◌∙◌, inl, inr, Bool, true, false, List, [], ◌∷◌, ◌++◌, none, some,
  if◌then◌else◌, Str, ◌==◌, str_eq, str_beq_iff, eq_self, All, Bool-cases, arith,
}
use saiki.Prelude.Dict.{lookup, insert}
use saiki.Prelude.Dict.Ranged.{IsRange, DistinctNames}
use saiki.Store.Revision.{Revision, resource_key}
use saiki.Store.Storage.{Env, RevisionStore}
use saiki.Store.Storage.State.Invariant.{state-invariant}
use saiki.Store.Storage.State.{StateOptions, StateMap, revisions_at, put, state}

different : (j k : Str) → (j == k) ≡ false → k ≢ j
different j k e h = ground (arith, e, (str_beq_iff j k).1 (sym h))

module _ {U : Type 0} where
  -- one revision, of the key's resource
  abbrev pub OneAt : Str → List (Revision U) → Type 0
  OneAt rk [] = true ≡ false
  OneAt rk (r ∷ []) = resource_key r.fields ≡ rk
  OneAt rk (r ∷ q ∷ revs) = true ≡ false

  -- one at each key
  abbrev pub OneEach : StateMap U → Type 0
  OneEach [] = Unit
  OneEach ((rk, revs) ∷ res) = OneAt rk revs × All (λ entry. entry.0 ≢ rk) res × OneEach res

  insert-Others :
      (k rk : Str) (revs : List (Revision U)) (res : StateMap U)
      → rk ≢ k
      → All (λ entry. entry.0 ≢ k) res
      → All (λ entry. entry.0 ≢ k) (insert rk revs res)
  unfolding insert
  insert-Others k rk revs [] ne h = (ne, tt)
  insert-Others k rk revs ((j, v) ∷ res) ne h = elim (Bool-cases (j == rk)) [
    | inl e ↦ rw e (ne, h.1)
    | inr e ↦ rw e (h.0, insert-Others k rk revs res ne h.1)
  ]

  insert-OneEach :
      (rk : Str) (revs : List (Revision U)) (res : StateMap U)
      → OneAt rk revs
      → OneEach res
      → OneEach (insert rk revs res)
  unfolding insert
  insert-OneEach rk revs [] h a = (h, tt, tt)
  insert-OneEach rk revs ((k, v) ∷ res) h a = elim (Bool-cases (k == rk)) [
    | inl e ↦
        rw e (h, subst (λ x. All (λ entry. entry.0 ≢ x) res) ((str_beq_iff k rk).0 e) a.1, a.2)
    | inr e ↦
        rw e (
          a.0,
          insert-Others k rk revs res (different k rk e) a.1,
          insert-OneEach rk revs res h a.2,
        )
  ]

  put-OneEach :
      (o : StateOptions U) (rev : Revision U) (res : StateMap U)
      → o.all_revisions ≡ false
      → OneEach res
      → OneEach (put o rev res)
  unfolding put
  put-OneEach o rev res e a =
      let rk = resource_key rev.fields in
      subst
        (λ b. OneEach (
          if b
          then insert rk (revisions_at rk res ++ (rev ∷ [])) res
          else insert rk (rev ∷ []) res))
        (sym e) (insert-OneEach rk (rev ∷ []) res refl a)

  pub lookup-OneAt :
      (k : Str) (v : List (Revision U)) (res : StateMap U)
      → OneEach res
      → lookup k res ≡ some v
      → OneAt k v
  unfolding lookup
  lookup-OneAt k v [] a e = cc
  lookup-OneAt k v ((j, w) ∷ res) a e = first (j == k) refl e (lookup-OneAt k v res a.2)
    where
      first :
          (b : Bool)
          → (j == k) ≡ b
          → (if b then some w else lookup k res) ≡ some v
          → (lookup k res ≡ some v → OneAt k v)
          → OneAt k v
      first true y q rest =
          subst (λ x. OneAt x v) ((str_beq_iff j k).0 y) (subst (OneAt j) (cc q) a.0)
      first false y q rest = rest q

  lookup-other : (k : Str) (l : StateMap U) → All (λ entry. entry.0 ≢ k) l → lookup k l ≡ none
  unfolding lookup
  lookup-other k [] h = refl
  lookup-other k ((j, w) ∷ l) h = elim (Bool-cases (j == k)) [
    | inl e ↦ absurd (h.0 ((str_beq_iff j k).0 e))
    | inr e ↦ rw e (lookup-other k l h.1)
  ]

  OneEach-lookups :
      (l : StateMap U)
      → DistinctNames l
      → ((k : Str) (v : List (Revision U)) → lookup k l ≡ some v → OneAt k v)
      → OneEach l
  unfolding lookup
  OneEach-lookups [] d h = tt
  OneEach-lookups ((k, v) ∷ l) d h = (
    h k v (rw (eq_self k) refl),
    d.0,
    OneEach-lookups l d.1 (λ j w e. elim (Bool-cases (k == j)) [
      | inl y ↦ absurd (
          cc (
            sym e
            ∙ lookup-other j l
                (subst (λ x. All (λ entry. entry.0 ≢ x) l) ((str_beq_iff k j).0 y) d.0)))
      | inr n ↦ h j w (rw n e)
    ]),
  )

  -- in whatever order the map is visited
  pub OneEach-range : (l res : StateMap U) → IsRange l res → OneEach res → OneEach l
  OneEach-range l res r a =
      OneEach-lookups l r.names (λ k v e. lookup-OneAt k v res a (sym (r.values k) ∙ e))

-- Without `AllRevisions` each key of the result has one revision, of its own resource.
pub state-OneEach :
    {U B : Type 0} (env : Env U B) (o : StateOptions U) (s : RevisionStore B)
    → o.all_revisions ≡ false
    → OneEach (state env o s).0.0
state-OneEach env o s e =
    state-invariant env o OneEach tt (λ rev res p l a. put-OneEach o rev res e a) s
