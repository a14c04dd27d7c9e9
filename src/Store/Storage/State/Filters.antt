-- ===== src/Store/Storage/State/Filters.antt =====
-- Which revisions `State` returns, and under which keys.
use saiki.Prelude.{
  ◌≡◌, refl, ◌⊎◌, inl, inr, Bool, true, false, not, ◌&&◌, ◌||◌, [], ◌∷◌, arith, if◌then◌else◌, Str,
  ◌==◌, str_eq, str_beq_iff, Bool-cases,
}
use saiki.Golang.Time.{is_zero, after}
use saiki.Store.Revision.{Revision, resource_key}
use saiki.Store.Storage.{Env, RevisionStore}
use saiki.Store.Storage.State.Invariant.{Passes, Labels, state-invariant}
use saiki.Store.Storage.State.Keyed.{AllKeyed, insert-AllKeyed, insert-append-AllKeyed}
use saiki.Store.Storage.State.{StateOptions, StateMap, put, is_foreign, is_left_out, state}

or_false : (a b : Bool) → (a || b) ≡ false → (a ≡ false) × (b ≡ false)
or_false a b h = ground (arith, h)

-- a filter that lets pass is not set, or it is met
met : (t s : Str) → (not (s == []) && not (t == s)) ≡ false → (s ≡ []) ⊎ (t ≡ s)
met t s h = elim (Bool-cases (s == [])) [
  | inl e ↦ inl ((str_beq_iff s []).0 e)
  | inr e ↦ inr ((str_beq_iff t s).0 (ground (arith, h, e)))
]

met_namespace :
    (all : Bool) (t s : Str)
    → (not all && not (s == []) && not (t == s)) ≡ false
    → (all ≡ true) ⊎ ((s ≡ []) ⊎ (t ≡ s))
met_namespace true t s h = inl refl
met_namespace false t s h = inr (met t s (ground (arith, h)))

module _ {U : Type 0} (o : StateOptions U) where
  -- The revision is of the key's resource, and it is what the options ask for, filter by filter.
  abbrev pub Meets : Str → Revision U → Type 0
  Meets rk rev =
      (resource_key rev.fields ≡ rk)
      × ((o.api_version ≡ []) ⊎ (rev.api_version ≡ o.api_version))
      × ((o.kind ≡ []) ⊎ (rev.kind ≡ o.kind))
      × ((o.name ≡ []) ⊎ (rev.name ≡ o.name))
      × ((o.all_namespaces ≡ true) ⊎ ((o.namespace ≡ []) ⊎ (rev.namespace ≡ o.namespace)))
      × ((o.only_deleted ≡ false) ⊎ (rev.deleted ≡ true))
      × ((is_zero o.time ≡ true) ⊎ (after o.time rev.revision_timestamp ≡ true))
      × Labels o o.label_selector rev

  abbrev pub AllPass : StateMap U → Type 0
  AllPass = AllKeyed Meets

  in_time :
      (rev : Revision U)
      → is_left_out o rev ≡ false
      → (is_zero o.time ≡ true) ⊎ (after o.time rev.revision_timestamp ≡ true)
  unfolding is_left_out
  in_time rev h = elim (Bool-cases (is_zero o.time)) [
    | inl e ↦ inl e
    | inr e ↦ inr (
        ground (
          arith,
          e,
          (or_false (o.only_deleted && not rev.deleted)
              (not (is_zero o.time) && not (after o.time rev.revision_timestamp)) h).1,
        ))
  ]

  in_deleted :
      (rev : Revision U)
      → is_left_out o rev ≡ false
      → (o.only_deleted ≡ false) ⊎ (rev.deleted ≡ true)
  unfolding is_left_out
  in_deleted rev h = elim (Bool-cases o.only_deleted) [
    | inr e ↦ inl e
    | inl e ↦ inr (
        ground (
          arith,
          e,
          (or_false (o.only_deleted && not rev.deleted)
              (not (is_zero o.time) && not (after o.time rev.revision_timestamp)) h).0,
        ))
  ]

  Passes-Meets :
      (rk : Str) (rev : Revision U) → Passes o rk rev → Labels o o.label_selector rev → Meets rk rev
  unfolding is_foreign
  Passes-Meets rk rev (e, foreign, left) labels =
      let (rest, api_version) = or_false _ _ foreign in
      let (rest', kind) = or_false _ _ rest in
      let (namespace, name) = or_false _ _ rest' in
      (
        e,
        met rev.api_version o.api_version api_version,
        met rev.kind o.kind kind,
        met rev.name o.name name,
        met_namespace o.all_namespaces rev.namespace o.namespace namespace,
        in_deleted rev left,
        in_time rev left,
        labels,
      )

  put-AllPass :
      (rev : Revision U) (res : StateMap U)
      → Meets (resource_key rev.fields) rev
      → AllPass res
      → AllPass (put o rev res)
  unfolding put
  put-AllPass rev res h a =
      let rk = resource_key rev.fields in
      pick o.all_revisions _ _ (insert-append-AllKeyed Meets rk rev res h a)
        (insert-AllKeyed Meets rk (rev ∷ []) res (h, tt) a)
    where
      pick : (b : Bool) (x y : StateMap U) → AllPass x → AllPass y → AllPass (if b then x else y)
      pick true x y hx hy = hx
      pick false x y hx hy = hy

module _ {U B : Type 0} (env : Env U B) (o : StateOptions U) where
  -- Every revision that `State` returns, also beside an error, stands under the key of its own
  -- resource, and is of the API version, the kind, the namespace and the name that are asked for, as
  -- far as the options give them; it is deleted and from before the time if they say so; and with a
  -- label selector its object was read and the selector matches that.
  pub state-AllPass : (s : RevisionStore B) → AllPass o (state env o s).0.0
  state-AllPass =
      state-invariant env o (AllPass o) tt (λ rev res p l a.
        put-AllPass o rev res (Passes-Meets o (resource_key rev.fields) rev p l) a)
