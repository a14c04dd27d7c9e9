-- ===== src/Store/Storage/State/Newest.antt =====
-- What `State` of pkg/store/storage.go holds at a key, and how a newer revision changes it.
use saiki.Prelude.{
  ◌≡◌, refl, sym, ap, ◌∙◌, ◌⊎◌, inl, inr, Bool, true, false, ◌||◌, List, [], ◌∷◌, ◌++◌, Option,
  none, some, arith, if◌then◌else◌, Str, ◌==◌, str_eq, str_beq_iff, eq_self, In, Bool-cases,
}
use saiki.Prelude.Int.{ℤ, ◌≤ℤ◌, le_of_not_lt, le_of_lt}
use saiki.Prelude.Dict.{lookup, insert, lookup-insert}
use saiki.Golang.Strings.{trim_prefix}
use saiki.Golang.FilePath.{slash, dir}
use saiki.Golang.Time.{Time}
use saiki.Errors.{Error, skip_dir, ok}
use saiki.Store.Revision.{Revision, resource_key, parse_lazy_loading_revision}
use saiki.Store.Backend.{ListObject}
use saiki.Store.Storage.{Env}
use saiki.Store.Storage.State.{
  StateOptions, StateMap, revisions_at, is_foreign, is_left_out, is_newer, put, is_outside,
}

pub some-injective : {A : Type 0} {a b : A} → some a ≡ some b → a ≡ b
some-injective e = cc

module _ {U : Type 0} where
  revisions_at-insert :
      (written read : Str) (revs : List (Revision U)) (res : StateMap U)
      → revisions_at read (insert written revs res)
        ≡ (if written == read then revs else revisions_at read res)
  revisions_at-insert written read revs res =
      ap
        (λ (o : Option (List (Revision U))). elim o as (λ _. List (Revision U)) [
          | none ↦ []
          | some revs ↦ revs
        ])
        (lookup-insert written read revs res)
      ∙ go (written == read)
    where
      go :
          (b : Bool)
          → (elim (if b then some revs else lookup read res) as (λ _. List (Revision U)) [
            | none ↦ []
            | some revs ↦ revs
          ])
            ≡ (if b then revs else revisions_at read res)
      go true = refl
      go false = refl

module _ {U B : Type 0} (env : Env U B) (o : StateOptions U) (objs : List ListObject) where
  -- the object is the file of the revision
  abbrev pub Parsed : ListObject → Revision U → Type 0
  Parsed obj rev =
      ((obj.is_dir || is_outside env o obj) ≡ false)
      × (parse_lazy_loading_revision {U = U} (trim_prefix slash obj.key) ≡ ok rev)

  abbrev pub Listed : Revision U → Type 0
  Listed rev = (obj : ListObject) × In obj objs × Parsed obj rev

  -- The files of one directory are of one resource, as far as the options ask for it.
  abbrev pub OneResource : Type 0
  OneResource =
      (obj obj' : ListObject) (rev rev' : Revision U)
      → In obj objs
      → In obj' objs
      → dir obj.key ≡ dir obj'.key
      → Parsed obj rev
      → Parsed obj' rev'
      → is_foreign o rev ≡ is_foreign o rev'

  -- one listed revision stands at the key, from the time or later
  abbrev pub At : StateMap U → Str → Time → Type 0
  At res rk t =
      (r : Revision U) × (revisions_at rk res ≡ r ∷ []) × (t ≤ℤ r.revision_timestamp) × Listed r

  -- at most one revision stands at each key, and it is listed
  abbrev pub Single : StateMap U → Type 0
  Single res =
      (rk : Str)
      → (revisions_at rk res ≡ []) ⊎ ((r : Revision U) × (revisions_at rk res ≡ r ∷ []) × Listed r)

  abbrev pub Grows : StateMap U → StateMap U → Type 0
  Grows res res' = (rk : Str) (t : Time) → At res rk t → At res' rk t

  -- what passes the filters
  abbrev pub Kept : ListObject → Revision U → Type 0
  Kept obj rev = Parsed obj rev × (is_foreign o rev ≡ false) × (is_left_out o rev ≡ false)

  abbrev pub Step : ListObject → StateMap U → StateMap U × Option Error → Type 0
  Step obj res out =
      Single out.0
      × Grows res out.0
      × ((rev : Revision U)
          → Kept obj rev
          → At out.0 (resource_key rev.fields) rev.revision_timestamp)
      × (out.1 ≡ some skip_dir → (rev : Revision U) × Parsed obj rev × (is_foreign o rev ≡ true))

  put_lookup :
      (rev : Revision U) (res : StateMap U) (rk : Str)
      → o.all_revisions ≡ false
      → revisions_at rk (put o rev res)
        ≡ (if resource_key rev.fields == rk then rev ∷ [] else revisions_at rk res)
  unfolding put
  put_lookup rev res rk a =
      ap
        (λ b. revisions_at rk (
          if b
          then insert (resource_key rev.fields)
              (revisions_at (resource_key rev.fields) res ++ (rev ∷ [])) res
          else insert (resource_key rev.fields) (rev ∷ []) res))
        a
      ∙ revisions_at-insert (resource_key rev.fields) rk (rev ∷ []) res

  abbrev put_at : Revision U → StateMap U → Str → Bool → List (Revision U)
  put_at rev res rk b = if b then rev ∷ [] else revisions_at rk res

  pub put-Single :
      (rev : Revision U) (res : StateMap U)
      → o.all_revisions ≡ false
      → Listed rev
      → Single res
      → Single (put o rev res)
  put-Single rev res a l h rk =
      let e = put_lookup rev res rk a in
      elim (Bool-cases (resource_key rev.fields == rk)) [
        | inl y ↦ inr (rev, e ∙ ap (put_at rev res rk) y, l)
        | inr n ↦
            let e' = e ∙ ap (put_at rev res rk) n in
            elim (h rk) [
              | inl none_there ↦ inl (e' ∙ none_there)
              | inr (r, q, lr) ↦ inr (r, e' ∙ q, lr)
            ]
      ]

  trans_le : (a b c : ℤ) → a ≤ℤ b → b ≤ℤ c → a ≤ℤ c
  trans_le a b c h k = omega (arith, h, k)

  newer_than :
      (rev r : Revision U) (revs : List (Revision U))
      → revs ≡ r ∷ []
      → is_newer revs rev ≡ true
      → r.revision_timestamp ≤ℤ rev.revision_timestamp
  unfolding is_newer
  newer_than rev r revs e n =
      le_of_lt r.revision_timestamp rev.revision_timestamp (ap (λ l. is_newer l rev) (sym e) ∙ n)

  pub put-Grows :
      (rev : Revision U) (res : StateMap U)
      → o.all_revisions ≡ false
      → Listed rev
      → is_newer (revisions_at (resource_key rev.fields) res) rev ≡ true
      → Grows res (put o rev res)
  put-Grows rev res a l n rk t (r, q, le, lr) =
      let e = put_lookup rev res rk a in
      elim (Bool-cases (resource_key rev.fields == rk)) [
        | inl y ↦
            let k = (str_beq_iff (resource_key rev.fields) rk).0 y in
            (
              rev,
              e ∙ ap (put_at rev res rk) y,
              trans_le t r.revision_timestamp rev.revision_timestamp le (
                  newer_than rev r (revisions_at (resource_key rev.fields) res)
                    (ap (λ k. revisions_at k res) k ∙ q) n),
              l,
            )
        | inr m ↦ (r, e ∙ ap (put_at rev res rk) m ∙ q, le, lr)
      ]

  refl_le : (t : ℤ) → t ≤ℤ t
  refl_le t = omega arith

  pub put-At :
      (rev : Revision U) (res : StateMap U)
      → o.all_revisions ≡ false
      → Listed rev
      → At (put o rev res) (resource_key rev.fields) rev.revision_timestamp
  put-At rev res a l = (
    rev,
    put_lookup rev res (resource_key rev.fields) a
        ∙ ap (put_at rev res (resource_key rev.fields)) (eq_self (resource_key rev.fields)),
    refl_le rev.revision_timestamp,
    l,
  )

  -- a revision that is not newer leaves the one that is there
  pub older_than :
      (rev : Revision U) (revs : List (Revision U))
      → (revs ≡ []) ⊎ ((r : Revision U) × (revs ≡ r ∷ []) × Listed r)
      → is_newer revs rev ≡ false
      → (r : Revision U) × (revs ≡ r ∷ [])
        × (rev.revision_timestamp ≤ℤ r.revision_timestamp)
        × Listed r
  unfolding is_newer
  older_than rev revs (inl e) n = absurd (cc (ap (λ l. is_newer l rev) (sym e) ∙ n))
  older_than rev revs (inr (r, e, l)) n = (
    r,
    e,
    le_of_not_lt r.revision_timestamp rev.revision_timestamp (ap (λ l. is_newer l rev) (sym e) ∙ n),
    l,
  )
