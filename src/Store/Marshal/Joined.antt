-- ===== src/Store/Marshal/Joined.antt =====
-- The texts of pkg/store/state.go against joining the texts of their parts.
use saiki.Prelude.{
  ℕ, suc, ◌≡◌, refl, sym, ap, ◌∙◌, List, [], ◌∷◌, ◌++◌, append_assoc, append-nil, if◌then◌else◌,
  Str, ltb, lt→ltb, arith,
}
use saiki.Golang.Time.{Time}
use saiki.Golang.Strings.{join}
use saiki.Errors.{Result, ok, err}
use saiki.Store.Revision.{Revision, ObjectMeta}
use saiki.Store.Storer.{Storer}
use saiki.Store.Storage.State.{StateMap}
use saiki.Store.Marshal.{
  Json, write_each, closed, revision_text, list_with_content, entry_text, state_with_content,
  object_text, revisions_of, state_only_content,
}

module _ {A S : Type 0} (piece : A → S → Result Str × S) where
  -- the texts of all parts in their order, or the first error
  unfoldable pub texts : List A → S → Result (List Str) × S
  texts [] s = (ok [], s)
  texts (a ∷ rest) s =
      let (b, s') = piece a s in
      elim b [
        | err e ↦ (err e, s')
        | ok text ↦
            let (more, s'') = texts rest s' in
            elim more [ err e ↦ (err e, s'') | ok ts ↦ (ok (text ∷ ts), s'') ]
      ]

-- a successful reply changed
unfoldable pub on_ok : {A B S : Type 0} → (A → B) → Result A × S → Result B × S
on_ok f (err e, s) = (err e, s)
on_ok f (ok a, s) = (ok (f a), s)

module _ {A S : Type 0} (separator : ℕ) (piece : A → S → Result Str × S) where
  -- each text behind a separator
  abbrev behind : List Str → Str
  behind [] = []
  behind (t ∷ ts) = separator ∷ t ++ behind ts

  join-behind : (t : Str) (ts : List Str) → join separator (t ∷ ts) ≡ t ++ behind ts
  unfolding join
  join-behind t [] = sym (append-nil t)
  join-behind t (u ∷ ts) = ap (λ x. t ++ (separator ∷ x)) (join-behind u ts)

  abbrev separated : ℕ → Str → Str
  separated i out = if ltb 0 i then out ++ (separator ∷ []) else out

  -- the texts of the rest behind one that is there
  on_ok-cons :
      (f g : List Str → Str) (text : Str) (r : Result (List Str)) (s : S)
      → ((ts : List Str) → f ts ≡ g (text ∷ ts))
      → on_ok f (r, s)
        ≡ on_ok g (elim r as (λ _. Result (List Str) × S) [
          | err e ↦ (err e, s)
          | ok ts ↦ (ok (text ∷ ts), s)
        ])
  unfolding on_ok
  on_ok-cons f g text (err e) s h = refl
  on_ok-cons f g text (ok ts) s h = ap (λ o. (ok o, s)) (h ts)

  -- One round, where `g` is what the loop makes of the texts, and the rounds after it are known.
  one_round :
      (g : List Str → Str) (i : ℕ) (out : Str) (a : A) (rest : List A) (s : S)
      → ((o : Str) (s' : S)
          → write_each separator piece (suc i) o rest s'
            ≡ on_ok (λ ts. o ++ behind ts) (texts piece rest s'))
      → ((text : Str) (ts : List Str) → (separated i out ++ text) ++ behind ts ≡ g (text ∷ ts))
      → write_each separator piece i out (a ∷ rest) s ≡ on_ok g (texts piece (a ∷ rest) s)
  unfolding write_each texts on_ok join
  one_round g i out a rest s more h = go (piece a s).0
    where
      s' : S
      s' = (piece a s).1

      go :
          (b : Result Str)
          → (elim b as (λ _. Result Str × S) [
            | err e ↦ (err e, s')
            | ok text ↦ write_each separator piece (suc i) (separated i out ++ text) rest s'
          ])
            ≡ on_ok g (elim b as (λ _. Result (List Str) × S) [
              | err e ↦ (err e, s')
              | ok text ↦ elim (texts piece rest s').0 [
                | err e ↦ (err e, (texts piece rest s').1)
                | ok ts ↦ (ok (text ∷ ts), (texts piece rest s').1)
              ]
            ])
      go (err e) = refl
      go (ok text) =
          more (separated i out ++ text) s'
          ∙ on_ok-cons (λ ts. (separated i out ++ text) ++ behind ts) g text (texts piece rest s').0
              (texts piece rest s').1 (h text)

  write_later :
      (i : ℕ) (out : Str) (as' : List A) (s : S)
      → write_each separator piece (suc i) out as' s
        ≡ on_ok (λ ts. out ++ behind ts) (texts piece as' s)
  unfolding write_each texts on_ok join
  write_later i out [] s = ap (λ o. (ok o, s)) (sym (append-nil out))
  write_later i out (a ∷ rest) s =
      one_round (λ ts. out ++ behind ts) (suc i) out a rest s
        (λ o s'. write_later (suc i) o rest s')
        (λ text ts.
          ap (λ b. ((if b then out ++ (separator ∷ []) else out) ++ text) ++ behind ts)
            (lt→ltb 0 (suc i) (omega arith))
          ∙ append_assoc (out ++ (separator ∷ [])) text (behind ts)
          ∙ append_assoc out (separator ∷ []) (text ++ behind ts))

  -- A loop writes the texts of its parts joined by the separator, or ends with the first error.
  pub write_each-join :
      (out : Str) (as' : List A) (s : S)
      → write_each separator piece 0 out as' s
        ≡ on_ok (λ ts. out ++ join separator ts) (texts piece as' s)
  unfolding write_each texts on_ok join
  write_each-join out [] s = ap (λ o. (ok o, s)) (sym (append-nil out))
  write_each-join out (a ∷ rest) s =
      one_round (λ ts. out ++ join separator ts) 0 out a rest s (λ o s'. write_later 0 o rest s')
        (λ text ts.
          append_assoc out text (behind ts) ∙ ap (λ x. out ++ x) (sym (join-behind text ts)))

module _ {U S : Type 0} (json : Json U) (storer : Storer U S) (meta : ObjectMeta U)
    (now : Time) where
  -- the texts of the parts, joined by commas between brackets
  abbrev pub bracketed :
      {A : Type 0} → Str → ℕ → ℕ → (A → S → Result Str × S) → List A → S → Result Str × S
  bracketed prefix left right piece parts s =
      closed prefix right
        (on_ok (λ ts. (prefix ++ (left ∷ [])) ++ join b',' ts) (texts piece parts s))

  -- The text of a list with content is the texts of its revisions joined by commas between square
  -- brackets; that of a state is those of its lists, by key, between braces; and that without the
  -- revisions is the objects' texts joined by newlines. Each is nothing but the first error, if one of
  -- its parts has one; and the store goes through the parts in their order.
  pub marshal-join :
      (prefix indent : Str) (revs : List (Revision U)) (state : StateMap U) (s : S)
      → (list_with_content json storer meta now prefix indent revs s
          ≡ bracketed prefix b'[' b']' (revision_text json storer meta now prefix indent) revs s)
        × (state_with_content json storer meta now prefix indent state s
            ≡ bracketed prefix b'{' b'}' (entry_text json storer meta now prefix indent) state s)
        × (state_only_content json storer meta now prefix indent state s
            ≡ on_ok
                (join b'\n')
                (texts (object_text json storer meta now prefix indent) (revisions_of state) s))
  unfolding list_with_content state_with_content state_only_content
  marshal-join prefix indent revs state s = (
    ap (closed prefix b']') (
        write_each-join b',' (revision_text json storer meta now prefix indent)
          (prefix ++ (b'[' ∷ [])) revs s),
    ap (closed prefix b'}') (
        write_each-join b',' (entry_text json storer meta now prefix indent) (prefix ++ (b'{' ∷ []))
          state s),
    write_each-join b'\n' (object_text json storer meta now prefix indent) [] (revisions_of state)
        s,
  )
