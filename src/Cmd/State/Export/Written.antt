-- ===== src/Cmd/State/Export/Written.antt =====
-- What stands in the files that the subcommand `state` of cmd/state.go has written.
use saiki.Prelude.{
  ◌≡◌, ◌≢◌, refl, sym, subst, ap, ◌∙◌, List, [], ◌∷◌, ◌++◌, Option, none, some, arith,
  if◌then◌else◌, Str, ◌==◌, str_eq, str_beq_iff, All,
}
use saiki.Errors.{Error, Result, ok, err}
use saiki.Store.Revision.{Revision, key}
use saiki.Store.Revision.RoundTrip.{IsStorable}
use saiki.Cmd.State.{state_file}
use saiki.Cmd.State.FileNames.{state_file-key}
use saiki.Cmd.State.Export.{
  ExportLibrary, Export, exited, written, put_file, put_yaml, put_json, put_content, write_revision,
  write_revisions,
}

-- A file that was written without an error has its bytes and the others are as they were; making a
-- directory changes no file.
pub record IsFileSystem {U F : Type 0} (lib : ExportLibrary U F) (read : F → Str → Option Str)
    : Type 0 where
  pub wrote :
      (path other bytes : Str) (f f' : F)
      → lib.write_file path bytes f ≡ (none, f')
      → read f' other ≡ (if path == other then some bytes else read f other)
  pub made :
      (path other : Str) (f f' : F)
      → lib.mkdir_all path f ≡ (none, f')
      → read f' other ≡ read f other

-- no two revisions have one key
abbrev pub DistinctKeys : {U : Type 0} → List (Revision U) → Type 0
DistinctKeys [] = Unit
DistinctKeys (r ∷ revs) = All (λ q. key q.fields ≢ key r.fields) revs × DistinctKeys revs

module _ {U S F : Type 0} (lib : ExportLibrary U F) (content_in : Revision U → S → Result U × S)
    (root : Str) (read : F → Str → Option Str) (laws : IsFileSystem lib read) where
  -- The file of a revision has the YAML of the content that the store gave for it in the state `s`.
  abbrev pub Exports : S → F → Revision U → Type 0
  Exports s f rev =
      (u : U) × (json : Str) × (yaml : Str) × ((content_in rev s).0 ≡ ok u)
      × (lib.marshal_json u ≡ ok json)
      × (lib.json_to_yaml json ≡ ok yaml)
      × (read f (state_file root rev) ≡ some yaml)

  -- so for all revisions, whose contents are read one after the other from the state `s` on
  abbrev pub ExportsAll : S → F → List (Revision U) → Type 0
  ExportsAll s f [] = Unit
  ExportsAll s f (rev ∷ revs) = Exports s f rev × ExportsAll (content_in rev s).1 f revs

  -- the store after the contents were read
  abbrev pub reads : List (Revision U) → S → S
  reads [] s = s
  reads (rev ∷ revs) s = reads revs (content_in rev s).1

  pub reads-append :
      (xs ys : List (Revision U)) (s : S) → reads (xs ++ ys) s ≡ reads ys (reads xs s)
  reads-append [] ys s = refl
  reads-append (x ∷ xs) ys s = reads-append xs ys (content_in x s).1

  pub ExportsAll-append :
      (xs ys : List (Revision U)) (s : S) (f : F)
      → ExportsAll s f xs
      → ExportsAll (reads xs s) f ys
      → ExportsAll s f (xs ++ ys)
  ExportsAll-append [] ys s f hx hy = hy
  ExportsAll-append (x ∷ xs) ys s f hx hy =
      (hx.0, ExportsAll-append xs ys (content_in x s).1 f hx.1 hy)

  pub ExportsAll-left :
      (xs ys : List (Revision U)) (s : S) (f : F) → ExportsAll s f (xs ++ ys) → ExportsAll s f xs
  ExportsAll-left [] ys s f h = tt
  ExportsAll-left (x ∷ xs) ys s f h = (h.0, ExportsAll-left xs ys (content_in x s).1 f h.1)

  pub ExportsAll-right :
      (xs ys : List (Revision U)) (s : S) (f : F)
      → ExportsAll s f (xs ++ ys)
      → ExportsAll (reads xs s) f ys
  ExportsAll-right [] ys s f h = h
  ExportsAll-right (x ∷ xs) ys s f h = ExportsAll-right xs ys (content_in x s).1 f h.1

  -- the files of other names are as they were
  abbrev pub Keeps : List (Revision U) → F → F → Type 0
  Keeps revs f f' = (p : Str) → All (λ r. state_file root r ≢ p) revs → read f' p ≡ read f p

  abbrev Did : Revision U → S → F → Export S F → Type 0
  Did rev s f (exited m s' f') = Unit
  Did rev s f (written s' f') =
      Exports s f' rev × (s' ≡ (content_in rev s).1) × Keeps (rev ∷ []) f f'

  put_file-Did :
      (rev : Revision U) (s0 : S) (u : U) (json yaml : Str) (s : S) (f : F)
      → (content_in rev s0).0 ≡ ok u
      → s ≡ (content_in rev s0).1
      → lib.marshal_json u ≡ ok json
      → lib.json_to_yaml json ≡ ok yaml
      → (w : Option Error × F) → lib.write_file (state_file root rev) yaml f ≡ w
      → Did rev s0 f (put_file lib content_in root w s)
  unfolding put_file
  put_file-Did rev s0 u json yaml s f c t j y (some x, f') e = tt
  put_file-Did rev s0 u json yaml s f c t j y (none, f') e = (
    (
      u,
      json,
      yaml,
      c,
      j,
      y,
      laws.wrote (state_file root rev) (state_file root rev) yaml f f' e
          ∙ ap (λ b. if b then some yaml else read f (state_file root rev))
              ((str_beq_iff (state_file root rev) (state_file root rev)).1 refl),
    ),
    t,
    (λ p ne. laws.wrote (state_file root rev) p yaml f f' e ∙ other p yaml (ne.0)),
  )
    where
      other :
          (p bytes : Str)
          → state_file root rev ≢ p
          → (if state_file root rev == p then some bytes else read f p) ≡ read f p
      other p bytes ne = ground (arith, ne, str_beq_iff (state_file root rev) p)

  put_yaml-Did :
      (rev : Revision U) (s0 : S) (u : U) (json : Str) (s : S) (f : F)
      → (content_in rev s0).0 ≡ ok u
      → s ≡ (content_in rev s0).1
      → lib.marshal_json u ≡ ok json
      → (y : Result Str) → lib.json_to_yaml json ≡ y
      → Did rev s0 f (put_yaml lib content_in root rev y s f)
  unfolding put_yaml
  put_yaml-Did rev s0 u json s f c t j (err x) e = tt
  put_yaml-Did rev s0 u json s f c t j (ok yaml) e =
      put_file-Did rev s0 u json yaml s f c t j e (lib.write_file (state_file root rev) yaml f) refl

  put_json-Did :
      (rev : Revision U) (s0 : S) (u : U) (s : S) (f : F)
      → (content_in rev s0).0 ≡ ok u
      → s ≡ (content_in rev s0).1
      → (j : Result Str) → lib.marshal_json u ≡ j
      → Did rev s0 f (put_json lib content_in root rev j s f)
  unfolding put_json
  put_json-Did rev s0 u s f c t (err x) e = tt
  put_json-Did rev s0 u s f c t (ok json) e =
      put_yaml-Did rev s0 u json s f c t e (lib.json_to_yaml json) refl

  put_content-Did :
      (rev : Revision U) (s0 : S) (f : F) (c : Result U × S)
      → content_in rev s0 ≡ c
      → Did rev s0 f (put_content lib content_in root rev c f)
  unfolding put_content
  put_content-Did rev s0 f (err x, s) e = tt
  put_content-Did rev s0 f (ok u, s) e =
      put_json-Did rev s0 u s f (ap (λ (x : Result U × S). x.0) e)
        (sym (ap (λ (x : Result U × S). x.1) e)) (lib.marshal_json u) refl

  write_revision-Did :
      (rev : Revision U) (s : S) (f : F) → Did rev s f (write_revision lib content_in root rev s f)
  unfolding write_revision
  write_revision-Did rev s f = put_content-Did rev s f (content_in rev s) refl

  -- later files keep what was exported
  pub ExportsAll-kept :
      (f f' : F) (qs revs : List (Revision U)) (s : S)
      → Keeps qs f f'
      → All (λ r. All (λ q. state_file root q ≢ state_file root r) qs) revs
      → ExportsAll s f revs
      → ExportsAll s f' revs
  ExportsAll-kept f f' qs [] s k d h = tt
  ExportsAll-kept f f' qs (r ∷ revs) s k d ((u, j, y, c, m, t, e), h) = (
    (u, j, y, c, m, t, k (state_file root r) d.0 ∙ e),
    ExportsAll-kept f f' qs revs (content_in r s).1 k d.1 h,
  )

  module _ (named : root ≢ []) where
    pub files_differ :
        (r : Revision U) (qs : List (Revision U))
        → IsStorable r.fields
        → All (λ q. IsStorable q.fields) qs
        → All (λ q. key q.fields ≢ key r.fields) qs
        → All (λ q. state_file root q ≢ state_file root r) qs
    files_differ r [] hr hq d = tt
    files_differ r (q ∷ qs) hr hq d =
        ((λ e. d.0 (state_file-key root q r named hq.0 hr e)), files_differ r qs hr hq.1 d.1)

    abbrev pub DidAll : List (Revision U) → S → F → Export S F → Type 0
    DidAll revs s f (exited m s' f') = Unit
    DidAll revs s f (written s' f') = ExportsAll s f' revs × (s' ≡ reads revs s) × Keeps revs f f'

    pub write_revisions-DidAll :
        (revs : List (Revision U)) (s : S) (f : F)
        → All (λ r. IsStorable r.fields) revs
        → DistinctKeys revs
        → DidAll revs s f (write_revisions lib content_in root revs s f)
    unfolding write_revisions
    write_revisions-DidAll [] s f hs d = (tt, refl, (λ p h. refl))
    write_revisions-DidAll (r ∷ revs) s f hs d =
        go (write_revision lib content_in root r s f) (write_revision-Did r s f)
          (λ s' f'. write_revisions-DidAll revs s' f' hs.1 d.1)
      where
        after :
            (s' : S) (f' : F) (e : Export S F)
            → Exports s f' r × (s' ≡ (content_in r s).1) × Keeps (r ∷ []) f f'
            → DidAll revs s' f' e
            → DidAll (r ∷ revs) s f e
        after s' f' (exited m s'' f'') h ih = tt
        after s' f' (written s'' f'') (x, t, k) (all, t', k') = (
          (
            (ExportsAll-kept f' f'' revs (r ∷ []) s k' (files_differ r revs hs.0 hs.1 d.0, tt)
                (x, tt)).0,
            subst (λ z. ExportsAll z f'' revs) t all,
          ),
          t' ∙ ap (reads revs) t,
          (λ p h. k' p h.1 ∙ k p (h.0, tt)),
        )

        go :
            (e : Export S F)
            → Did r s f e
            → ((s' : S) (f' : F)
                → DidAll revs s' f' (write_revisions lib content_in root revs s' f'))
            → DidAll (r ∷ revs) s f (elim e as (λ _. Export S F) [
              | exited m s' f' ↦ exited m s' f'
              | written s' f' ↦ write_revisions lib content_in root revs s' f'
            ])
        go (exited m s' f') h ih = tt
        go (written s' f') h ih =
            after s' f' (write_revisions lib content_in root revs s' f') h (ih s' f')
