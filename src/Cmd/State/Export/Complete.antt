-- ===== src/Cmd/State/Export/Complete.antt =====
-- All files of a state that the subcommand `state` of cmd/state.go has written.
use saiki.Prelude.{
  ◌≡◌, ◌≢◌, refl, sym, ap, subst, ◌∙◌, List, [], ◌∷◌, ◌++◌, Option, none, some, Str, All, All-left,
  All-right,
}
use saiki.Golang.FilePath.{join_path}
use saiki.Errors.{Error, Result}
use saiki.Store.Revision.{Revision, key}
use saiki.Store.Revision.RoundTrip.{IsStorable}
use saiki.Store.Storage.State.{StateMap}
use saiki.Store.Marshal.{revisions_of}
use saiki.Cmd.State.{state_file}
use saiki.Cmd.State.Export.{
  ExportLibrary, Export, exited, written, write_revisions, in_directory, write_state,
}
use saiki.Cmd.State.Export.Written.{
  IsFileSystem, DistinctKeys, ExportsAll, reads, reads-append, ExportsAll-append, Keeps, DidAll,
  ExportsAll-kept, files_differ, write_revisions-DidAll,
}

module _ {U : Type 0} where
  DistinctKeys-split :
      (xs ys : List (Revision U))
      → DistinctKeys (xs ++ ys)
      → DistinctKeys xs × DistinctKeys ys × All (λ r. All (λ q. key q.fields ≢ key r.fields) ys) xs
  DistinctKeys-split [] ys h = (tt, h, tt)
  DistinctKeys-split (x ∷ xs) ys h =
      let (dx, dy, c) = DistinctKeys-split xs ys h.1 in
      (
        (All-left (λ q. key q.fields ≢ key x.fields) xs ys h.0, dx),
        dy,
        (All-right (λ q. key q.fields ≢ key x.fields) xs ys h.0, c),
      )

module _ {U S F : Type 0} (lib : ExportLibrary U F) (content_in : Revision U → S → Result U × S)
    (root : Str) (read : F → Str → Option Str) (laws : IsFileSystem lib read)
    (named : root ≢ []) where
  abbrev Done : List (Revision U) → S → F → Export S F → Type 0
  Done revs s f e = DidAll lib content_in root read laws named revs s f e

  in_directory-Done :
      (path : Str) (w : Option Error × F) (revs : List (Revision U)) (s : S) (f : F)
      → lib.mkdir_all path f ≡ w
      → All (λ r. IsStorable r.fields) revs
      → DistinctKeys revs
      → Done revs s f (in_directory lib content_in root w revs s)
  unfolding in_directory
  in_directory-Done path (some x, f') revs s f e hs d = tt
  in_directory-Done path (none, f') revs s f e hs d =
      go (write_revisions lib content_in root revs s f')
        (write_revisions-DidAll lib content_in root read laws named revs s f' hs d)
    where
      go : (x : Export S F) → Done revs s f' x → Done revs s f x
      go (exited m s'' f'') h = tt
      go (written s'' f'') (all, t, k) = (all, t, (λ p ne. k p ne ∙ laws.made path p f f' e))

  all_differ :
      (xs ys : List (Revision U))
      → All (λ r. IsStorable r.fields) xs
      → All (λ r. IsStorable r.fields) ys
      → All (λ r. All (λ q. key q.fields ≢ key r.fields) ys) xs
      → All (λ r. All (λ q. state_file root q ≢ state_file root r) ys) xs
  all_differ [] ys hx hy c = tt
  all_differ (x ∷ xs) ys hx hy c = (
    files_differ lib content_in root read laws named x ys hx.0 hy c.0,
    all_differ xs ys hx.1 hy c.1,
  )

  write_state-Done :
      (state : StateMap U) (s : S) (f : F)
      → All (λ r. IsStorable r.fields) (revisions_of state)
      → DistinctKeys (revisions_of state)
      → Done (revisions_of state) s f (write_state lib content_in root state s f)
  unfolding write_state revisions_of
  write_state-Done [] s f hs d = (tt, refl, (λ p h. refl))
  write_state-Done ((rk, revs) ∷ state) s f hs d =
      let storable = λ (r : Revision U). IsStorable r.fields in
      let here = All-left storable revs (revisions_of state) hs in
      let later = All-right storable revs (revisions_of state) hs in
      let (dx, dy, c) = DistinctKeys-split revs (revisions_of state) d in
      let path = join_path (root ∷ rk ∷ []) in
      go (in_directory lib content_in root (lib.mkdir_all path f) revs s)
        (in_directory-Done path (lib.mkdir_all path f) revs s f refl here dx)
        (λ s' f'. write_state-Done state s' f' later dy)
        (all_differ revs (revisions_of state) here later c)
    where
      after :
          (s' : S) (f' : F) (e : Export S F)
          → ExportsAll lib content_in root read laws s f' revs
            × (s' ≡ reads lib content_in root read laws revs s)
            × Keeps lib content_in root read laws revs f f'
          → Done (revisions_of state) s' f' e
          → All (λ r. All (λ q. state_file root q ≢ state_file root r) (revisions_of state)) revs
          → Done (revs ++ revisions_of state) s f e
      after s' f' (exited m s'' f'') h ih d' = tt
      after s' f' (written s'' f'') (x, t, k) (all, t', k') d' = (
        ExportsAll-append lib content_in root read laws revs (revisions_of state) s f''
            (ExportsAll-kept lib content_in root read laws f' f'' (revisions_of state) revs s k' d'
              x)
            (subst (λ z. ExportsAll lib content_in root read laws z f'' (revisions_of state)) t
              all),
        t'
            ∙ ap (reads lib content_in root read laws (revisions_of state)) t
            ∙ sym (reads-append lib content_in root read laws revs (revisions_of state) s),
        (λ p h.
            k' p (All-right (λ r. state_file root r ≢ p) revs (revisions_of state) h)
            ∙ k p (All-left (λ r. state_file root r ≢ p) revs (revisions_of state) h)),
      )

      go :
          (e : Export S F)
          → Done revs s f e
          → ((s' : S) (f' : F)
              → Done (revisions_of state) s' f' (write_state lib content_in root state s' f'))
          → All (λ r. All (λ q. state_file root q ≢ state_file root r) (revisions_of state)) revs
          → Done (revs ++ revisions_of state) s f (elim e as (λ _. Export S F) [
            | exited m s' f' ↦ exited m s' f'
            | written s' f' ↦ write_state lib content_in root state s' f'
          ])
      go (exited m s' f') h ih d' = tt
      go (written s' f') h ih d' =
          after s' f' (write_state lib content_in root state s' f') h (ih s' f') d'

  -- A state of storable revisions with different keys, written without an exit: under the root, the file
  -- of every revision has the YAML of the content that the store gave for it in its turn, since no two of
  -- them are written to one file, live or deleted; and files of other names are as they were.
  pub write_state-Exports :
      (state : StateMap U) (s s' : S) (f f' : F)
      → All (λ r. IsStorable r.fields) (revisions_of state)
      → DistinctKeys (revisions_of state)
      → write_state lib content_in root state s f ≡ written s' f'
      → ExportsAll lib content_in root read laws s f' (revisions_of state)
        × (s' ≡ reads lib content_in root read laws (revisions_of state) s)
        × Keeps lib content_in root read laws (revisions_of state) f f'
  write_state-Exports state s s' f f' hs d e =
      subst (Done (revisions_of state) s f) e (write_state-Done state s f hs d)
