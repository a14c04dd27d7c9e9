-- ===== src/Cmd/State/Run/Exported.antt =====
-- What the subcommand `state` of cmd/state.go has written when it exits after `--directory`.
use saiki.Prelude.{
  ◌≡◌, ◌≢◌, refl, sym, subst, ap, ◌∙◌, inl, inr, Bool, true, false, not, ◌||◌, List, [], ◌∷◌, ◌++◌,
  append_assoc, Option, none, some, if◌then◌else◌, Str, ◌==◌, str_eq, str_beq_iff, codes, All,
  Bool-cases, arith,
}
use saiki.Prelude.Dict.{lookup}
use saiki.Prelude.Dict.Ranged.{IsRange}
use saiki.Errors.{Error, Result, ok, err}
use saiki.Store.Revision.{Revision}
use saiki.Store.Revision.RoundTrip.{IsStorable}
use saiki.Store.Storage.{Env, RevisionStore, content}
use saiki.Store.Storage.State.{StateOptions, StateMap, state}
use saiki.Store.Storage.State.Alone.{OneAt, OneEach-range, lookup-OneAt, state-OneEach}
use saiki.Store.Storer.{store_storer}
use saiki.Store.Marshal.{revisions_of}
use saiki.Cmd.State.{StateFlags, state_file, asks, options_for, state_command, columns, rows}
use saiki.Cmd.State.Asks.{state_command-asks}
use saiki.Cmd.State.Export.{Export, exited, written, write_state}
use saiki.Cmd.State.Export.Written.{
  IsFileSystem, ExportsAll, ExportsAll-left, ExportsAll-right, reads, reads-append,
}
use saiki.Cmd.State.Export.Complete.{write_state-Exports}
use saiki.Cmd.State.Export.Distinct.{OneEach-DistinctKeys}
use saiki.Cmd.State.Run.{
  StateParts, exported, text, table, marshalled, print_yaml, print_text, exported_by, show,
  with_state, run_asked, state_run,
}

module _ {U S F : Type 0} (w : StateParts U S F) where
  print_yaml-not_export :
      (r : Result Str) (s s' : S) (d d' : F) → print_yaml w r s d ≢ exported s' d'
  unfolding print_yaml
  print_yaml-not_export (err e) s s' d d' h = cc
  print_yaml-not_export (ok b) s s' d d' h = cc

  print_text-not_export :
      (f : StateFlags) (r : Result Str × S) (s' : S) (d d' : F)
      → print_text w f r d ≢ exported s' d'
  unfolding print_text
  print_text-not_export f (err e, s) s' d d' h = cc
  print_text-not_export f (ok b, s) s' d d' h = elim (Bool-cases (f.output == codes "yaml")) [
    | inl y ↦
        print_yaml-not_export (w.files.json_to_yaml b) s s' d d' (
          ap (λ c. if c then print_yaml w (w.files.json_to_yaml b) s d else text b s d) (sym y) ∙ h)
    | inr n ↦
        cc (
          ap (λ c. if c then print_yaml w (w.files.json_to_yaml b) s d else text b s d) (sym n) ∙ h)
  ]

  exported_by-written :
      (e : Export S F) (s' : S) (d' : F) → exported_by w e ≡ exported s' d' → e ≡ written s' d'
  unfolding exported_by
  exported_by-written (exited m s d) s' d' h = cc
  exported_by-written (written s d) s' d' h = cc

  -- Only the branch for a directory ends so.
  show-written :
      (f : StateFlags) (o : StateOptions U) (shows : Bool) (st : StateMap U) (s s' : S) (d d' : F)
      → show w f o shows st s d ≡ exported s' d'
      → (f.directory ≢ [])
        × (write_state w.files w.storer.content_in f.directory (w.ranged st) s d ≡ written s' d')
  unfolding show
  show-written f o shows st s s' d d' h =
      by_directory (f.directory == []) (f.output == codes "json" || f.output == codes "yaml") refl h
    where
      by_directory :
          (b c : Bool)
          → (f.directory == []) ≡ b
          → (if not b
              then exported_by w
                  (write_state w.files w.storer.content_in f.directory (w.ranged st) s d)
              else if c
              then print_text w f (marshalled w f st s) d
              else table (columns o shows) (rows o shows w.age (w.ranged st)) s d)
            ≡ exported s' d'
          → (f.directory ≢ [])
            × (write_state w.files w.storer.content_in f.directory (w.ranged st) s d
                ≡ written s' d')
      by_directory false c e q = (
        (λ n. ground (arith, e, (str_beq_iff f.directory []).1 n)),
        exported_by-written _ s' d' q,
      )
      by_directory true true e q = absurd (print_text-not_export f (marshalled w f st s) s' d d' q)
      by_directory true false e q = absurd (cc q)

  with_state-shown :
      (f : StateFlags) (o : StateOptions U) (shows : Bool) (r : (StateMap U × S) × Option Error)
      (s' : S) (d d' : F)
      → with_state w f o shows r d ≡ exported s' d'
      → show w f o shows r.0.0 r.0.1 d ≡ exported s' d'
  unfolding with_state
  with_state-shown f o shows ((st, s), some e) s' d d' h = absurd (cc h)
  with_state-shown f o shows ((st, s), none) s' d d' h = h

-- with the revision store
abbrev pub with_store :
    {U B F : Type 0}
    → StateParts U (RevisionStore B) F
    → Env U B
    → Bool
    → StateParts U (RevisionStore B) F
with_store parts env bulk = record parts { storer = store_storer env bulk }

module _ {U B F : Type 0} (parts : StateParts U (RevisionStore B) F) (env : Env U B) (bulk : Bool)
    (read : F → Str → Option Str) (laws : IsFileSystem parts.files read) where
  -- The revisions stand among all of the state in the order in which the map is visited, and each has
  -- a file with the YAML of the content that the store gives for it after the contents of those
  -- before it were read.
  abbrev pub ExportsAmong :
      Str → RevisionStore B → F → List (Revision U) → List (Revision U) → Type 0
  ExportsAmong root s d revs all_revs =
      (before after : List (Revision U)) × (all_revs ≡ before ++ (revs ++ after))
      × ExportsAll parts.files (content env) root read laws
          (reads parts.files (content env) root read laws before s) d revs

  ExportsAll-Among :
      (root : Str) (s : RevisionStore B) (d : F) (k : Str) (v : List (Revision U)) (l : StateMap U)
      → ExportsAll parts.files (content env) root read laws s d (revisions_of l)
      → lookup k l ≡ some v
      → ExportsAmong root s d v (revisions_of l)
  unfolding lookup revisions_of
  ExportsAll-Among root s d k v [] h e = cc
  ExportsAll-Among root s d k v ((j, u) ∷ l) h e = first (j == k) e (
      ExportsAll-Among root (reads parts.files (content env) root read laws u s) d k v l
        (ExportsAll-right parts.files (content env) root read laws u (revisions_of l) s d h))
    where
      first :
          (b : Bool)
          → (if b then some u else lookup k l) ≡ some v
          → (lookup k l ≡ some v
              → ExportsAmong root
                  (reads parts.files (content env) root read laws u s)
                  d
                  v
                  (revisions_of l))
          → ExportsAmong root s d v (u ++ revisions_of l)
      first true q rest =
          subst (λ z. ExportsAmong root s d z (u ++ revisions_of l)) (cc q)
            (
              [],
              revisions_of l,
              refl,
              ExportsAll-left parts.files (content env) root read laws u (revisions_of l) s d h,
            )
      first false q rest =
          let (before, after, e, x) = rest q in
          (
            u ++ before,
            after,
            ap (λ z. u ++ z) e ∙ sym (append_assoc u before (v ++ after)),
            subst (λ z. ExportsAll parts.files (content env) root read laws z d v)
                (sym (reads-append parts.files (content env) root read laws u before s)) x,
          )

  -- The subcommand has asked the store with the options and exits after it has written under the
  -- directory; the map of the state is visited in any order, and its revisions are storable. Then a
  -- key of the state has one revision, of its resource, whose file holds the YAML of its content, read
  -- from the store as `State` and the contents before it leave that; and a file of another name than
  -- those of the revisions is as it was.
  pub state_run-Exports :
      (f : StateFlags) (args : List Str) (s s' : RevisionStore B) (d d' : F) (o : StateOptions U)
      (shows : Bool) (rk : Str) (revs : List (Revision U)) (path : Str)
      → state_command parts.mapping parts.parse_selector parts.now f args ≡ asks o shows
      → IsRange (parts.ranged (state env o s).0.0) (state env o s).0.0
      → All (λ r. IsStorable r.fields) (revisions_of (parts.ranged (state env o s).0.0))
      → state_run (with_store parts env bulk) f args s d ≡ exported s' d'
      → lookup rk (state env o s).0.0 ≡ some revs
      → All (λ r. state_file f.directory r ≢ path) (revisions_of (parts.ranged (state env o s).0.0))
      → OneAt rk revs
        × ExportsAmong f.directory
            (state env o s).0.1
            d'
            revs
            (revisions_of (parts.ranged (state env o s).0.0))
        × (read d' path ≡ read d path)
  unfolding state_run run_asked
  state_run-Exports f args s s' d d' o shows rk revs path e r hs h q ne =
      let found = (state env o s).0.0 in
      let one = state-OneEach env o s (
        state_command-asks parts.mapping parts.parse_selector parts.now f
          (λ o shows. o.all_revisions ≡ false)
          (λ args resource selector. unfold options_for in refl) args o shows e) in
      let w = with_store parts env bulk in
      let (named, done) = show-written w f o shows found (state env o s).0.1 s' d d' (
        with_state-shown w f o shows (state env o s) s' d d'
          (ap (λ c. run_asked w f c s d) (sym e) ∙ h)) in
      let (all, same, keeps) =
        write_state-Exports parts.files (store_storer env bulk).content_in f.directory read laws
          named (parts.ranged found) (state env o s).0.1 s' d d' hs
          (OneEach-DistinctKeys (parts.ranged found)
            (OneEach-range (parts.ranged found) found r one) hs)
          done in
      (
        lookup-OneAt rk revs found one q,
        ExportsAll-Among f.directory (state env o s).0.1 d' rk revs (parts.ranged found) all
            (r.values rk ∙ q),
        keeps path ne,
      )
