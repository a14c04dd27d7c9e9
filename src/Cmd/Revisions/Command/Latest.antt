-- ===== src/Cmd/Revisions/Command/Latest.antt =====
-- Which content the subcommand `revisions` of cmd/revisions.go applies from the store of
-- pkg/store/storage.go.
use saiki.Prelude.{
  ◌≡◌, refl, sym, subst, ap, ◌∙◌, Bool, false, List, [], ◌∷◌, if◌then◌else◌, Str, All,
}
use saiki.Errors.{Result, ok, err}
use saiki.Store.Revision.{RevisionFields, Revision, unloaded}
use saiki.Store.Revision.Lazy.{parse_lazy_loading_revision-unloaded}
use saiki.Store.Config.{ApiResource}
use saiki.Store.Storer.{store_storer}
use saiki.Store.Storage.{Env, RevisionStore, list_revisions, content}
use saiki.Store.Storage.Listed.{list_revisions-All}
use saiki.Store.Storage.Latest.{content-same_resource}
use saiki.Cmd.Revisions.{Flags, apply_verb, refuses, select}
use saiki.Cmd.Revisions.Apply.{DynamicClient, Message}
use saiki.Cmd.Revisions.Apply.Renamed.{all_printing, apply_object-Alike}
use saiki.Cmd.Revisions.Command.{
  Asked, Surroundings, Done, Output, revisions_command, with_mapping, with_listing, run_verb,
  apply_content, apply_with, namespace_of, no_group_version, no_content, said,
}
use saiki.Cmd.Revisions.Command.Touches.{select-All}

-- the names of a revision's resource
abbrev pub OfResource : {U : Type 0} → Str → Str → Str → Str → Revision U → Type 0
OfResource v k n m r =
    (r.fields.api_version ≡ v)
    × (r.fields.kind ≡ k)
    × (r.fields.namespace ≡ n)
    × (r.fields.name ≡ m)

-- a revision of the resource, without its object
abbrev Lazily : {U : Type 0} → Str → Str → Str → Str → Revision U → Type 0
Lazily v k n m r = (r.body ≡ unloaded) × OfResource v k n m r

content-Lazily :
    {U B : Type 0} (env : Env U B) (s : RevisionStore B) (v k n m : Str) (q r : Revision U)
    → Lazily v k n m q
    → Lazily v k n m r
    → content env q s ≡ content env r s
content-Lazily env s v k n m q r (bq, (vq, kq, nq, mq)) (br, (vr, kr, nr, mr)) =
    ap (λ b. content env (record { fields = q.fields; body = b }) s) bq
    ∙ content-same_resource env s q.fields r.fields (vq ∙ sym vr) (kq ∙ sym kr) (nq ∙ sym nr)
        (mq ∙ sym mr)
    ∙ ap (λ b. content env (record { fields = r.fields; body = b }) s) (sym br)

-- the output with another revision printed in it
abbrev pub output_for : {U : Type 0} → RevisionFields → Output U → Output U
output_for r (no_content q e) = no_content r e
output_for r (said messages) = said (all_printing r messages)
output_for r out = out

-- what a command did, but for the revision that it prints
abbrev pub done_for : {U S C : Type 0} (w : Surroundings U S C) → RevisionFields → Done w → Done w
done_for w r (out, s, c) = (output_for r out, s, c)

-- the same command with other flags
abbrev pub reflagged : Asked → Flags → Asked
reflagged a f = record a { flags = f }

module _ {U S C : Type 0} (w : Surroundings U S C) (a : Asked) (f : Flags) (q r : RevisionFields)
    (named : q.name ≡ r.name) where
  apply_with-reflagged :
      (client : Result (DynamicClient U C)) (u : U) (s : S) (c : C)
      → apply_with w (reflagged a f) client r u s c ≡ done_for w r (apply_with w a client q u s c)
  unfolding apply_with
  apply_with-reflagged (err e) u s c = refl
  apply_with-reflagged (ok client) u s c =
      ap (λ (o : List Message × C). (said o.0, s, o.1))
        (apply_object-Alike w.lib client q r named a.overwrite u c)

  apply_content-reflagged :
      (v : Str) (resource : ApiResource) (namespace : Str) (content : Result U) (s : S) (c : C)
      → apply_content w (reflagged a f) v resource namespace r content s c
        ≡ done_for w r (apply_content w a v resource namespace q content s c)
  unfolding apply_content
  apply_content-reflagged v resource namespace (err e) s c = refl
  apply_content-reflagged v resource namespace (ok u) s c = go (w.parse_group_version v)
    where
      go :
          (g : Result Str)
          → (elim g as (λ _. Done w) [
            | err e ↦ (no_group_version e, s, c)
            | ok gv ↦ apply_with w (reflagged a f) (w.client_for gv resource namespace) r u s c
          ])
            ≡ done_for w r (elim g as (λ _. Done w) [
              | err e ↦ (no_group_version e, s, c)
              | ok gv ↦ apply_with w a (w.client_for gv resource namespace) q u s c
            ])
      go (err e) = refl
      go (ok gv) = apply_with-reflagged (w.client_for gv resource namespace) u s c

module _ {U B C : Type 0} (env : Env U B) (bulk : Bool)
    (around : Surroundings U (RevisionStore B) C) where
  -- the command over the revision store
  abbrev pub over_store : Surroundings U (RevisionStore B) C
  over_store = record around { storer = store_storer env bulk }

  run_verb-reflagged :
      (a : Asked) (f : Flags) (v k n : Str) (resource : ApiResource) (q r : Revision U)
      (out out' : List (Revision U)) (s : RevisionStore B) (c : C)
      → Lazily v k n a.name q
      → Lazily v k n a.name r
      → run_verb over_store (reflagged a f) v resource n apply_verb (r ∷ out') s c
        ≡ done_for over_store r.fields (run_verb over_store a v resource n apply_verb (q ∷ out) s c)
  unfolding run_verb
  run_verb-reflagged a f v k n resource q r out out' s c hq hr =
      let same_name : q.fields.name ≡ r.fields.name = hq.1.3 ∙ sym hr.1.3 in
      ap
        (λ (p : Result U × RevisionStore B).
          apply_content over_store (reflagged a f) v resource n r.fields p.0 p.1 c)
        (sym (content-Lazily env s v k n a.name q r hq hr))
      ∙ apply_content-reflagged over_store a f q.fields r.fields same_name v resource n
          (content env q s).0 (content env q s).1 c

  -- the command once the store has listed the revisions
  revisions_command-run_verb :
      (a : Asked) (v : Str) (resource : ApiResource) (l : List (Revision U)) (s : RevisionStore B)
      (c : C)
      → a.verb ≡ apply_verb
      → refuses apply_verb a.flags ≡ false
      → around.mapping a.resource ≡ ok (v, resource)
      → list_revisions env v resource.kind (namespace_of over_store a resource) a.name s ≡ ok l
      → revisions_command over_store a s c
        ≡ run_verb over_store a v resource
            (namespace_of over_store a resource)
            apply_verb
            (select a.flags around.now l)
            s
            c
  unfolding revisions_command with_mapping with_listing
  revisions_command-run_verb a v resource l s c ev er em el =
      ap
        (λ verb.
          if refuses verb a.flags
          then (Output.refused, s, c)
          else with_mapping over_store a (around.mapping a.resource) s c)
        ev
      ∙ ap
          (λ b.
            if b
            then (Output.refused, s, c)
            else with_mapping over_store a (around.mapping a.resource) s c)
          er
      ∙ ap (λ r. with_mapping over_store a r s c) em
      ∙ ap (λ r. with_listing over_store a v resource (namespace_of over_store a resource) r s c) el
      ∙ ap
          (λ verb.
            run_verb over_store a v resource (namespace_of over_store a resource) verb
              (select a.flags around.now l) s c)
          ev

  -- Over the revision store it makes no difference which revision of an object `apply` is asked for, by
  -- `--revision`, `--at` or `--ago`: where two choices of the flags pass the checks and each selects a
  -- revision of those that are listed, all of the asked resource, the command leaves the same store
  -- and the same cluster with both, and prints the same, but for the revision itself.
  pub revisions_command-reflagged :
      (a : Asked) (f : Flags) (v : Str) (resource : ApiResource) (l : List (Revision U))
      (q r : Revision U) (out out' : List (Revision U)) (s : RevisionStore B) (c : C)
      → a.verb ≡ apply_verb
      → refuses apply_verb a.flags ≡ false
      → refuses apply_verb f ≡ false
      → around.mapping a.resource ≡ ok (v, resource)
      → list_revisions env v resource.kind (namespace_of over_store a resource) a.name s ≡ ok l
      → All (OfResource v resource.kind (namespace_of over_store a resource) a.name) l
      → select a.flags around.now l ≡ q ∷ out
      → select f around.now l ≡ r ∷ out'
      → revisions_command over_store (reflagged a f) s c
        ≡ done_for over_store r.fields (revisions_command over_store a s c)
  revisions_command-reflagged a f v resource l q r out out' s c ev er ef em el names some_a some_f =
      let n = namespace_of over_store a resource in
      let lazy : All (λ (r : Revision U). r.body ≡ unloaded) l =
        list_revisions-All env s v resource.kind n a.name (λ r. r.body ≡ unloaded)
          (λ name r e live. parse_lazy_loading_revision-unloaded _ r e) l el in
      let both : All (Lazily v resource.kind n a.name) l = All-both l lazy names in
      let of_q =
        subst (All (Lazily v resource.kind n a.name)) some_a
          (select-All _ a.flags around.now l both) in
      let of_r =
        subst (All (Lazily v resource.kind n a.name)) some_f (select-All _ f around.now l both) in
      revisions_command-run_verb (reflagged a f) v resource l s c ev ef em el
      ∙ ap (λ x. run_verb over_store (reflagged a f) v resource n apply_verb x s c) some_f
      ∙ run_verb-reflagged a f v resource.kind n resource q r out out' s c of_q.0 of_r.0
      ∙ ap (λ x. done_for over_store r.fields (run_verb over_store a v resource n apply_verb x s c))
          (sym some_a)
      ∙ ap (done_for over_store r.fields)
          (sym (revisions_command-run_verb a v resource l s c ev er em el))
    where
      All-both :
          (q : List (Revision U))
          → All (λ (r : Revision U). r.body ≡ unloaded) q
          → All (OfResource v resource.kind (namespace_of over_store a resource) a.name) q
          → All (Lazily v resource.kind (namespace_of over_store a resource) a.name) q
      All-both [] h h' = tt
      All-both (r ∷ q) h h' = ((h.0, h'.0), All-both q h.1 h'.1)
