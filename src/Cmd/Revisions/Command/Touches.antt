-- ===== src/Cmd/Revisions/Command/Touches.antt =====
-- What each verb of the subcommand `revisions` of cmd/revisions.go may change.
use saiki.Prelude.{
  ◌≡◌, refl, ◌⊎◌, inl, inr, Bool, true, false, ◌&&◌, List, [], ◌∷◌, Option, none, some,
  if◌then◌else◌, Str, All, All-mono, In, here, there, ◌==◌, str_eq,
}
use saiki.Prelude.Int.{ℤ, int_eq}
use saiki.Golang.Time.{Time, after}
use saiki.Errors.{not_found, Result, ok, err}
use saiki.Store.Revision.{Revision}
use saiki.Store.Config.{ApiResource}
use saiki.Cmd.Revisions.{
  Flags, Verb, get_verb, delete_verb, apply_verb, other_verb, refuses, select, by_version, by_time,
  is_better, asks_time, singleton_or_nil,
}
use saiki.Cmd.Revisions.Apply.{DynamicClient, apply_object}
use saiki.Cmd.Revisions.Command.{
  Asked, Surroundings, Done, Output, revisions_command, with_mapping, with_listing, run_verb,
  apply_content, apply_with, namespace_of, no_group_version,
}

module _ {U : Type 0} (P : Revision U → Type 0) where
  abbrev pub OnSome : Option (Revision U) → Type 0
  OnSome none = Unit
  OnSome (some r) = P r

  by_version-All :
      (v : ℤ) (out revs : List (Revision U))
      → All P out
      → All P revs
      → All P (by_version v out revs)
  unfolding by_version
  by_version-All v out [] ho hr = ho
  by_version-All v out (r ∷ revs) ho hr =
      by_version-All v (if r.resource_version == v then r ∷ [] else out) revs
        (pick (r.resource_version == v)) hr.1
    where
      pick : (b : Bool) → All P (if b then r ∷ [] else out)
      pick true = (hr.0, tt)
      pick false = ho

  by_time-OnSome :
      (t : Time) (m : Option (Revision U)) (revs : List (Revision U))
      → OnSome m
      → All P revs
      → OnSome (by_time t m revs)
  unfolding by_time
  by_time-OnSome t m [] hm hr = hm
  by_time-OnSome t m (r ∷ revs) hm hr =
      by_time-OnSome t (if after t r.revision_timestamp && is_better m r then some r else m) revs
        (pick (after t r.revision_timestamp && is_better m r)) hr.1
    where
      pick : (b : Bool) → OnSome (if b then some r else m)
      pick true = hr.0
      pick false = hm

  singleton-All : (m : Option (Revision U)) → OnSome m → All P (singleton_or_nil m)
  singleton-All none h = tt
  singleton-All (some r) h = (h, tt)

  -- whatever holds of all revisions holds of those that are selected
  pub select-All :
      (f : Flags) (now : Time) (revisions : List (Revision U))
      → All P revisions
      → All P (select f now revisions)
  unfolding select
  select-All f now revisions h =
      if-All (asks_time f) _ _ (singleton-All _ (by_time-OnSome _ none _ tt out-All)) out-All
    where
      if-All : (b : Bool) (x y : List (Revision U)) → All P x → All P y → All P (if b then x else y)
      if-All true x y hx hy = hx
      if-All false x y hx hy = hy

      out-All :
          All P
            (if f.revision_text == [] then revisions else by_version f.revision revisions revisions)
      out-All =
          if-All (f.revision_text == []) _ _ h (by_version-All f.revision revisions revisions h h)

from_membership :
    {U : Type 0} (P : Revision U → Type 0) (revs : List (Revision U))
    → ((r : Revision U) → In r revs → P r)
    → All P revs
from_membership P [] h = tt
from_membership P (r ∷ revs) h = (h r here, from_membership P revs (λ q m. h q (there m)))

module _ {U S C : Type 0} (w : Surroundings U S C) (a : Asked) (s : S) (c : C) where
  abbrev pub Idle : Done w → Type 0
  Idle d = (d.1 ≡ s) × (d.2 ≡ c)

  -- The word is mapped so, and the store lists the revision for it, the namespace and the name.
  abbrev pub ListedAs : Str → ApiResource → Revision U → Type 0
  ListedAs api_version resource rev =
      (w.mapping a.resource ≡ ok (api_version, resource))
      × (revisions : List (Revision U)) × (w.storer.list_in api_version resource.kind
            (namespace_of w a resource) a.name s
          ≡ ok revisions)
      × In rev revisions

  abbrev pub Listed : Revision U → Type 0
  Listed rev = (api_version : Str) × (resource : ApiResource) × ListedAs api_version resource rev

  -- one purge, of listed revisions
  abbrev pub Purges : Done w → Type 0
  Purges d =
      (a.verb ≡ delete_verb)
      × (out : List (Revision U)) × All Listed out
      × (d.1 ≡ (w.storer.purge_all_in out s).2)
      × (d.2 ≡ c)

  -- The content that the store has for the revision is applied by the client of its resource, in the
  -- group version and the namespace.
  abbrev pub AppliedBy : Str → ApiResource → Revision U → C → Type 0
  AppliedBy api_version resource rev c' =
      (gv : Str) × (client : DynamicClient U C) × (u : U) × (w.parse_group_version api_version
        ≡ ok gv)
      × (w.client_for gv resource (namespace_of w a resource) ≡ ok client)
      × ((w.storer.content_in rev s).0 ≡ ok u)
      × (c' ≡ (apply_object w.lib client a.overwrite rev.fields u c).1)

  -- the content of one listed revision is read, and at most that is applied
  abbrev pub Applies : Done w → Type 0
  Applies d =
      (a.verb ≡ apply_verb)
      × (api_version : Str) × (resource : ApiResource) × (rev : Revision U) × ListedAs api_version
          resource rev
      × (d.1 ≡ (w.storer.content_in rev s).1)
      × ((d.2 ≡ c) ⊎ AppliedBy api_version resource rev d.2)

  abbrev pub Touches : Done w → Type 0
  Touches d = Idle d ⊎ ((refuses a.verb a.flags ≡ false) × (Purges d ⊎ Applies d))

  abbrev Reads : Str → ApiResource → Revision U → S → Done w → Type 0
  Reads api_version resource rev s' d =
      (d.1 ≡ s') × ((d.2 ≡ c) ⊎ AppliedBy api_version resource rev d.2)

  apply_with-Reads :
      (rev : Revision U) (api_version gv : Str) (resource : ApiResource)
      (client : Result (DynamicClient U C)) (u : U) (s' : S)
      → w.parse_group_version api_version ≡ ok gv
      → w.client_for gv resource (namespace_of w a resource) ≡ client
      → (w.storer.content_in rev s).0 ≡ ok u
      → Reads api_version resource rev s' (apply_with w a client rev.fields u s' c)
  unfolding apply_with
  apply_with-Reads rev api_version gv resource (err e) u s' g k h = (refl, inl refl)
  apply_with-Reads rev api_version gv resource (ok client) u s' g k h =
      (refl, inr (gv, client, u, g, k, h, refl))

  apply_content-Reads :
      (rev : Revision U) (api_version : Str) (resource : ApiResource) (content : Result U) (s' : S)
      → (w.storer.content_in rev s).0 ≡ content
      → Reads api_version resource rev s' (
          apply_content w a api_version resource
            (namespace_of w a resource)
            rev.fields
            content
            s'
            c)
  unfolding apply_content
  apply_content-Reads rev api_version resource (err e) s' h = (refl, inl refl)
  apply_content-Reads rev api_version resource (ok u) s' h =
      go (w.parse_group_version api_version) refl
    where
      go :
          (r : Result Str)
          → w.parse_group_version api_version ≡ r
          → Reads api_version resource rev s' (elim r as (λ _. Done w) [
            | err e ↦ (no_group_version e, s', c)
            | ok gv ↦
                apply_with w a
                  (w.client_for gv resource (namespace_of w a resource))
                  rev.fields
                  u
                  s'
                  c
          ])
      go (err e) g = (refl, inl refl)
      go (ok gv) g =
          apply_with-Reads rev api_version gv resource
            (w.client_for gv resource (namespace_of w a resource)) u s' g refl h

  run_verb-Touches :
      (api_version : Str) (resource : ApiResource) (verb : Verb) (out : List (Revision U))
      → a.verb ≡ verb
      → refuses a.verb a.flags ≡ false
      → All (ListedAs api_version resource) out
      → Touches (run_verb w a api_version resource (namespace_of w a resource) verb out s c)
  unfolding run_verb
  run_verb-Touches api_version resource get_verb out v h l = inl (refl, refl)
  run_verb-Touches api_version resource delete_verb out v h l =
      inr (h, inl (v, out, All-mono _ _ out (λ r i. (api_version, resource, i)) l, refl, refl))
  run_verb-Touches api_version resource apply_verb [] v h l = inl (refl, refl)
  run_verb-Touches api_version resource apply_verb (rev ∷ revs) v h l =
      let (stored, cluster) =
        apply_content-Reads rev api_version resource (w.storer.content_in rev s).0
          (w.storer.content_in rev s).1 refl in
      inr (h, inr (v, api_version, resource, rev, l.0, stored, cluster))
  run_verb-Touches api_version resource other_verb out v h l = inl (refl, refl)

  with_listing-Touches :
      (api_version : Str) (resource : ApiResource) (r : Result (List (Revision U)))
      → refuses a.verb a.flags ≡ false
      → w.mapping a.resource ≡ ok (api_version, resource)
      → w.storer.list_in api_version resource.kind (namespace_of w a resource) a.name s ≡ r
      → Touches (with_listing w a api_version resource (namespace_of w a resource) r s c)
  unfolding with_listing
  with_listing-Touches api_version resource (err not_found) h m l = inl (refl, refl)
  with_listing-Touches api_version resource (err e) h m l = inl (refl, refl)
  with_listing-Touches api_version resource (ok revisions) h m l =
      run_verb-Touches api_version resource a.verb (select a.flags w.now revisions) refl h (
        select-All (ListedAs api_version resource) a.flags w.now revisions
          (from_membership (ListedAs api_version resource) revisions (λ r i. (m, revisions, l, i))))

  with_mapping-Touches :
      (r : Result (Str × ApiResource))
      → refuses a.verb a.flags ≡ false
      → w.mapping a.resource ≡ r
      → Touches (with_mapping w a r s c)
  unfolding with_mapping
  with_mapping-Touches (err e) h m = inl (refl, refl)
  with_mapping-Touches (ok (api_version, resource)) h m =
      with_listing-Touches api_version resource
        (w.storer.list_in api_version resource.kind (namespace_of w a resource) a.name s) h m refl

  -- The command changes neither the store nor the cluster, or its checks let it pass and it does one of
  -- two things: with `delete` it makes one purge, of revisions that the store lists for the object, and
  -- leaves the cluster alone; with `apply` it reads one such revision's content from the store, and
  -- changes the cluster at most by applying that content once, with the client for the resource that
  -- the word is mapped to, its group version and the namespace.
  pub revisions_command-Touches : Touches (revisions_command w a s c)
  unfolding revisions_command
  revisions_command-Touches = go (refuses a.verb a.flags) refl
    where
      go :
          (b : Bool)
          → refuses a.verb a.flags ≡ b
          → Touches (
              let d : Done w =
                if b then (Output.refused, s, c) else with_mapping w a (w.mapping a.resource) s c in
              d)
      go true h = inl (refl, refl)
      go false h = with_mapping-Touches (w.mapping a.resource) h refl
