-- ===== src/Cmd/Revisions/Command.antt =====
-- The subcommand `revisions` of cmd/revisions.go from its checks to its verb. The store is one without
-- the cache, which the command turns off.
pub mod Touches
pub mod Latest
use saiki.Prelude.{Bool, true, false, List, [], ◌∷◌, Option, none, some, if◌then◌else◌, Str}
use saiki.Golang.Time.{Time}
use saiki.Errors.{Error, not_found, Result, ok, err}
use saiki.Store.Revision.{RevisionFields, Revision}
use saiki.Store.Config.{ApiResource}
use saiki.Store.Storer.{Storer}
use saiki.Cmd.Revisions.{
  Flags, Verb, get_verb, delete_verb, apply_verb, other_verb, refuses, select,
}
use saiki.Cmd.Revisions.Apply.{DynamicClient, ObjectLibrary, Message, apply_object}

-- what is printed, or the exit of the process
pub data Output (U : Type 0) : Type 0 where
  refused missing : Output U
  no_mapping no_group_version no_client : Error → Output U
  -- the content of the revision
  no_content : RevisionFields → Error → Output U
  fatal_listing : Error → Output U
  -- the revisions of `get`, as a table or as text
  shown : List (Revision U) → Output U
  -- what was deleted, and the error that is logged
  purged : List (Revision U) → Option Error → Output U
  nothing_to_apply : Output U
  said : List Message → Output U

-- the word and the name that follow the verb, and the other flags
pub record Asked : Type 0 where
  pub verb : Verb
  pub resource : Str
  pub name : Str
  pub flags : Flags
  pub namespace_flag : Str
  pub overwrite : Bool

-- the store, its configuration, the clock, and the cluster
pub record Surroundings (U S C : Type 0) : Type 0 where
  pub storer : Storer U S
  pub mapping : Str → Result (Str × ApiResource)
  pub now : Time
  pub lib : ObjectLibrary U
  pub parse_group_version : Str → Result Str
  pub client_for : Str → ApiResource → Str → Result (DynamicClient U C)

module _ {U S C : Type 0} (w : Surroundings U S C) where
  abbrev pub Done : Type 0
  Done = Output U × S × C

  apply_with : Asked → Result (DynamicClient U C) → RevisionFields → U → S → C → Done
  apply_with a (err e) rev u s c = (no_client e, s, c)
  apply_with a (ok client) rev u s c =
      let (messages, c') = apply_object w.lib client a.overwrite rev u c in (said messages, s, c')

  apply_content : Asked → Str → ApiResource → Str → RevisionFields → Result U → S → C → Done
  unfolding apply_with
  apply_content a api_version resource namespace rev (err e) s c = (no_content rev e, s, c)
  apply_content a api_version resource namespace rev (ok u) s c =
      elim (w.parse_group_version api_version) [
        | err e ↦ (no_group_version e, s, c)
        | ok gv ↦ apply_with a (w.client_for gv resource namespace) rev u s c
      ]

  -- the `switch` over the verb
  run_verb : Asked → Str → ApiResource → Str → Verb → List (Revision U) → S → C → Done
  unfolding apply_content
  run_verb a api_version resource namespace get_verb out s c = (shown out, s, c)
  run_verb a api_version resource namespace delete_verb out s c =
      let (deleted, e, s') = w.storer.purge_all_in out s in (purged deleted e, s', c)
  run_verb a api_version resource namespace apply_verb [] s c = (nothing_to_apply, s, c)
  run_verb a api_version resource namespace apply_verb (rev ∷ revs) s c =
      let (content, s') = w.storer.content_in rev s in
      apply_content a api_version resource namespace rev.fields content s' c
  run_verb a api_version resource namespace other_verb out s c = (refused, s, c)

  with_listing : Asked → Str → ApiResource → Str → Result (List (Revision U)) → S → C → Done
  unfolding run_verb
  with_listing a api_version resource namespace (err not_found) s c = (missing, s, c)
  with_listing a api_version resource namespace (err e) s c = (fatal_listing e, s, c)
  with_listing a api_version resource namespace (ok revisions) s c =
      run_verb a api_version resource namespace a.verb (select a.flags w.now revisions) s c

  abbrev pub namespace_of : Asked → ApiResource → Str
  namespace_of a resource = if resource.namespaced then a.namespace_flag else []

  with_mapping : Asked → Result (Str × ApiResource) → S → C → Done
  unfolding with_listing
  with_mapping a (err e) s c = (no_mapping e, s, c)
  with_mapping a (ok (api_version, resource)) s c =
      let namespace = namespace_of a resource in
      with_listing a api_version resource namespace
        (w.storer.list_in api_version resource.kind namespace a.name s) s c

  -- the command
  unfoldable pub revisions_command : Asked → S → C → Done
  unfolding with_mapping
  revisions_command a s c =
      if refuses a.verb a.flags then (refused, s, c) else with_mapping a (w.mapping a.resource) s c
