-- ===== src/Cmd/State.antt =====
-- cmd/state.go: the options that the subcommand `state` asks the store with, and what it prints.
pub mod Asks
pub mod Table
pub mod FileNames
pub mod Export
pub mod Run
use saiki.Prelude.{
  Bool, true, false, not, ◌&&◌, ◌||◌, List, [], ◌∷◌, ◌++◌, Option, none, some, if◌then◌else◌, Str,
  ◌==◌, str_eq, codes,
}
use saiki.Prelude.Int.{ℤ, pos, ltb_ℤ, ◌-ℤ◌}
use saiki.Golang.Time.{Time, unix}
use saiki.Golang.FilePath.{join_path, ext}
use saiki.Golang.Strings.{trim_suffix}
use saiki.Errors.{Error, Result, ok, err}
use saiki.Store.Revision.{Revision, key}
use saiki.Store.Config.{ApiResource}
use saiki.Store.Storage.State.{StateOptions, StateMap}

-- the flags, by their types in viper; times in nanoseconds but for `at`
pub record StateFlags : Type 0 where
  pub at : ℤ
  pub ago : ℤ
  pub namespace : Str
  pub label_selector : Str
  pub with_content : Bool
  pub all_namespaces : Bool
  pub directory : Str
  pub output : Str
  pub only_content : Bool

-- The command ends before it asks the store: it has printed an error, or the process has exited.
-- Or it asks, with `showNamespaces` beside the options.
pub data StateCommand (U : Type 0) : Type 0 where
  printed : Str → StateCommand U
  fatal_exit : Str → StateCommand U
  asks : StateOptions U → Bool → StateCommand U

-- If both are given, only a message is printed, and `at` goes first.
unfoldable pub asked_time : Time → StateFlags → Time
asked_time now f =
    if ltb_ℤ (pos 0) f.at then unix f.at else if ltb_ℤ (pos 0) f.ago then now -ℤ f.ago else now

unfoldable pub asked_name : List Str → Str
asked_name (resource ∷ name ∷ args) = name
asked_name _ = []

unfoldable pub asked_namespace : StateFlags → Option (Str × ApiResource) → Str
asked_namespace f none = []
asked_namespace f (some m) = if m.1.namespaced then f.namespace else []

unfoldable pub show_namespaces : StateFlags → Option (Str × ApiResource) → Bool
unfolding asked_namespace
show_namespaces f none = false
show_namespaces f (some m) =
    m.1.namespaced && (f.all_namespaces || asked_namespace f (some m) == [])

unfoldable pub options_for :
    {U : Type 0}
    → Time
    → StateFlags
    → List Str
    → Option (Str × ApiResource)
    → Option (Result (U → Bool))
    → StateOptions U
unfolding asked_time asked_name asked_namespace
options_for now f args resource selector = record {
  api_version = elim resource [ none ↦ [] | some m ↦ m.0 ];
  kind = elim resource [ none ↦ [] | some m ↦ m.1.kind ];
  label_selector = selector;
  time = asked_time now f;
  namespace = asked_namespace f resource;
  all_namespaces = f.all_namespaces;
  name = asked_name args;
  all_revisions = false;
  only_deleted = false;
}

-- what the store's configuration knows of a word, and the parser of label selectors
module _ {U : Type 0} (mapping : Str → Result (Str × ApiResource))
    (parse_selector : Str → Result (Result (U → Bool))) (now : Time) where
  -- the first argument: nothing, or `all`, is every kind
  unfoldable pub asked_resource : List Str → Result (Option (Str × ApiResource))
  asked_resource [] = ok none
  asked_resource (resource ∷ args) =
      if resource == codes "all"
      then ok none
      else elim (mapping resource) [ err e ↦ err e | ok m ↦ ok (some m) ]

  with_selector : StateFlags → List Str → Option (Str × ApiResource) → StateCommand U
  unfolding options_for show_namespaces
  with_selector f args resource =
      if f.label_selector == []
      then asks (options_for now f args resource none) (show_namespaces f resource)
      else if not f.with_content
      then printed (codes "error: \"with-content\" must be specified with a label selector")
      else elim (parse_selector f.label_selector) [
        | err e ↦ fatal_exit (codes "parsing labelselector")
        | ok selector ↦
            asks (options_for now f args resource (some selector)) (show_namespaces f resource)
      ]

  -- the command up to its call of `State`
  unfoldable pub state_command : StateFlags → List Str → StateCommand U
  unfolding asked_resource with_selector
  state_command f args = elim (asked_resource args) [
    | err e ↦ printed (codes "error")
    | ok resource ↦ with_selector f args resource
  ]

-- where `--directory` puts the object of a revision
unfoldable pub state_file : {U : Type 0} → Str → Revision U → Str
state_file root rev =
    let path = join_path (root ∷ key rev.fields ∷ []) in
    trim_suffix path (ext (key rev.fields)) ++ codes ".yaml"

module _ {U : Type 0} (o : StateOptions U) (shows_namespaces : Bool) where
  abbrev cell : Bool → Str → List Str
  cell shown text = if shown then text ∷ [] else []

  -- the header of the table
  unfoldable pub columns : List Str
  columns =
      cell (o.api_version == []) (codes "APIVERSION")
      ++ (cell (o.kind == []) (codes "KIND")
          ++ (cell shows_namespaces (codes "NAMESPACE") ++ (codes "NAME" ∷ codes "AGE" ∷ [])))

  -- a line of the table; `age` stands for `duration.HumanDuration`
  unfoldable pub row : (Time → Str) → Revision U → List Str
  row age rev =
      cell (o.api_version == []) rev.api_version
      ++ (cell (o.kind == []) rev.kind
          ++ (cell shows_namespaces rev.namespace ++ (rev.name ∷ age rev.revision_timestamp ∷ [])))

  rows_of : (Time → Str) → List (Revision U) → List (List Str)
  rows_of age [] = []
  rows_of age (rev ∷ revs) = row age rev ∷ rows_of age revs

  unfoldable pub rows : (Time → Str) → StateMap U → List (List Str)
  unfolding rows_of
  rows age [] = []
  rows age ((rk, revs) ∷ state) = rows_of age revs ++ rows age state
