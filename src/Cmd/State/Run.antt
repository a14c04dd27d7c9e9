-- ===== src/Cmd/State/Run.antt =====
-- The subcommand `state` of cmd/state.go from its flags to what it prints or writes.
pub mod Exported
use saiki.Prelude.{
  Bool, not, ◌||◌, List, [], ◌∷◌, Option, none, some, if◌then◌else◌, Str, ◌==◌, str_eq, codes,
}
use saiki.Golang.Time.{Time}
use saiki.Errors.{Error, Result, ok, err}
use saiki.Store.Revision.{Revision, ObjectMeta}
use saiki.Store.Config.{ApiResource}
use saiki.Store.Storage.State.{StateOptions, StateMap}
use saiki.Store.Storer.{Storer}
use saiki.Store.Marshal.{Json, state_with_content, state_only_content}
use saiki.Cmd.State.{
  StateFlags, StateCommand, printed, fatal_exit, asks, state_command, columns, rows,
}
use saiki.Cmd.State.Export.{ExportLibrary, Export, exited, written, write_state}

-- The store and its configuration, the clock, and the libraries: `marshal_state` is `json.MarshalIndent`
-- of a state, `age` is `duration.HumanDuration`, and `ranged` is the order in which a map is visited.
pub record StateParts (U S F : Type 0) : Type 0 where
  pub storer : Storer U S
  pub mapping : Str → Result (Str × ApiResource)
  pub parse_selector : Str → Result (Result (U → Bool))
  pub now : Time
  pub files : ExportLibrary U F
  pub json : Json U
  pub meta : ObjectMeta U
  pub marshal_state : StateMap U → Result Str
  pub age : Time → Str
  pub ranged : StateMap U → StateMap U

-- A message and the end of the command, a message and the exit of the process, the exit after
-- the files are written, or a text or a table; with the store and the file system.
pub data StateRun (S F : Type 0) : Type 0 where
  message fatal : Str → S → F → StateRun S F
  exported : S → F → StateRun S F
  text : Str → S → F → StateRun S F
  table : List Str → List (List Str) → S → F → StateRun S F

module _ {U S F : Type 0} (w : StateParts U S F) where
  -- the JSON of the state
  marshalled : StateFlags → StateMap U → S → Result Str × S
  marshalled f st s =
      if f.with_content
      then state_with_content w.json w.storer w.meta w.now [] (codes "  ") (w.ranged st) s
      else if f.only_content
      then state_only_content w.json w.storer w.meta w.now [] (codes "  ") (w.ranged st) s
      else (w.marshal_state st, s)

  print_yaml : Result Str → S → F → StateRun S F
  print_yaml (err e) s d = fatal (codes "marshalling state") s d
  print_yaml (ok b) s d = text b s d

  print_text : StateFlags → Result Str × S → F → StateRun S F
  unfolding print_yaml
  print_text f (err e, s) d = fatal (codes "marshalling state") s d
  print_text f (ok b, s) d =
      if f.output == codes "yaml" then print_yaml (w.files.json_to_yaml b) s d else text b s d

  exported_by : Export S F → StateRun S F
  exported_by (exited m s d) = fatal m s d
  exported_by (written s d) = exported s d

  -- the three ways to show a state
  show : StateFlags → StateOptions U → Bool → StateMap U → S → F → StateRun S F
  unfolding marshalled print_text exported_by
  show f o shows st s d =
      if not (f.directory == [])
      then exported_by (write_state w.files w.storer.content_in f.directory (w.ranged st) s d)
      else if f.output == codes "json" || f.output == codes "yaml"
      then print_text f (marshalled f st s) d
      else table (columns o shows) (rows o shows w.age (w.ranged st)) s d

  with_state :
      StateFlags → StateOptions U → Bool → (StateMap U × S) × Option Error → F → StateRun S F
  unfolding show
  with_state f o shows ((st, s), some e) d = fatal (codes "state get") s d
  with_state f o shows ((st, s), none) d = show f o shows st s d

  run_asked : StateFlags → StateCommand U → S → F → StateRun S F
  unfolding with_state
  run_asked f (printed m) s d = message m s d
  run_asked f (fatal_exit m) s d = fatal m s d
  run_asked f (asks o shows) s d = with_state f o shows (w.storer.state_in o s) d

  -- the body of the command, from the options on
  unfoldable pub state_run : StateFlags → List Str → S → F → StateRun S F
  unfolding run_asked
  state_run f args s d = run_asked f (state_command w.mapping w.parse_selector w.now f args) s d
