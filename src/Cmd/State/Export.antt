-- ===== src/Cmd/State/Export.antt =====
-- How the subcommand `state` of cmd/state.go writes the objects of a state under a directory.

pub mod Written
pub mod Complete
pub mod Distinct
use saiki.Prelude.{List, [], ◌∷◌, Option, none, some, Str, codes}
use saiki.Golang.FilePath.{join_path}
use saiki.Errors.{Error, Result, ok, err}
use saiki.Store.Revision.{Revision}
use saiki.Store.Storage.State.{StateMap}
use saiki.Cmd.State.{state_file}

-- the calls of package os, over the states of the file system, and those of the encoders
pub record ExportLibrary (U F : Type 0) : Type 0 where
  pub mkdir_all : Str → F → Option Error × F
  pub write_file : Str → Str → F → Option Error × F
  pub marshal_json : U → Result Str
  pub json_to_yaml : Str → Result Str

-- The process exits with a message, or everything was written; with the store and the file system.
pub data Export (S F : Type 0) : Type 0 where
  exited : Str → S → F → Export S F
  written : S → F → Export S F

module _ {U S F : Type 0} (lib : ExportLibrary U F) (content_in : Revision U → S → Result U × S)
    (root : Str) where
  put_file : Option Error × F → S → Export S F
  put_file (some x, f) s = exited (codes "writing revision") s f
  put_file (none, f) s = written s f

  put_yaml : Revision U → Result Str → S → F → Export S F
  unfolding put_file
  put_yaml rev (err x) s f = exited (codes "marshalling yaml") s f
  put_yaml rev (ok bytes) s f = put_file (lib.write_file (state_file root rev) bytes f) s

  put_json : Revision U → Result Str → S → F → Export S F
  unfolding put_yaml
  put_json rev (err x) s f = exited (codes "marshalling state") s f
  put_json rev (ok json) s f = put_yaml rev (lib.json_to_yaml json) s f

  put_content : Revision U → Result U × S → F → Export S F
  unfolding put_json
  put_content rev (err x, s) f = exited (codes "getting rev contents") s f
  put_content rev (ok u, s) f = put_json rev (lib.marshal_json u) s f

  -- one revision
  unfoldable pub write_revision : Revision U → S → F → Export S F
  unfolding put_content
  write_revision rev s f = put_content rev (content_in rev s) f

  -- the revisions of a resource
  unfoldable pub write_revisions : List (Revision U) → S → F → Export S F
  unfolding write_revision
  write_revisions [] s f = written s f
  write_revisions (rev ∷ revs) s f = elim (write_revision rev s f) [
    | exited m s' f' ↦ exited m s' f'
    | written s' f' ↦ write_revisions revs s' f'
  ]

  in_directory : Option Error × F → List (Revision U) → S → Export S F
  unfolding write_revisions
  in_directory (some x, f) revs s = exited (codes "creating rev directory") s f
  in_directory (none, f) revs s = write_revisions revs s f

  -- the branch for `--directory`
  unfoldable pub write_state : StateMap U → S → F → Export S F
  unfolding in_directory
  write_state [] s f = written s f
  write_state ((rk, revs) ∷ state) s f =
      elim (in_directory (lib.mkdir_all (join_path (root ∷ rk ∷ [])) f) revs s) [
        | exited m s' f' ↦ exited m s' f'
        | written s' f' ↦ write_state state s' f'
      ]
