-- ===== src/Store/Marshal.antt =====
-- pkg/store/state.go and `MarshalJSONWithContent` of pkg/store/revision.go: the text of a state together
-- with the objects that its revisions stand for. The JSON library is a parameter.
pub mod Joined
use saiki.Prelude.{
  ℕ, zero, suc, Bool, List, [], ◌∷◌, ◌++◌, Option, none, some, if◌then◌else◌, Str, codes, ltb,
}
use saiki.Golang.Time.{Time}
use saiki.Errors.{Error, Result, ok, err}
use saiki.Store.Revision.{Revision, ObjectMeta, revision_from}
use saiki.Store.Storer.{Storer}
use saiki.Store.Storage.State.{StateMap}

-- `json.MarshalIndent` of a revision and of an object, by prefix and indent, and `%q`
pub record Json (U : Type 0) : Type 0 where
  pub marshal_revision : Str → Str → Revision U → Result Str
  pub marshal_object : Str → Str → U → Result Str
  pub quoted : Str → Str

-- The loops: `i` counts the rounds, and the separator stands before each round's text but the first's.
-- An error ends the loop without a text.
module _ {A S : Type 0} (separator : ℕ) (piece : A → S → Result Str × S) where
  unfoldable pub write_each : ℕ → Str → List A → S → Result Str × S
  write_each i out [] s = (ok out, s)
  write_each i out (a ∷ rest) s =
      let separated = if ltb 0 i then out ++ (separator ∷ []) else out in
      let (b, s') = piece a s in
      elim b [ err e ↦ (err e, s') | ok text ↦ write_each (suc i) (separated ++ text) rest s' ]

-- the text that closes a list or a map
unfoldable pub closed : {S : Type 0} → Str → ℕ → Result Str × S → Result Str × S
closed prefix bracket (err e, s) = (err e, s)
closed prefix bracket (ok out, s) = (ok (out ++ (b'\n' ∷ prefix ++ (bracket ∷ []))), s)

abbrev pub on_new_line : Str → Str → Str → Str
on_new_line prefix indent text = b'\n' ∷ prefix ++ (indent ++ text)

unfoldable pub revisions_of : {U : Type 0} → StateMap U → List (Revision U)
revisions_of [] = []
revisions_of ((rk, revs) ∷ state) = revs ++ revisions_of state

module _ {U S : Type 0} (json : Json U) (storer : Storer U S) (meta : ObjectMeta U)
    (now : Time) where
  -- The object is read, and marshaled as a revision that is made of it anew.
  unfoldable pub revision_text : Str → Str → Revision U → S → Result Str × S
  revision_text prefix indent rev s =
      let (content, s') = storer.content_in rev s in
      elim content [
        | err e ↦ (err e, s')
        | ok u ↦ elim (json.marshal_revision (prefix ++ indent) indent (revision_from meta now u)) [
          | err e ↦ (err e, s')
          | ok b ↦ (ok (on_new_line prefix indent b), s')
        ]
      ]

  -- `RevisionList.MarshalJSONWithContent`
  unfoldable pub list_with_content : Str → Str → List (Revision U) → S → Result Str × S
  list_with_content prefix indent revs s =
      closed prefix b']'
        (write_each b',' (revision_text prefix indent) 0 (prefix ++ (b'[' ∷ [])) revs s)

  unfoldable pub entry_text : Str → Str → Str × List (Revision U) → S → Result Str × S
  entry_text prefix indent (rk, revs) s =
      let (b, s') = list_with_content (prefix ++ indent) indent revs s in
      elim b [
        | err e ↦ (err e, s')
        | ok text ↦ (ok (on_new_line prefix indent (json.quoted rk ++ (codes ": " ++ text))), s')
      ]

  -- `State.MarshalJSONWithContent`
  unfoldable pub state_with_content : Str → Str → StateMap U → S → Result Str × S
  state_with_content prefix indent state s =
      closed prefix b'}'
        (write_each b',' (entry_text prefix indent) 0 (prefix ++ (b'{' ∷ [])) state s)

  unfoldable pub object_text : Str → Str → Revision U → S → Result Str × S
  object_text prefix indent rev s =
      let (content, s') = storer.content_in rev s in
      elim content [ err e ↦ (err e, s') | ok u ↦ (json.marshal_object prefix indent u, s') ]

  -- `State.MarshalJSONOnlyContent`: both loops count on together.
  unfoldable pub state_only_content : Str → Str → StateMap U → S → Result Str × S
  state_only_content prefix indent state s =
      write_each b'\n' (object_text prefix indent) 0 [] (revisions_of state) s
