-- ===== src/Golang/FilePath.antt =====
-- `path/filepath` on Unix: Clean, Join, Dir, Base and Ext, over byte strings.
pub mod Plain
pub mod Under
pub mod Extension
use mathlib.Core.List.{reverse}
use saiki.Prelude.{
  ℕ, ◌≡◌, ◌≢◌, refl, Bool, true, false, List, [], ◌∷◌, ◌++◌, append_assoc, arith, if◌then◌else◌,
  Str, ◌==◌, nat_eq, str_eq, codes, All,
}
use saiki.Golang.Strings.{split, join, Lacks}

abbrev pub slash : ℕ
slash = b'/'

abbrev dot : Str
dot = codes "."

abbrev dot_dot : Str
dot_dot = codes ".."

-- `..` takes back the last part, unless there is none or it is a `..` itself.
back : Bool → List Str → List Str
back true [] = []
back false [] = dot_dot ∷ []
back rooted (top ∷ rest) = if top == dot_dot then dot_dot ∷ top ∷ rest else rest

-- The parts kept so far stand in `kept`, the last one first.
pub clean_parts : Bool → List Str → List Str → List Str
unfolding back
clean_parts rooted kept [] = reverse kept
clean_parts rooted kept (p ∷ ps) =
    clean_parts rooted
      (if p == []
        then kept
        else if p == dot
        then kept
        else if p == dot_dot
        then back rooted kept
        else p ∷ kept)
      ps

unfoldable pub is_rooted : Str → Bool
is_rooted [] = false
is_rooted (c ∷ s) = c == slash

unfoldable pub clean : Str → Str
unfolding clean_parts is_rooted
clean path =
    let body = join slash (clean_parts (is_rooted path) [] (split slash path)) in
    if is_rooted path then slash ∷ body else if body == [] then dot else body

-- `Join` leaves out the empty elements at its front, and cleans the rest joined.
unfoldable pub join_path : List Str → Str
join_path [] = []
join_path ([] ∷ es) = join_path es
join_path ((c ∷ e) ∷ es) = clean (join slash ((c ∷ e) ∷ es))

-- everything up to the last slash, and what is behind it
last_slash : Str → Str → Str → Str × Str
last_slash before rest [] = (before, rest)
last_slash before rest (c ∷ s) =
    let is_slash = c == slash in
    let rest' = rest ++ (c ∷ []) in
    last_slash (if is_slash then before ++ rest' else before) (if is_slash then [] else rest') s

-- `Dir`
unfoldable pub dir : Str → Str
unfolding last_slash
dir path = clean (last_slash [] [] path).0

-- `Base` of a path that does not end in a slash: what stands behind the last one.
unfoldable pub base : Str → Str
unfolding last_slash
base path = if path == [] then dot else (last_slash [] [] path).1

-- `Ext`: what stands in the last part from its last dot on
ext_from : Str → Str → Str
ext_from found [] = found
ext_from found (c ∷ s) =
    ext_from
      (if c == slash
        then []
        else if c == b'.'
        then c ∷ []
        else if found == []
        then []
        else found ++ (c ∷ []))
      s

unfoldable pub ext : Str → Str
unfolding ext_from
ext path = ext_from [] path
