-- ===== src/Golang/FilePath/Plain.antt =====
-- Paths whose parts are plain names: `Clean` and `Join` only drop empty parts.
use mathlib.Core.List.{reverse, reverse-cons}
use saiki.Prelude.{
  ◌≡◌, ◌≢◌, sym, Bool, false, List, [], ◌∷◌, ◌++◌, append_assoc, append-nil, arith, Str, nat_eq,
  str_eq, str_beq_iff, All,
}
use saiki.Golang.Strings.{split, join, Lacks}
use saiki.Golang.FilePath.{slash, dot, dot_dot, clean_parts, is_rooted, clean}

-- A name that `Clean` keeps.
pub record IsPlain (p : Str) : Type 0 where
  pub not_empty : p ≢ []
  pub not_dot : p ≢ dot
  pub not_dot_dot : p ≢ dot_dot
  pub one_part : Lacks slash p

-- the parts that are not empty
abbrev pub nonempty : List Str → List Str
nonempty [] = []
nonempty ([] ∷ ps) = nonempty ps
nonempty ((c ∷ p) ∷ ps) = (c ∷ p) ∷ nonempty ps

-- A part of a path as `Clean` sees it: a plain name, or nothing.
abbrev pub IsPart : Str → Type 0
IsPart p = (p ≢ dot) × (p ≢ dot_dot)

pub clean_parts-nonempty :
    (rooted : Bool) (kept ps : List Str)
    → All IsPart ps
    → clean_parts rooted kept ps ≡ reverse kept ++ nonempty ps
unfolding clean_parts
clean_parts-nonempty rooted kept [] h = sym (append-nil (reverse kept))
clean_parts-nonempty rooted kept ([] ∷ ps) h = clean_parts-nonempty rooted kept ps h.1
clean_parts-nonempty rooted kept ((c ∷ p) ∷ ps) h = ground (
  arith,
  h.0.0,
  h.0.1,
  str_beq_iff (c ∷ p) dot,
  str_beq_iff (c ∷ p) dot_dot,
  clean_parts-nonempty rooted ((c ∷ p) ∷ kept) ps h.1,
  reverse-cons (c ∷ p) kept,
  append_assoc (reverse kept) ((c ∷ p) ∷ []) (nonempty ps),
)

-- A path that does not begin with a slash, with a part that is not empty, is cleaned to its parts.
pub clean_plain :
    (path : Str)
    → is_rooted path ≡ false
    → All IsPart (split slash path)
    → join slash (nonempty (split slash path)) ≢ []
    → clean path ≡ join slash (nonempty (split slash path))
unfolding clean
clean_plain path h parts ne = ground (
  arith,
  h,
  clean_parts-nonempty false [] (split slash path) parts,
  str_beq_iff (join slash (nonempty (split slash path))) [],
  ne,
)
