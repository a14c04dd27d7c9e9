-- ===== src/Golang/FilePath/Under.antt =====
-- `Join` of a root and a path of plain names: what stands before the path depends on the root alone.
use mathlib.Core.List.{reverse}
use saiki.Prelude.{
  ◌≡◌, ◌≢◌, refl, sym, ap, ◌∙◌, Bool, true, false, ℕ, List, [], ◌∷◌, ◌++◌, append_assoc, arith,
  if◌then◌else◌, Str, ◌==◌, nat_eq, str_eq, str_beq_iff, All,
}
use saiki.Golang.Strings.{split, join, split-append, join-split}
use saiki.Golang.FilePath.{slash, dot, dot_dot, clean_parts, back, is_rooted, clean, join_path}
use saiki.Golang.FilePath.Plain.{IsPlain, IsPart, nonempty, clean_parts-nonempty}

nonempty-IsPlain : (ps : List Str) → All IsPlain ps → nonempty ps ≡ ps
nonempty-IsPlain [] h = refl
nonempty-IsPlain ([] ∷ ps) h = absurd (h.0.not_empty refl)
nonempty-IsPlain ((c ∷ p) ∷ ps) h = ap (λ r. (c ∷ p) ∷ r) (nonempty-IsPlain ps h.1)

IsPlain-IsPart : (ps : List Str) → All IsPlain ps → All IsPart ps
IsPlain-IsPart [] h = tt
IsPlain-IsPart (p ∷ ps) h = ((h.0.not_dot, h.0.not_dot_dot), IsPlain-IsPart ps h.1)

clean_parts-append :
    (rooted : Bool) (kept ps qs : List Str)
    → All IsPlain qs
    → clean_parts rooted kept (ps ++ qs) ≡ clean_parts rooted kept ps ++ qs
unfolding clean_parts
clean_parts-append rooted kept [] qs h =
    clean_parts-nonempty rooted kept qs (IsPlain-IsPart qs h)
    ∙ ap (λ r. reverse kept ++ r) (nonempty-IsPlain qs h)
clean_parts-append rooted kept (p ∷ ps) qs h =
    clean_parts-append rooted
      (if p == []
        then kept
        else if p == dot
        then kept
        else if p == dot_dot
        then back rooted kept
        else p ∷ kept)
      ps qs h

-- some parts, with a slash behind each
pub slashed : List Str → Str
slashed [] = []
slashed (p ∷ ps) = p ++ (slash ∷ slashed ps)

pub join-slashed :
    (ps : List Str) (q : Str) (qs : List Str)
    → join slash (ps ++ (q ∷ qs)) ≡ slashed ps ++ join slash (q ∷ qs)
unfolding join slashed
join-slashed [] q qs = refl
join-slashed (p ∷ []) q qs = simp append_assoc
join-slashed (p ∷ p' ∷ ps) q qs =
    ap (λ r. p ++ (slash ∷ r)) (join-slashed (p' ∷ ps) q qs)
    ∙ sym (append_assoc p (slash ∷ slashed (p' ∷ ps)) (join slash (q ∷ qs)))

-- what stands before the path
pub before : Str → Str
unfolding slashed
before root =
    let kept = slashed (clean_parts (is_rooted root) [] (split slash root)) in
    if is_rooted root then slash ∷ kept else kept

path-ne-nil : (path q : Str) (qs : List Str) → split slash path ≡ q ∷ qs → IsPlain q → path ≢ []
unfolding split
path-ne-nil [] q qs e h n = h.not_empty (cc)
path-ne-nil (c ∷ path) q qs e h n = cc

pieced : Bool → Str → Str
pieced true body = slash ∷ body
pieced false body = if body == [] then dot else body

clean-pieced :
    (path : Str)
    → clean path
      ≡ pieced (is_rooted path) (join slash (clean_parts (is_rooted path) [] (split slash path)))
unfolding clean pieced
clean-pieced path =
    go (is_rooted path) (join slash (clean_parts (is_rooted path) [] (split slash path)))
  where
    go :
        (b : Bool) (body : Str)
        → (if b then slash ∷ body else if body == [] then dot else body) ≡ pieced b body
    go true body = refl
    go false body = refl

append-ne-nil : (s t : Str) → t ≢ [] → s ++ t ≢ []
append-ne-nil [] t ne e = ne e
append-ne-nil (c ∷ s) t ne e = cc

pieced-append :
    (b : Bool) (s t : Str) → t ≢ [] → pieced b (s ++ t) ≡ (if b then slash ∷ s else s) ++ t
unfolding pieced
pieced-append true s t ne = refl
pieced-append false s t ne = ground (arith, str_beq_iff (s ++ t) [], append-ne-nil s t ne)

is_rooted-cons : (c : ℕ) (s t : Str) → is_rooted (c ∷ (s ++ t)) ≡ is_rooted (c ∷ s)
unfolding is_rooted
is_rooted-cons c s t = refl

-- A path of plain names is joined to a root by what the root alone makes of it.
pub join_path-before :
    (root path : Str) (q : Str) (qs : List Str)
    → root ≢ []
    → split slash path ≡ q ∷ qs
    → All IsPlain (q ∷ qs)
    → join_path (root ∷ path ∷ []) ≡ before root ++ path
unfolding join_path join before
join_path-before [] path q qs ne e h = absurd (ne refl)
join_path-before (c ∷ root) path q qs ne e h =
    let whole = (c ∷ root) ++ (slash ∷ path) in
    let b = is_rooted (c ∷ root) in
    let kept = clean_parts b [] (split slash (c ∷ root)) in
    let parts : clean_parts b [] (split slash whole) ≡ kept ++ (q ∷ qs) =
      ap (clean_parts b []) (split-append slash (c ∷ root) path)
      ∙ ap (λ r. clean_parts b [] (split slash (c ∷ root) ++ r)) e
      ∙ clean_parts-append b [] (split slash (c ∷ root)) (q ∷ qs) h in
    clean-pieced whole
    ∙ ap (λ r. pieced r (join slash (clean_parts r [] (split slash whole))))
        (is_rooted-cons c root (slash ∷ path))
    ∙ ap (λ r. pieced b (join slash r)) parts
    ∙ ap (pieced b) (join-slashed kept q qs)
    ∙ ap (λ r. pieced b (slashed kept ++ r)) (ap (join slash) (sym e) ∙ join-split slash path)
    ∙ pieced-append b (slashed kept) path (path-ne-nil path q qs e h.0)
