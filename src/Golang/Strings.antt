-- ===== src/Golang/Strings.antt =====
-- `strings`: Split, Join, HasSuffix, TrimPrefix and TrimSuffix, over byte strings.

use saiki.Prelude.{
  ℕ, ◌≡◌, ◌≢◌, refl, Bool, true, ◌||◌, List, [], ◌∷◌, ◌++◌, arith, if◌then◌else◌, Str, ◌==◌, nat_eq,
  str_eq, str_beq_iff, All,
}

abbrev pub Lacks : ℕ → Str → Type 0
Lacks b = All (λ c. c ≢ b)

abbrev cons_head : ℕ → List Str → List Str
cons_head c [] = (c ∷ []) ∷ []
cons_head c (p ∷ ps) = (c ∷ p) ∷ ps

unfoldable pub split : ℕ → Str → List Str
split sep [] = [] ∷ []
split sep (c ∷ s) = let rest = split sep s in if c == sep then [] ∷ rest else cons_head c rest

unfoldable pub join : ℕ → List Str → Str
join sep [] = []
join sep (p ∷ []) = p
join sep (p ∷ q ∷ ps) = p ++ (sep ∷ join sep (q ∷ ps))

unfoldable pub has_suffix : Str → Str → Bool
has_suffix [] t = [] == t
has_suffix (c ∷ s) t = (c ∷ s) == t || has_suffix s t

-- `strings.TrimPrefix(s, "/")`, for a prefix of one byte.
unfoldable pub trim_prefix : ℕ → Str → Str
trim_prefix b [] = []
trim_prefix b (c ∷ s) = if c == b then s else c ∷ s

-- `strings.TrimSuffix`
unfoldable pub trim_suffix : Str → Str → Str
trim_suffix [] t = []
trim_suffix (c ∷ s) t = if (c ∷ s) == t then [] else c ∷ trim_suffix s t

pub split-Lacks : (sep : ℕ) (p : Str) → Lacks sep p → split sep p ≡ p ∷ []
unfolding split
split-Lacks sep [] h = refl
split-Lacks sep (c ∷ p) h = ground (arith, split-Lacks sep p h.1)

pub split_at :
    (sep : ℕ) (p rest : Str) → Lacks sep p → split sep (p ++ (sep ∷ rest)) ≡ p ∷ split sep rest
unfolding split
split_at sep [] rest h = ground arith
split_at sep (c ∷ p) rest h = ground (arith, split_at sep p rest h.1)

cons_head-append :
    (c : ℕ) (ps qs : List Str) → ps ≢ [] → cons_head c (ps ++ qs) ≡ cons_head c ps ++ qs
cons_head-append c [] qs h = absurd (h refl)
cons_head-append c (p ∷ ps) qs h = refl

split-ne-nil : (sep : ℕ) (s : Str) → split sep s ≢ []
unfolding split
split-ne-nil sep [] = ground arith
split-ne-nil sep (c ∷ s) = ground arith

-- The parts of a text with a separator in it are those before it and those behind it.
pub split-append :
    (sep : ℕ) (p rest : Str) → split sep (p ++ (sep ∷ rest)) ≡ split sep p ++ split sep rest
unfolding split
split-append sep [] rest = ground arith
split-append sep (c ∷ p) rest = ground (
  arith,
  split-append sep p rest,
  cons_head-append c (split sep p) (split sep rest),
  split-ne-nil sep p,
)

pub has_suffix-append : (s t : Str) → has_suffix (s ++ t) t ≡ true
unfolding has_suffix
has_suffix-append [] [] = refl
has_suffix-append [] (c ∷ t) = ground (arith, str_beq_iff (c ∷ t) (c ∷ t))
has_suffix-append (c ∷ s) t = ground (arith, has_suffix-append s t)

joined_head :
    (sep c : ℕ) (p : Str) (ps : List Str) → join sep ((c ∷ p) ∷ ps) ≡ c ∷ join sep (p ∷ ps)
unfolding join
joined_head sep c p [] = refl
joined_head sep c p (q ∷ ps) = refl

-- The parts of a text, joined again, are the text.
pub join-split : (sep : ℕ) (s : Str) → join sep (split sep s) ≡ s
unfolding join split
join-split sep [] = refl
join-split sep (c ∷ s) = go (split sep s) (split-ne-nil sep s) (join-split sep s)
  where
    go :
        (r : List Str)
        → r ≢ []
        → join sep r ≡ s
        → join sep (if c == sep then [] ∷ r else cons_head c r) ≡ c ∷ s
    go [] ne e = absurd (ne refl)
    go (p ∷ ps) ne e = ground (arith, e, joined_head sep c p ps)
