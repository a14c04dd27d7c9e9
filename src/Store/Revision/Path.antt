-- ===== src/Store/Revision/Path.antt =====
-- The parts that a path spells, through `Join`.

use saiki.Prelude.{
  ◌≡◌, ◌≢◌, refl, ap, ◌∙◌, false, List, [], ◌∷◌, ◌++◌, append_assoc, arith, Str, All, All-append,
}
use saiki.Golang.Strings.{split, join, split-append, split-Lacks, split_at}
use saiki.Golang.FilePath.{slash, is_rooted, join_path}
use saiki.Golang.FilePath.Plain.{IsPlain, IsPart, nonempty, clean_plain}

-- `path` has the parts `ps`, and perhaps empty ones between them.
pub record Spells (path : Str) (ps : List Str) : Type 0 where
  pub splits : nonempty (split slash path) ≡ ps
  pub parts : All IsPart (split slash path)

pub Spells-nil : Spells [] []
unfolding split
Spells-nil = record { splits = refl; parts = (((λ e. cc), (λ e. cc)), tt) }

pub Spells-plain : (p : Str) → IsPlain p → Spells p (p ∷ [])
Spells-plain [] h = absurd (h.not_empty refl)
Spells-plain (c ∷ p) h = record {
  splits = ap nonempty (split-Lacks slash (c ∷ p) h.one_part);
  parts = rw (split-Lacks slash (c ∷ p) h.one_part) (((h.not_dot, h.not_dot_dot), tt));
}

nonempty-append : (ps qs : List Str) → nonempty (ps ++ qs) ≡ nonempty ps ++ nonempty qs
nonempty-append [] qs = refl
nonempty-append ([] ∷ ps) qs = nonempty-append ps qs
nonempty-append ((c ∷ p) ∷ ps) qs = ap (λ r. (c ∷ p) ∷ r) (nonempty-append ps qs)

pub Spells-append :
    (p q : Str) (ps qs : List Str)
    → Spells p ps
    → Spells q qs
    → Spells (p ++ (slash ∷ q)) (ps ++ qs)
Spells-append p q ps qs hp hq = record {
  splits =
      ap nonempty (split-append slash p q)
      ∙ nonempty-append (split slash p) (split slash q)
      ∙ cc (hp.splits, hq.splits);
  parts =
      rw (split-append slash p q)
        (All-append IsPart (split slash p) (split slash q) hp.parts hq.parts);
}

pub Spells-join :
    (p : Str) (ps : List Str) → IsPlain p → All IsPlain ps → Spells (join slash (p ∷ ps)) (p ∷ ps)
unfolding join
Spells-join p [] hp h = Spells-plain p hp
Spells-join p (q ∷ ps) hp h =
    Spells-append p (join slash (q ∷ ps)) (p ∷ []) (q ∷ ps) (Spells-plain p hp)
      (Spells-join q ps h.0 h.1)

is_rooted-append : (p q : Str) → IsPlain p → is_rooted (p ++ q) ≡ false
unfolding is_rooted
is_rooted-append [] q h = absurd (h.not_empty refl)
is_rooted-append (c ∷ p) q h = ground (arith, h.one_part.0)

is_rooted-join :
    (p q : Str) (es : List Str) → IsPlain p → is_rooted (join slash ((p ++ q) ∷ es)) ≡ false
unfolding join
is_rooted-join p q [] hp = is_rooted-append p q hp
is_rooted-join p q (e ∷ es) hp =
    rw (append_assoc p q (slash ∷ join slash (e ∷ es)))
      (is_rooted-append p (q ++ (slash ∷ join slash (e ∷ es))) hp)

-- `Join` of two elements or more, the first of which spells a plain name first.
pub join_path-Spells :
    (p q : Str) (es : List Str) (ps : List Str)
    → IsPlain p
    → Spells (join slash ((p ++ q) ∷ es)) ps
    → join slash ps ≢ []
    → join_path ((p ++ q) ∷ es) ≡ join slash ps
unfolding join_path
join_path-Spells [] q es ps hp h ne = absurd (hp.not_empty refl)
join_path-Spells (c ∷ p) q es ps hp h ne =
    let path = join slash (((c ∷ p) ++ q) ∷ es) in
    clean_plain path (is_rooted-join (c ∷ p) q es hp) h.parts (rw h.splits ne)
    ∙ ap (join slash) h.splits

pub split-join :
    (p : Str) (ps : List Str)
    → IsPlain p
    → All IsPlain ps
    → split slash (join slash (p ∷ ps)) ≡ p ∷ ps
unfolding join
split-join p [] hp h = split-Lacks slash p hp.one_part
split-join p (q ∷ ps) hp h =
    split_at slash p (join slash (q ∷ ps)) hp.one_part ∙ ap (λ r. p ∷ r) (split-join q ps h.0 h.1)

pub join-ne-nil : (p : Str) (ps : List Str) → IsPlain p → join slash (p ∷ ps) ≢ []
unfolding join
join-ne-nil [] ps h = absurd (h.not_empty refl)
join-ne-nil (c ∷ p) [] h = λ e. cc
join-ne-nil (c ∷ p) (q ∷ ps) h = λ e. cc
