-- ===== src/Golang/FilePath/Extension.antt =====
-- `Ext` and `TrimSuffix` at the end of a file's name.
use saiki.Prelude.{
  ℕ, ◌≡◌, ◌≢◌, refl, sym, ap, ◌∙◌, [], ◌∷◌, ◌++◌, append_assoc, append-nil, arith, if◌then◌else◌,
  Str, ◌==◌, nat_eq, str_eq, str_beq_iff, All, length, length-append, codes, Bool-cases, inl, inr,
}
use saiki.Golang.Strings.{trim_suffix}
use saiki.Golang.FilePath.{slash, ext, ext_from}

abbrev pub InExtension : ℕ → Type 0
InExtension c = (c ≢ b'.') × (c ≢ slash)

snoc-ne-nil : (c : ℕ) (s : Str) → s ++ (c ∷ []) ≢ []
snoc-ne-nil c [] e = cc
snoc-ne-nil c (d ∷ s) e = cc

kept :
    (c : ℕ) (found : Str)
    → found ≢ []
    → InExtension c
    → (if c == slash
        then []
        else if c == b'.'
        then c ∷ []
        else if found == []
        then []
        else found ++ (c ∷ []))
      ≡ found ++ (c ∷ [])
kept c found ne h = ground (arith, h.0, h.1, ne, str_beq_iff found [])

longer : (c : ℕ) (s t : Str) → c ∷ (s ++ t) ≢ t
longer c s t e = absurd (omega (arith, ap length e, length-append s t))

ext_from_tail : (found t : Str) → found ≢ [] → All InExtension t → ext_from found t ≡ found ++ t
unfolding ext_from
ext_from_tail found [] ne h = sym (append-nil found)
ext_from_tail found (c ∷ t) ne h =
    ap (λ f. ext_from f t) (kept c found ne h.0)
    ∙ ext_from_tail (found ++ (c ∷ [])) t (snoc-ne-nil c found) h.1
    ∙ append_assoc found (c ∷ []) t

-- The extension of a name is what stands behind its last dot, with the dot.
ext_from-append :
    (s t found : Str) → All InExtension t → ext_from found (s ++ (b'.' ∷ t)) ≡ b'.' ∷ t
unfolding ext_from
ext_from-append [] t found h = ext_from_tail (codes ".") t (λ e. cc) h
ext_from-append (c ∷ s) t found h = ext_from-append s t _ h

pub ext-append : (s t : Str) → All InExtension t → ext (s ++ (b'.' ∷ t)) ≡ b'.' ∷ t
unfolding ext
ext-append s t h = ext_from-append s t [] h

pub trim_suffix-append : (s t : Str) → t ≢ [] → trim_suffix (s ++ t) t ≡ s
unfolding trim_suffix
trim_suffix-append [] [] ne = absurd (ne refl)
trim_suffix-append [] (c ∷ t) ne = ground (arith, str_beq_iff (c ∷ t) (c ∷ t))
trim_suffix-append (c ∷ s) t ne = elim (Bool-cases ((c ∷ (s ++ t)) == t)) [
  | inl y ↦ absurd (longer c s t ((str_beq_iff (c ∷ (s ++ t)) t).0 y))
  | inr n ↦ rw n (ap (λ r. c ∷ r) (trim_suffix-append s t ne))
]
