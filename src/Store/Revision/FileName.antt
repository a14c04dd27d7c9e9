-- ===== src/Store/Revision/FileName.antt =====
-- The name of a revision's file read back: its numbers and its suffix.
use saiki.Prelude.{
  ℕ, ◌<◌, ◌^◌, ◌≡◌, ◌≢◌, refl, ap, ◌∙◌, inl, inr, Bool, true, false, [], ◌∷◌, ◌++◌, append_assoc,
  arith, Str, codes, str_eq, All, All-append, Bool-cases,
}
use saiki.Prelude.Int.{pos}
use saiki.Golang.Strings.{split, Lacks, split-Lacks, split_at, has_suffix, has_suffix-append}
use saiki.Golang.Strconv.{itoa}
use saiki.Golang.Strconv.RoundTrip.{IsDigit, itoa-IsDigit, itoa-ne-nil, atoi-itoa}
use saiki.Golang.FilePath.{slash}
use saiki.Golang.FilePath.Plain.{IsPlain}
use saiki.Golang.Time.{unix, to_unix}
use saiki.Errors.{ok}
use saiki.Store.Revision.{
  RevisionFields, revision_key, parse_file, parse_parts, checked, first_part,
}

IsDigit-Lacks : (b : ℕ) (s : Str) → b < b'0' → All IsDigit s → Lacks b s
IsDigit-Lacks b [] h d = tt
IsDigit-Lacks b (c ∷ s) h d = ((λ e. omega arith), IsDigit-Lacks b s h d.1)

first_part_digits :
    (t tail : Str) → All IsDigit t → first_part (split b'.' (t ++ (b'.' ∷ tail))) ≡ t
unfolding first_part
first_part_digits t tail h = rw (split_at b'.' t tail (IsDigit-Lacks b'.' t (omega arith) h))

-- what stands behind the first dash has no dash
suffix-Lacks : (t tail : Str) → All IsDigit t → Lacks b'-' tail → Lacks b'-' (t ++ (b'.' ∷ tail))
suffix-Lacks t tail h l =
    All-append (λ c. c ≢ b'-') t (b'.' ∷ tail) (IsDigit-Lacks b'-' t (omega arith) h)
      ((λ e. omega arith), l)

parse_file_lem :
    (n s : ℕ) (tail : Str)
    → n < 2 ^ 63
    → s < 2 ^ 63
    → Lacks b'-' tail
    → parse_file ((itoa (pos n) ++ (b'-' ∷ itoa (pos s))) ++ (b'.' ∷ tail))
      ≡ ok (pos n, unix (pos s), has_suffix (itoa (pos s) ++ (b'.' ∷ tail)) (codes "deleted"))
unfolding parse_file parse_parts checked
parse_file_lem n s tail hn hs l =
    let a = itoa (pos n) in
    let t = itoa (pos s) in
    rw (append_assoc a (b'-' ∷ t) (b'.' ∷ tail)) (
      rw
        (split_at b'-' a (t ++ (b'.' ∷ tail)) (IsDigit-Lacks b'-' a (omega arith) (itoa-IsDigit n)))
        (rw (split-Lacks b'-' (t ++ (b'.' ∷ tail)) (suffix-Lacks t tail (itoa-IsDigit s) l))
          (rw (first_part_digits t tail (itoa-IsDigit s), atoi-itoa s hs, atoi-itoa n hn) refl)))

deleted_suffix : (t : Str) → has_suffix (t ++ codes ".json.deleted") (codes "deleted") ≡ true
deleted_suffix t =
    rw (← append_assoc t (codes ".json.") (codes "deleted"))
      (has_suffix-append (t ++ codes ".json.") (codes "deleted"))

live_suffix : (t : Str) → All IsDigit t → has_suffix (t ++ codes ".json") (codes "deleted") ≡ false
unfolding has_suffix
live_suffix [] h = refl
live_suffix (c ∷ t) h = ground (arith, live_suffix t h.1)

pub parse_file-revision_key :
    (r : RevisionFields) (n s : ℕ)
    → r.resource_version ≡ pos n
    → n < 2 ^ 63
    → to_unix r.revision_timestamp ≡ pos s
    → s < 2 ^ 63
    → parse_file (revision_key r)
      ≡ ok (r.resource_version, unix (to_unix r.revision_timestamp), r.deleted)
unfolding revision_key
parse_file-revision_key r n s en hn es hs = elim (Bool-cases r.deleted) [
  | inl d ↦
      rw (d, en, es)
        (parse_file_lem n s (codes "json.deleted") hn hs (omega arith)
          ∙ ap (λ (b : Bool). ok (pos n, unix (pos s), b)) (deleted_suffix (itoa (pos s))))
  | inr d ↦
      rw (d, en, es)
        (parse_file_lem n s (codes "json") hn hs (omega arith)
          ∙ ap (λ (b : Bool). ok (pos n, unix (pos s), b))
              (live_suffix (itoa (pos s)) (itoa-IsDigit s)))
]

digits_front-IsPlain :
    (a rest : Str) → a ≢ [] → All IsDigit a → Lacks slash rest → IsPlain (a ++ rest)
digits_front-IsPlain [] rest ne h l = absurd (ne refl)
digits_front-IsPlain (c ∷ a) rest ne h l = record {
  not_empty = λ e. cc;
  not_dot = λ e. ground (arith, h.0);
  not_dot_dot = λ e. ground (arith, h.0);
  one_part =
      All-append (λ c. c ≢ slash) (c ∷ a) rest (IsDigit-Lacks slash (c ∷ a) (omega arith) h) l;
}

pub revision_key-IsPlain :
    (r : RevisionFields) (n s : ℕ)
    → r.resource_version ≡ pos n
    → to_unix r.revision_timestamp ≡ pos s
    → IsPlain (revision_key r)
unfolding revision_key
revision_key-IsPlain r n s en es =
    let a = itoa (pos n) in
    let t = itoa (pos s) in
    let stem-Lacks : Lacks slash t = IsDigit-Lacks slash t (omega arith) (itoa-IsDigit s) in
    let plain : (tail : Str) → Lacks slash tail → IsPlain ((a ++ (b'-' ∷ t)) ++ tail) = λ tail l.
      rw (append_assoc a (b'-' ∷ t) tail) (
        digits_front-IsPlain a ((b'-' ∷ t) ++ tail) (itoa-ne-nil n) (itoa-IsDigit n)
          ((λ e. omega arith), All-append (λ c. c ≢ slash) t tail stem-Lacks l)) in
    elim (Bool-cases r.deleted) [
      | inl d ↦ rw (d, en, es) (plain (codes ".json.deleted") (omega arith))
      | inr d ↦ rw (d, en, es) (plain (codes ".json") (omega arith))
    ]
