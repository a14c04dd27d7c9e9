-- ===== src/Util.antt =====
-- pkg/util/sliceutil/sliceutil.go
use saiki.Prelude.{
  ◌≡◌, Bool, true, false, List, [], ◌∷◌, arith, if◌then◌else◌, Str, ◌==◌, str_eq, str_beq_iff, In,
  here, there, Bool-cases, inl, inr,
}

-- `In(haystack, needle)`
unfoldable pub slice_in : List Str → Str → Bool
slice_in [] needle = false
slice_in (s ∷ haystack) needle = if needle == s then true else slice_in haystack needle

-- `In` says whether the needle is in the haystack.
pub slice_in-In :
    (haystack : List Str) (needle : Str) → slice_in haystack needle ≡ true → In needle haystack
unfolding slice_in
slice_in-In [] needle h = absurd (cc)
slice_in-In (s ∷ haystack) needle h = elim (Bool-cases (needle == s)) [
  | inl e ↦ rw ((str_beq_iff needle s).0 e) here
  | inr e ↦ there (slice_in-In haystack needle (ground arith))
]
