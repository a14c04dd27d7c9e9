-- ===== src/Golang/Strconv/RoundTrip.antt =====
-- `Atoi` reads back what `%d` prints.
use saiki.Prelude.{
  ℕ, zero, suc, ◌+◌, ◌/◌, ◌%◌, ◌^◌, ◌≤◌, ◌<◌, ◌≡◌, ◌≢◌, refl, ap, ◌∙◌, false, [], ◌∷◌, none, arith,
  Str, nat_eq, All,
}
use saiki.Prelude.Int.{pos}
use saiki.Golang.Strconv.{digits, itoa, scan, signed, atoi, max_u64}

abbrev pub IsDigit : ℕ → Type 0
IsDigit c = (b'0' ≤ c) × (c ≤ b'9')

digits-IsDigit : (f n : ℕ) (out : Str) → All IsDigit out → All IsDigit (digits f n out)
unfolding digits
digits-IsDigit zero n out h = h
digits-IsDigit (suc f) n out h = ground (arith, digits-IsDigit f (n / 10) ((b'0' + n % 10) ∷ out))

scan-digits : (f n : ℕ) (out : Str) → n < f → n ≤ max_u64 → scan 0 (digits f n out) ≡ scan n out
unfolding digits scan
scan-digits zero n out h fits = absurd (omega arith)
scan-digits (suc f) n out h fits = ground (arith, scan-digits f (n / 10) ((b'0' + n % 10) ∷ out))

digits-ne-nil : (f n : ℕ) (out : Str) → out ≢ [] → digits f n out ≢ []
unfolding digits
digits-ne-nil zero n out h = h
digits-ne-nil (suc f) n out h = ground (arith, digits-ne-nil f (n / 10) ((b'0' + n % 10) ∷ out))

digits-suc-ne-nil : (f n : ℕ) (out : Str) → digits (suc f) n out ≢ []
unfolding digits
digits-suc-ne-nil f n out = ground (arith, digits-ne-nil f (n / 10) ((b'0' + n % 10) ∷ out))

atoi_digits : (s : Str) → s ≢ [] → All IsDigit s → atoi s ≡ signed false (scan 0 s)
unfolding atoi
atoi_digits [] ne h = absurd (ne refl)
atoi_digits (c ∷ s) ne h = ground (arith, h.0)

-- A number is printed as digits, at least one.
pub itoa-IsDigit : (n : ℕ) → All IsDigit (itoa (pos n))
unfolding itoa
itoa-IsDigit n = digits-IsDigit (suc n) n [] tt

pub itoa-ne-nil : (n : ℕ) → itoa (pos n) ≢ []
unfolding itoa
itoa-ne-nil n = digits-suc-ne-nil n n []

-- Every number that fits int64 is read back.
pub atoi-itoa : (n : ℕ) → n < 2 ^ 63 → atoi (itoa (pos n)) ≡ (none, pos n)
unfolding itoa
atoi-itoa n h =
    let s = digits (suc n) n [] in
    atoi_digits s (digits-suc-ne-nil n n []) (digits-IsDigit (suc n) n [] tt)
    ∙ ap (signed false) (scan-digits (suc n) n [] (omega arith) (omega arith))
    ∙ unfold signed scan in ground arith
