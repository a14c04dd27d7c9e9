-- ===== src/Golang/Strconv.antt =====
-- `strconv`: the decimal print of an integer (`%d`) and `Atoi`.
pub mod RoundTrip
use saiki.Prelude.{
  ℕ, zero, suc, ◌+◌, ◌-◌, ◌*◌, ◌/◌, ◌%◌, ◌^◌, ◌≤◌, ◌<◌, ◌≡◌, ◌≢◌, refl, ◌∙◌, Bool, true, false,
  ◌||◌, List, [], ◌∷◌, ◌++◌, Option, none, some, arith, ltb, if◌then◌else◌, Str, ◌==◌, nat_eq, All,
}
use saiki.Prelude.Int.{ℤ, pos, negsuc}

-- Each round writes the last digit in front of those written before it.
digits : ℕ → ℕ → Str → Str
digits zero n out = out
digits (suc f) n out =
    let rest = digits f (n / 10) ((b'0' + n % 10) ∷ out) in
    if ltb n 10 then (b'0' + n) ∷ out else rest

unfoldable pub itoa : ℤ → Str
unfolding digits
itoa (pos n) = digits (suc n) n []
itoa (negsuc n) = b'-' ∷ digits (suc (suc n)) (suc n) []

pub data NumError : Type 0 where
  err_syntax err_range : NumError

abbrev pub max_u64 : ℕ
max_u64 = 2 ^ 64 - 1

-- `ParseUint`: the value, or where the reading stops. A number that is too large stops it at once.
scan : ℕ → Str → Option NumError × ℕ
scan n [] = (none, n)
scan n (c ∷ s) =
    let d = c - b'0' in
    let rest = scan (n * 10 + d) s in
    if ltb c b'0' || ltb b'9' c
    then (some err_syntax, 0)
    else if ltb max_u64 (n * 10 + d)
    then (some err_range, max_u64)
    else rest

parse_uint : Str → Option NumError × ℕ
unfolding scan
parse_uint [] = (some err_syntax, 0)
parse_uint (c ∷ s) = scan 0 (c ∷ s)

-- The sign is applied to what `ParseUint` read, and what does not fit int64 is clamped to it.
signed : Bool → Option NumError × ℕ → Option NumError × ℤ
signed neg (some err_syntax, n) = (some err_syntax, pos 0)
signed true (e, n) =
    if ltb (2 ^ 63) n
    then (some err_range, negsuc (2 ^ 63 - 1))
    else (none, if n == 0 then pos 0 else negsuc (n - 1))
signed false (e, n) = if ltb n (2 ^ 63) then (none, pos n) else (some err_range, pos (2 ^ 63 - 1))

-- `Atoi` returns a value beside its error.
unfoldable pub atoi : Str → Option NumError × ℤ
unfolding parse_uint signed
atoi [] = (some err_syntax, pos 0)
atoi (c ∷ s) =
    if c == b'-'
    then signed true (parse_uint s)
    else signed false (parse_uint (if c == b'+' then s else c ∷ s))
