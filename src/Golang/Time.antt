-- ===== src/Golang/Time.antt =====
-- `time`: an instant is the number of nanoseconds since the Unix epoch; a duration is a number of
-- nanoseconds. Go's wrap-around of instants some 292 billion years away is not modelled.
use saiki.Prelude.{ℕ, ◌+◌, ◌-◌, ◌*◌, ◌/◌, ◌≡◌, Bool, arith}
use saiki.Prelude.Int.{ℤ, pos, negsuc, ltb_ℤ, beq_ℤ}

abbrev pub Time : Type 0
Time = ℤ

abbrev nanos : ℕ
nanos = 1_000_000_000

-- `time.Unix(s, 0)`
unfoldable pub unix : ℤ → Time
unix (pos s) = pos (s * nanos)
unix (negsuc s) = negsuc (s * nanos + (nanos - 1))

-- `t.Unix()`, which rounds down
unfoldable pub to_unix : Time → ℤ
to_unix (pos t) = pos (t / nanos)
to_unix (negsuc t) = negsuc (t / nanos)

-- `time.Time{}`: the start of the year 1
abbrev pub zero_time : Time
zero_time = negsuc (62_135_596_800 * nanos - 1)

abbrev pub is_zero : Time → Bool
is_zero t = beq_ℤ t zero_time

-- `t.After(u)`
abbrev pub after : Time → Time → Bool
after t u = ltb_ℤ u t

pub to_unix-unix : (s : ℤ) → to_unix (unix s) ≡ s
unfolding unix to_unix
to_unix-unix (pos s) = ground arith
to_unix-unix (negsuc s) = ground arith
