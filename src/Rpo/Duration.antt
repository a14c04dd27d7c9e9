-- ===== src/Rpo/Duration.antt =====
-- The JSON of a `Duration` of pkg/rpo/rpo.go. The JSON library and the texts of durations are parameters.
use saiki.Prelude.{◌≡◌, ap, ◌∙◌, Str, codes}
use saiki.Prelude.Int.{ℤ}
use saiki.Errors.{external, Result, ok, err}

-- what `json.Unmarshal` makes of a text: a number, by its nearest integer towards zero, a text, or
-- anything else
pub data JsonValue : Type 0 where
  number : ℤ → JsonValue
  text : Str → JsonValue
  other : JsonValue

pub record DurationLibrary : Type 0 where
  pub marshal_text : Str → Result Str
  pub unmarshal : Str → Result JsonValue
  pub duration_text : ℤ → Str
  pub parse_duration : Str → Result ℤ

module _ (lib : DurationLibrary) where
  -- `MarshalJSON`
  unfoldable pub marshal_duration : ℤ → Result Str
  marshal_duration d = lib.marshal_text (lib.duration_text d)

  of_value : Result JsonValue → Result ℤ
  of_value (err e) = err e
  of_value (ok (number n)) = ok n
  of_value (ok (text t)) = lib.parse_duration t
  of_value (ok other) = err (external (codes "invalid duration"))

  -- `UnmarshalJSON`
  unfoldable pub unmarshal_duration : Str → Result ℤ
  unfolding of_value
  unmarshal_duration b = of_value (lib.unmarshal b)

  -- The JSON library reads the texts that it writes, and a duration is read from its text.
  abbrev pub ReadsBack : Type 0
  ReadsBack =
      ((t b : Str) → lib.marshal_text t ≡ ok b → lib.unmarshal b ≡ ok (text t))
      × ((d : ℤ) → lib.parse_duration (lib.duration_text d) ≡ ok d)

  -- What a duration is marshaled to is unmarshaled to it.
  pub unmarshal_duration-marshal_duration :
      (d : ℤ) (b : Str) → ReadsBack → marshal_duration d ≡ ok b → unmarshal_duration b ≡ ok d
  unfolding marshal_duration unmarshal_duration of_value
  unmarshal_duration-marshal_duration d b (reads, parses) e =
      ap of_value (reads (lib.duration_text d) b e) ∙ parses d
