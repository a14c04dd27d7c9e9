-- ===== src/Errors.antt =====
-- pkg/errors/error.go, and results of fallible code.
use saiki.Prelude.{Str, ◌≡◌, refl}

-- An error that another library returns is `external`.
pub data Error : Type 0 where
  not_found canceled skip_dir : Error
  invalid_path bad_filename bad_number : Str → Error
  external : Str → Error
  -- the process ends: `klog.Fatal`
  fatal : Str → Error

-- A Go call that returns a value or an error.
pub data Result {ℓ} (A : Type ℓ) : Type ℓ where
  err : Error → Result A
  ok : A → Result A

infixl 5 ◌>>=◌
-- what stands behind `if err != nil { return err }`
abbrev pub ◌>>=◌ {ℓ κ} : {A : Type ℓ} {B : Type κ} → Result A → (A → Result B) → Result B
err e >>= next = err e
ok a >>= next = next a

module _ {ℓ κ} {A : Type ℓ} {B : Type κ} where
  -- A chain that succeeds has succeeded at its first step.
  pub >>=-eq-ok :
      (first : Result A) (next : A → Result B) {b : B}
      → (first >>= next) ≡ ok b
      → (a : A) × (first ≡ ok a) × (next a ≡ ok b)
  >>=-eq-ok (err e) next h = cc
  >>=-eq-ok (ok a) next h = (a, refl, h)

pub ok-injective {ℓ} : {A : Type ℓ} {a b : A} → ok a ≡ ok b → a ≡ b
ok-injective e = cc
