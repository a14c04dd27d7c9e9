-- ===== src/Store/Crypt.antt =====
-- pkg/store/crypt: the AES encrypter, over an AEAD, and the choice of an encrypter. An AEAD is a
-- parameter, as is the source of random bytes.
use saiki.Prelude.{
  ℕ, zero, suc, ◌≡◌, refl, ap, Bool, true, false, ◌||◌, [], ◌∷◌, ◌++◌, Option, none, some,
  if◌then◌else◌, Str, ◌==◌, str_eq, codes, length, take, drop, arith,
}
use saiki.Errors.{external, fatal, Result, ok, err, ◌>>=◌}
use saiki.Store.Storage.{Encrypter}

-- `cipher.AEAD`: `seal` and `open` of a nonce and a text
pub record Aead : Type 0 where
  pub nonce_size : ℕ
  pub seal : Str → Str → Str
  pub open_sealed : Str → Str → Result Str

-- `Encrypt`, with the nonce that was read from the source of random bytes: it stands in front.
unfoldable pub aes_encrypt : Aead → Result Str → Str → Result Str
aes_encrypt a random data_bytes = do nonce ← random; ok (nonce ++ a.seal nonce data_bytes)

-- `data[:nonceSize], data[nonceSize:]`; slicing past the end is a panic
open_parts : Aead → ℕ → Str → Result Str
open_parts a n data_bytes = a.open_sealed (take n data_bytes) (drop n data_bytes)

abbrev pub is_long : ℕ → Str → Bool
is_long zero data_bytes = true
is_long (suc n) [] = false
is_long (suc n) (b ∷ data_bytes) = is_long n data_bytes

-- `Decrypt`
unfoldable pub aes_decrypt : Aead → Str → Result Str
unfolding open_parts
aes_decrypt a data_bytes =
    if is_long a.nonce_size data_bytes
    then open_parts a a.nonce_size data_bytes
    else err (fatal (codes "slice bounds out of range"))

is_long-append : (n : ℕ) (xs ys : Str) → length xs ≡ n → is_long n (xs ++ ys) ≡ true
is_long-append zero xs ys h = refl
is_long-append (suc n) [] ys h = absurd (omega arith)
is_long-append (suc n) (x ∷ xs) ys h = is_long-append n xs ys (omega arith)

take-append_left : (n : ℕ) (xs ys : Str) → length xs ≡ n → take n (xs ++ ys) ≡ xs
take-append_left zero [] ys h = refl
take-append_left zero (x ∷ xs) ys h = absurd (omega arith)
take-append_left (suc n) [] ys h = absurd (omega arith)
take-append_left (suc n) (x ∷ xs) ys h = ap (λ l. x ∷ l) (take-append_left n xs ys (omega arith))

drop-append_left : (n : ℕ) (xs ys : Str) → length xs ≡ n → drop n (xs ++ ys) ≡ ys
drop-append_left zero [] ys h = refl
drop-append_left zero (x ∷ xs) ys h = absurd (omega arith)
drop-append_left (suc n) [] ys h = absurd (omega arith)
drop-append_left (suc n) (x ∷ xs) ys h = drop-append_left n xs ys (omega arith)

-- An AEAD opens what it sealed with the same nonce.
abbrev pub Opens : Aead → Type 0
Opens a =
    (nonce data_bytes : Str)
    → length nonce ≡ a.nonce_size
    → a.open_sealed nonce (a.seal nonce data_bytes) ≡ ok data_bytes

-- What is encrypted with any nonce of the AEAD's size is decrypted to itself.
pub aes_decrypt-aes_encrypt :
    (a : Aead) (nonce data_bytes : Str)
    → Opens a
    → length nonce ≡ a.nonce_size
    → (aes_encrypt a (ok nonce) data_bytes >>= aes_decrypt a) ≡ ok data_bytes
unfolding aes_encrypt aes_decrypt open_parts
aes_decrypt-aes_encrypt a nonce data_bytes opens h =
    let sealed = a.seal nonce data_bytes in
    rw
      (
        is_long-append a.nonce_size nonce sealed h,
        open_parts,
        take-append_left a.nonce_size nonce sealed h,
        drop-append_left a.nonce_size nonce sealed h,
      )
      (opens nonce data_bytes h)

-- `NewAESEncrypter`: the cipher of the hash of the key; no key ends the process
unfoldable pub new_aes_encrypter : (Str → Result Aead) → Result Str → Str → Result Encrypter
new_aes_encrypter cipher_of random [] = err (fatal (codes "aes encryption key cannot be blank"))
new_aes_encrypter cipher_of random (b ∷ key) = do
  a ← cipher_of (b ∷ key)
  ok (record { encrypt = aes_encrypt a random; decrypt = aes_decrypt a })

-- `New`
unfoldable pub new_encrypter : (Str → Result Aead) → Result Str → Str → Str → Result Encrypter
new_encrypter cipher_of random algorithm key =
    if algorithm == codes "AES"
    then new_aes_encrypter cipher_of random key
    else err (external (codes "encrypter not found with algorithm: " ++ algorithm))

-- `NewFromEnv`: no encrypter unless both settings are given
unfoldable pub encrypter_from_env :
    (Str → Result Aead) → Result Str → Str → Str → Result (Option Encrypter)
encrypter_from_env cipher_of random algorithm key =
    if algorithm == [] || key == []
    then ok none
    else (do e ← new_encrypter cipher_of random algorithm key; ok (some e))
