-- ===== src/Store/Backend/Requests.antt =====
-- The requests that the bulk deletion of pkg/store/backend/cloud/blob/blob.go sends to S3.
use saiki.Prelude.{
  ℕ, zero, suc, ◌+◌, ◌*◌, ◌/◌, ◌≤◌, ◌≡◌, refl, sym, subst, ap, ◌∙◌, Bool, true, false, List, [],
  ◌∷◌, ◌++◌, append_assoc, append-nil, Option, none, some, arith, Str, codes, take, drop, length,
  All, take-append-drop, if◌then◌else◌,
}
use saiki.Errors.{Error, external}
use saiki.Store.Backend.{
  Bucket, DeleteOutput, s3_provider, chunk, chunk_size, keys_of, remove_chunks, remove_all,
}
use saiki.Store.Backend.RemoveAll.{HasOutput, next_chunks}

-- a bucket that remembers the requests for bulk deletion
abbrev pub Traced : Type 0 → Type 0
Traced B = B × List (List Str)

abbrev untraced : {B R : Type 0} → (B → R × B) → Traced B → R × Traced B
untraced f (s, log) = let (r, s') = f s in (r, (s', log))

unfoldable pub traced : {B : Type 0} → Bucket B → Bucket (Traced B)
traced bucket = record {
  new_writer = λ k. untraced (bucket.new_writer k);
  write = λ k t. untraced (bucket.write k t);
  close_writer = λ k. untraced (bucket.close_writer k);
  read_all = λ k s. bucket.read_all k s.0;
  bucket_delete = λ k. untraced (bucket.bucket_delete k);
  list = λ p d s. bucket.list p d s.0;
  as_s3 = bucket.as_s3;
  delete_objects = λ keys s.
      let (out, e, s') = bucket.delete_objects keys s.0 in (out, e, (s', s.1 ++ (keys ∷ [])));
}

-- `n` chunks from the `i`-th on
unfoldable pub chunks : ℕ → ℕ → List Str → List (List Str)
chunks zero i keys = []
chunks (suc n) i keys = chunk i keys ∷ chunks n (suc i) keys

unfoldable pub concat : {A : Type 0} → List (List A) → List A
concat [] = []
concat (xs ∷ xss) = xs ++ concat xss

length-take : (n : ℕ) (xs : List Str) → length (take n xs) ≤ n
length-take zero xs = omega arith
length-take (suc n) [] = omega arith
length-take (suc n) (x ∷ xs) = omega (arith, length-take n xs)

abbrev pub Bounded : List (List Str) → Type 0
Bounded = All (λ keys. length keys ≤ chunk_size)

chunks-Bounded : (n i : ℕ) (keys : List Str) → Bounded (chunks n i keys)
unfolding chunks chunk
chunks-Bounded zero i keys = tt
chunks-Bounded (suc n) i keys =
    (length-take chunk_size (drop (i * chunk_size) keys), chunks-Bounded n (suc i) keys)

length-chunks : (n i : ℕ) (keys : List Str) → length (chunks n i keys) ≡ n
unfolding chunks
length-chunks zero i keys = refl
length-chunks (suc n) i keys = omega (arith, length-chunks n (suc i) keys)

module _ {B : Type 0} (bucket : Bucket B) where
  concat-chunks :
      (n i : ℕ) (keys : List Str)
      → concat (chunks n i keys) ≡ take (n * chunk_size) (drop (i * chunk_size) keys)
  unfolding chunks concat
  concat-chunks zero i keys =
      let z : zero * chunk_size ≡ zero = omega arith in
      sym (ap (λ k. take k (drop (i * chunk_size) keys)) z)
  concat-chunks (suc n) i keys =
      ap (λ l. chunk i keys ++ l) (concat-chunks n (suc i) keys) ∙ next_chunks bucket n i keys

  -- the first chunks were asked for, at most `n` of them
  abbrev Asked : ℕ → ℕ → List Str → List (List Str) → List (List Str) → Type 0
  Asked n i keys log after = (m : ℕ) × (m ≤ n) × (after ≡ log ++ chunks m i keys)

  remove_chunks-Asked :
      (n i : ℕ) (keys deleted : List Str) (s : B) (log : List (List Str))
      → Asked n i keys log (remove_chunks (traced bucket) n i keys deleted (s, log)).2.1
  unfolding remove_chunks traced chunks
  remove_chunks-Asked zero i keys deleted s log = (0, omega arith, sym (append-nil log))
  remove_chunks-Asked (suc n) i keys deleted s log =
      go (bucket.delete_objects (chunk i keys) s).0 _ (λ o.
        remove_chunks-Asked n (suc i) keys (deleted ++ keys_of o.deleted)
          (bucket.delete_objects (chunk i keys) s).2 (log ++ (chunk i keys ∷ [])))
    where
      Removed : Type 0
      Removed = List Str × Option Error × Traced B

      go :
          (out : Option DeleteOutput) (next : DeleteOutput → Removed)
          → ((o : DeleteOutput) → Asked n (suc i) keys (log ++ (chunk i keys ∷ [])) (next o).2.1)
          → Asked
              (suc n)
              i
              keys
              log
              (elim out as (λ _. Removed) [
                | none ↦ (
                  [],
                  (bucket.delete_objects (chunk i keys) s).1,
                  ((bucket.delete_objects (chunk i keys) s).2, log ++ (chunk i keys ∷ [])),
                )
                | some o ↦ next o
              ]).2.1
      go none next h = (1, omega arith, refl)
      go (some o) next h =
          let (m, le, e) = h o in
          (
            suc m,
            omega (arith, le),
            e ∙ append_assoc log (chunk i keys ∷ []) (chunks m (suc i) keys),
          )

  -- no request has more than 1000 keys, there is at most one more than there are thousands of keys,
  -- and together they ask for an initial part of the keys
  abbrev pub InLimits : List Str → List (List Str) → Type 0
  InLimits keys log =
      Bounded log
      × (length log ≤ suc (length keys / chunk_size))
      × (rest : List Str) × (concat log ++ rest ≡ keys)

  Asked-InLimits :
      (keys : List Str) (log : List (List Str))
      → Asked (suc (length keys / chunk_size)) 0 keys [] log
      → InLimits keys log
  Asked-InLimits keys log (m, le, e) = subst (InLimits keys) (sym e) (
    chunks-Bounded m 0 keys,
    omega (arith, le, length-chunks m 0 keys),
    drop (m * chunk_size) keys,
    ap (λ l. l ++ drop (m * chunk_size) keys) (concat-chunks m 0 keys)
        ∙ take-append-drop (m * chunk_size) keys,
  )

  -- Whatever S3 answers, no request of the bulk deletion has more than 1000 keys, there are at most
  -- one more of them than the thousands of keys, and together they ask for an initial part of the
  -- given keys: none out of order, none twice.
  pub remove_all-InLimits :
      (keys : List Str) (s : B)
      → InLimits keys (remove_all (traced bucket) s3_provider keys (s, [])).2.1
  unfolding remove_all traced concat
  remove_all-InLimits keys s = go bucket.as_s3
    where
      asked :
          InLimits keys
            (remove_chunks (traced bucket) (suc (length keys / chunk_size)) 0 keys [] (s, [])).2.1
      asked =
          Asked-InLimits keys _
            (remove_chunks-Asked (suc (length keys / chunk_size)) 0 keys [] s [])

      go :
          (b : Bool)
          → InLimits keys (
              let r : List Str × Option Error × Traced B =
                if b
                then remove_chunks
                    (traced bucket)
                    (suc (length keys / chunk_size))
                    0
                    keys
                    []
                    (s, [])
                else (
                  [],
                  some (external (codes "error converting blob.Bucket to s3.Bucket")),
                  (s, []),
                ) in
              r.2.1)
      go true = asked
      go false = (tt, omega arith, keys, refl)

  -- every chunk is asked for
  remove_chunks-chunks :
      (n i : ℕ) (keys deleted : List Str) (s : B) (log : List (List Str))
      → HasOutput bucket
      → (remove_chunks (traced bucket) n i keys deleted (s, log)).2.1 ≡ log ++ chunks n i keys
  unfolding remove_chunks traced chunks
  remove_chunks-chunks zero i keys deleted s log h = sym (append-nil log)
  remove_chunks-chunks (suc n) i keys deleted s log h =
      let (out, e) = h (chunk i keys) s in
      rw (e, remove_chunks)
        (remove_chunks-chunks n (suc i) keys (deleted ++ keys_of out.deleted)
            (bucket.delete_objects (chunk i keys) s).2 (log ++ (chunk i keys ∷ [])) h
          ∙ append_assoc log (chunk i keys ∷ []) (chunks n (suc i) keys))

  chunks-last :
      (n i : ℕ) (keys : List Str)
      → chunks (suc n) i keys ≡ chunks n i keys ++ (chunk (i + n) keys ∷ [])
  unfolding chunks
  chunks-last zero i keys =
      let e : i + zero ≡ i = omega arith in ap (λ k. chunk k keys ∷ []) (sym e)
  chunks-last (suc n) i keys =
      let e : suc i + n ≡ i + suc n = omega arith in
      ap (λ l. chunk i keys ∷ l)
        (chunks-last n (suc i) keys ∙ ap (λ k. chunks n (suc i) keys ++ (chunk k keys ∷ [])) e)

  drop_all : (n : ℕ) (xs : List Str) → length xs ≤ n → drop n xs ≡ []
  drop_all zero [] h = refl
  drop_all zero (x ∷ xs) h = absurd (omega (arith, h))
  drop_all (suc n) [] h = refl
  drop_all (suc n) (x ∷ xs) h = drop_all n xs (omega (arith, h))

  past_end : (q : ℕ) (keys : List Str) → length keys ≡ q * 1000 → chunk (0 + q) keys ≡ []
  unfolding chunk
  past_end q keys e = ap (take chunk_size) (drop_all ((0 + q) * chunk_size) keys (omega (arith, e)))

  -- Where the number of keys is a multiple of 1000, none at all included, the bulk deletion ends with
  -- a request for no keys, if each request before it gets an output.
  pub remove_all-empty_request :
      (keys : List Str) (s : B) (q : ℕ)
      → bucket.as_s3 ≡ true
      → HasOutput bucket
      → length keys ≡ q * 1000
      → (remove_all (traced bucket) s3_provider keys (s, [])).2.1 ≡ chunks q 0 keys ++ ([] ∷ [])
  unfolding remove_all traced concat
  remove_all-empty_request keys s q is_s3 h e =
      let rounds : length keys / chunk_size ≡ q = omega (arith, e) in
      rw (is_s3, rounds)
        (remove_chunks-chunks (suc q) 0 keys [] s [] h
          ∙ chunks-last q 0 keys
          ∙ ap (λ c. chunks q 0 keys ++ (c ∷ [])) (past_end q keys e))
