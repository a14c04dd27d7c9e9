-- ===== src/Store/Backend/RemoveAll.antt =====
-- What the bulk deletion reports: S3's chunks cover every key, and errors that are lost.
use mathlib.Core.List.{map}
use saiki.Prelude.{
  ℕ, zero, suc, ◌+◌, ◌*◌, ◌/◌, ◌≤◌, ◌≡◌, refl, sym, subst, ap, ◌∙◌, true, List, [], ◌∷◌, ◌++◌,
  append_assoc, append-nil, Option, none, some, arith, Str, codes, take, drop, length,
  if◌then◌else◌,
}
use saiki.Errors.{Error, external}
use saiki.Store.Backend.{
  Bucket, DeleteOutput, s3_provider, chunk, chunk_size, keys_of, remove_chunks, remove_all,
}

keys_of-map : (keys : List Str) → keys_of (map (λ k. some k) keys) ≡ keys
unfolding keys_of
keys_of-map [] = refl
keys_of-map (k ∷ keys) = ap (λ l. k ∷ l) (keys_of-map keys)

module _ {ℓ} {A : Type ℓ} where
  pub drop_nil : (n : ℕ) → drop n (let l : List A = [] in l) ≡ []
  drop_nil zero = refl
  drop_nil (suc n) = refl

  take_nil : (n : ℕ) → take n (let l : List A = [] in l) ≡ []
  take_nil zero = refl
  take_nil (suc n) = refl

  drop-drop : (a b : ℕ) (xs : List A) → drop (a + b) xs ≡ drop b (drop a xs)
  drop-drop zero b xs = ground arith
  drop-drop (suc a) b [] = ground (arith, drop_nil b, drop_nil (suc a + b))
  drop-drop (suc a) b (x ∷ xs) =
      let e : suc a + b ≡ suc (a + b) = omega arith in rw e (drop-drop a b xs)

  take-add : (a b : ℕ) (xs : List A) → take (a + b) xs ≡ take a xs ++ take b (drop a xs)
  take-add zero b xs = ground arith
  take-add (suc a) b [] = ground (arith, take_nil b, take_nil (suc a + b))
  take-add (suc a) b (x ∷ xs) =
      let e : suc a + b ≡ suc (a + b) = omega arith in rw e (ap (λ l. x ∷ l) (take-add a b xs))

  take_all : (n : ℕ) (xs : List A) → length xs ≤ n → take n xs ≡ xs
  take_all zero [] h = refl
  take_all zero (x ∷ xs) h = absurd (omega arith)
  take_all (suc n) [] h = refl
  take_all (suc n) (x ∷ xs) h = ap (λ l. x ∷ l) (take_all n xs (omega arith))

module _ {B : Type 0} (bucket : Bucket B) where
  abbrev failed : B → List Str × Option Error × B
  failed s = ([], some (external (codes "error converting blob.Bucket to s3.Bucket")), s)

  -- S3 deletes whatever it is asked to.
  abbrev pub DeletesAll : Type 0
  DeletesAll =
      (keys : List Str) (s : B)
      → (bucket.delete_objects keys s).0 ≡ some (record { deleted = map (λ k. some k) keys })

  -- S3 always gives an output.
  abbrev pub HasOutput : Type 0
  HasOutput =
      (keys : List Str) (s : B)
      → (out : DeleteOutput) × ((bucket.delete_objects keys s).0 ≡ some out)

  pub next_chunks :
      (n i : ℕ) (keys : List Str)
      → chunk i keys ++ take (n * chunk_size) (drop (suc i * chunk_size) keys)
        ≡ take (suc n * chunk_size) (drop (i * chunk_size) keys)
  unfolding chunk
  next_chunks n i keys =
      let here_on = drop (i * chunk_size) keys in
      let e : i * chunk_size + chunk_size ≡ suc i * chunk_size = omega arith in
      let f : chunk_size + n * chunk_size ≡ suc n * chunk_size = omega arith in
      ap (λ d. take chunk_size here_on ++ take (n * chunk_size) d)
        (ap (λ k. drop k keys) (sym e) ∙ drop-drop (i * chunk_size) chunk_size keys)
      ∙ sym (take-add chunk_size (n * chunk_size) here_on)
      ∙ ap (λ k. take k here_on) f

  round :
      (n i : ℕ) (keys deleted : List Str) (s : B) (out : DeleteOutput)
      → (bucket.delete_objects (chunk i keys) s).0 ≡ some out
      → remove_chunks bucket (suc n) i keys deleted s
        ≡ remove_chunks bucket n
            (suc i)
            keys
            (deleted ++ keys_of out.deleted)
            (bucket.delete_objects (chunk i keys) s).2
  unfolding remove_chunks
  round n i keys deleted s out e = rw (e, remove_chunks)

  remove_chunks-take :
      (n i : ℕ) (keys deleted : List Str) (s : B)
      → DeletesAll
      → (remove_chunks bucket n i keys deleted s).0
        ≡ deleted ++ take (n * chunk_size) (drop (i * chunk_size) keys)
  unfolding remove_chunks
  remove_chunks-take zero i keys deleted s h =
      sym (ap (λ k. deleted ++ take k (drop (i * chunk_size) keys)) z ∙ append-nil deleted)
    where
      z : zero * chunk_size ≡ zero
      z = omega arith
  remove_chunks-take (suc n) i keys deleted s h =
      let c = chunk i keys in
      let s' = (bucket.delete_objects c s).2 in
      ap (λ r. r.0) (round n i keys deleted s (record { deleted = map (λ k. some k) c }) (h c s))
      ∙ rw (keys_of-map c) (
          remove_chunks-take n (suc i) keys (deleted ++ c) s' h
          ∙ append_assoc deleted c (take (n * chunk_size) (drop (suc i * chunk_size) keys))
          ∙ ap (λ l. deleted ++ l) (next_chunks n i keys))

  -- The chunks of 1000 keys leave out no key and repeat none: if S3 deletes what each call asks for,
  -- the bulk deletion reports exactly the given keys, in their order.
  pub remove_all_s3 :
      (keys : List Str) (s : B)
      → bucket.as_s3 ≡ true
      → DeletesAll
      → (remove_all bucket s3_provider keys s).0 ≡ keys
  unfolding remove_all
  remove_all_s3 keys s is_s3 h =
      let rounds = suc (length keys / chunk_size) in
      subst (λ b. (if b then remove_chunks bucket rounds 0 keys [] s else failed s).0 ≡ keys)
        (sym is_s3)
        (remove_chunks-take (suc (length keys / chunk_size)) 0 keys [] s h
          ∙ take_all (suc (length keys / chunk_size) * chunk_size) keys (omega arith))

  remove_chunks-no_error :
      (n i : ℕ) (keys deleted : List Str) (s : B)
      → HasOutput
      → (remove_chunks bucket n i keys deleted s).1 ≡ none
  unfolding remove_chunks
  remove_chunks-no_error zero i keys deleted s h = refl
  remove_chunks-no_error (suc n) i keys deleted s h =
      let (out, e) = h (chunk i keys) s in
      ap (λ r. r.1) (round n i keys deleted s out e)
      ∙ (remove_chunks-no_error n (suc i) keys (deleted ++ keys_of out.deleted)
          (bucket.delete_objects (chunk i keys) s).2 h)

  -- On S3 the bulk deletion reports no error whenever each call gives an output, whatever errors the
  -- calls give beside it: the error that is returned is never assigned.
  pub remove_all_s3-no_error :
      (keys : List Str) (s : B)
      → bucket.as_s3 ≡ true
      → HasOutput
      → (remove_all bucket s3_provider keys s).1 ≡ none
  unfolding remove_all
  remove_all_s3-no_error keys s is_s3 h =
      let rounds = suc (length keys / chunk_size) in
      subst (λ b. (if b then remove_chunks bucket rounds 0 keys [] s else failed s).1 ≡ none)
        (sym is_s3) (remove_chunks-no_error (suc (length keys / chunk_size)) 0 keys [] s h)
