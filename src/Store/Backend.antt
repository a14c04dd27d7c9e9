-- ===== src/Store/Backend.antt =====
-- pkg/store/backend/cloud/blob/blob.go: the backend over a bucket of the Go CDK. The bucket is a
-- parameter: what its calls return, and the bucket afterwards.
pub mod Instrumented
pub mod Walk
pub mod RemoveAll
pub mod Requests
use saiki.Prelude.{
  ℕ, zero, suc, ◌+◌, ◌*◌, ◌/◌, Bool, true, false, List, [], ◌∷◌, ◌++◌, Option, none, some, length,
  take, drop, if◌then◌else◌, Str, codes,
}
use saiki.Golang.FilePath.{slash, dir, base}
use saiki.Errors.{Error, external, skip_dir, Result, ok, err}
use saiki.Util.{slice_in}

pub record ListObject : Type 0 where
  pub key : Str
  pub is_dir : Bool

-- What iterating over a listing yields, and the error that ends it; none at the end of the listing.
pub record Listing : Type 0 where
  pub objects : List ListObject
  pub ended : Option Error

-- the output of S3's bulk deletion: the keys that it deleted, some of them nil; or no output at all
pub record DeleteOutput : Type 0 where
  pub deleted : List (Option Str)

-- `blob.Bucket` and the S3 client below it, over the states of the bucket.
pub record Bucket (B : Type 0) : Type 0 where
  pub new_writer : Str → B → Option Error × B
  pub write : Str → Str → B → Option Error × B
  pub close_writer : Str → B → Option Error × B
  pub read_all : Str → B → Result Str
  pub bucket_delete : Str → B → Option Error × B
  -- by a prefix and a delimiter
  pub list : Str → Str → B → Listing
  pub as_s3 : Bool
  pub delete_objects : List Str → B → Option DeleteOutput × Option Error × B

pub data Provider : Type 0 where
  s3_provider mem_provider fs_provider : Provider

file_names : List ListObject → List Str
file_names [] = []
file_names (obj ∷ objs) = if obj.is_dir then file_names objs else base obj.key ∷ file_names objs

pub keys_of : List (Option Str) → List Str
keys_of [] = []
keys_of (none ∷ l) = keys_of l
keys_of (some k ∷ l) = k ∷ keys_of l

-- `keys[startChunk:endChunk]`
abbrev pub chunk_size : ℕ
chunk_size = 1000

unfoldable pub chunk : ℕ → List Str → List Str
chunk i keys = take chunk_size (drop (i * chunk_size) keys)

module _ {B : Type 0} (bucket : Bucket B) where
  -- `Create`, writing and `Close` are steps of their own: the caller decides what to do on an error.
  unfoldable pub create : Str → B → Option Error × B
  create name s = bucket.new_writer name s

  -- `Open` and reading all of it
  unfoldable pub open_and_read : Str → B → Result Str
  open_and_read name s = bucket.read_all name s

  -- `ReadDir`: the names of the files that stand directly in a directory
  unfoldable pub read_dir : Str → B → Result (List Str)
  unfolding file_names
  read_dir path s =
      let listing = bucket.list (path ++ (slash ∷ [])) (slash ∷ []) s in
      elim listing.ended [ none ↦ ok (file_names listing.objects) | some e ↦ err e ]

  unfoldable pub remove : Str → B → Option Error × B
  remove key s = bucket.bucket_delete key s

  -- The loop of `RemoveAll` for any other provider: the error is that of the last key.
  remove_each : List Str → List Str → Option Error → B → List Str × Option Error × B
  remove_each [] deleted last s = (deleted, last, s)
  remove_each (key ∷ keys) deleted last s =
      let (e, s') = remove key s in
      elim e [
        | none ↦ remove_each keys (deleted ++ (key ∷ [])) none s'
        | some x ↦ remove_each keys deleted (some x) s'
      ]

  -- The loop over the chunks of S3, with `n` rounds left. An error beside an output is only logged;
  -- with no output the call ends with no keys at all.
  remove_chunks : ℕ → ℕ → List Str → List Str → B → List Str × Option Error × B
  remove_chunks zero i keys deleted s = (deleted, none, s)
  remove_chunks (suc n) i keys deleted s =
      let (out, e, s') = bucket.delete_objects (chunk i keys) s in
      elim out [
        | none ↦ ([], e, s')
        | some o ↦ remove_chunks n (suc i) keys (deleted ++ keys_of o.deleted) s'
      ]

  -- `RemoveAll`
  unfoldable pub remove_all : Provider → List Str → B → List Str × Option Error × B
  unfolding remove_each remove_chunks keys_of
  remove_all s3_provider keys s =
      let removed = remove_chunks (suc (length keys / chunk_size)) 0 keys [] s in
      if bucket.as_s3
      then removed
      else ([], some (external (codes "error converting blob.Bucket to s3.Bucket")), s)
  remove_all _ keys s = remove_each keys [] none s

-- A `WalkFunc` works on the variables of its closure; its error is the second part.
abbrev pub WalkFunc : Type 0 → Type 0
WalkFunc A = A → ListObject → A × Option Error

module _ {A : Type 0} (walk_fn : WalkFunc A) where
  -- The loop of `Walk` over a listing, with the directories that are skipped.
  unfoldable pub walk_loop : List Str → A → List ListObject → Option Error → A × Option Error
  walk_loop skipped acc [] ended = (acc, ended)
  walk_loop skipped acc (obj ∷ objs) ended = elim (slice_in skipped (dir obj.key)) [
    | true ↦ walk_loop skipped acc objs ended
    | false ↦
        let (acc', e) = walk_fn acc obj in
        elim e [
          | none ↦ walk_loop skipped acc' objs ended
          | some x ↦ elim x [
            | skip_dir ↦ walk_loop (dir obj.key ∷ skipped) acc' objs ended
            | other ↦ (acc', some other)
          ]
        ]
  ]

-- `Walk`: the closure's variables afterwards, and the error.
unfoldable pub walk : {A B : Type 0} → Bucket B → Str → WalkFunc A → A → B → A × Option Error
unfolding walk_loop
walk bucket root walk_fn acc s =
    let listing = bucket.list root [] s in walk_loop walk_fn [] acc listing.objects listing.ended
