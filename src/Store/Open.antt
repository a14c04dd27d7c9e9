-- ===== src/Store/Open.antt =====
-- How the settings choose a backend and a store: `New` and `NewFromEnv` of pkg/store/backend/cloud/blob,
-- `NewFromEnv` of pkg/store/backend/backends.go, and `New` of pkg/store/storage.go.
use saiki.Prelude.{
  ◌≡◌, refl, Bool, true, false, [], ◌++◌, Option, none, some, if◌then◌else◌, Str, ◌==◌, str_eq,
  codes,
}
use saiki.Errors.{not_found, external, Result, ok, err, ◌>>=◌}
use saiki.Store.Backend.{Provider, s3_provider, mem_provider, fs_provider}
use saiki.Store.Revision.{RevisionFields}
use saiki.Store.Storage.{RevisionStore}
use saiki.Prelude.Dict.{lookup}
use saiki.Store.InMemory.{empty, mem_get}
use saiki.Store.InMemory
use saiki.Store.Storer.{Storer}
use saiki.Store.ReadWrite.{ReadWriteStore, rw_get}

-- `ProviderMap`
unfoldable pub provider_of : Str → Option Provider
provider_of text =
    if text == codes "S3"
    then some s3_provider
    else if text == codes "memory"
    then some mem_provider
    else if text == codes "filesystem"
    then some fs_provider
    else none

-- the settings that are read, less those of the S3 session, which the library takes as they are
pub record Settings : Type 0 where
  pub backend : Str
  pub blob_provider : Str
  pub aws_bucket : Str
  pub root : Str

pub record BlobConfig : Type 0 where
  pub bucket_name : Str
  pub root : Str

-- Only the file system has a default root.
default_root : Provider → Str
default_root s3_provider = []
default_root mem_provider = []
default_root fs_provider = codes ".saiki"

-- `ConfigFromEnv`
unfoldable pub config_from_env : Settings → Provider → BlobConfig
unfolding default_root
config_from_env v provider = record {
  bucket_name = v.aws_bucket;
  root = if v.root == [] then default_root provider else v.root;
}

-- how the Go CDK opens a bucket, whose states are `B`
pub record BucketLibrary (B : Type 0) : Type 0 where
  pub open_s3 : Str → Result B
  pub open_mem : B
  pub open_fs : Str → Result B

module _ {B : Type 0} (lib : BucketLibrary B) where
  -- `New` of the blob backend
  unfoldable pub new_backend : Provider → BlobConfig → Result (Provider × B)
  new_backend s3_provider config = do b ← lib.open_s3 config.bucket_name; ok (s3_provider, b)
  new_backend mem_provider config = ok (mem_provider, lib.open_mem)
  new_backend fs_provider config = do b ← lib.open_fs config.root; ok (fs_provider, b)

  -- `NewFromEnv` of the blob backend
  unfoldable pub blob_from_env : Settings → Result (Provider × B)
  blob_from_env v = elim (provider_of v.blob_provider) [
    | none ↦
        err (external (codes "provider implementation not found for provider: " ++ v.blob_provider))
    | some p ↦ new_backend p (config_from_env v p)
  ]

  -- `NewFromEnv` of the backends
  unfoldable pub backend_from_env : Settings → Result (Provider × B)
  backend_from_env v =
      if v.backend == codes "blob"
      then blob_from_env v
      else err (external (codes "no backend store implementation found for " ++ v.backend))

-- the store behind the interface
pub data Opened (U B : Type 0) : Type 0 where
  plain : RevisionStore B → Opened U B
  cached : ReadWriteStore U (RevisionStore B) → Opened U B

module _ {U B : Type 0} where
  -- `New` of the store, on the backend that an option gave, if one did
  unfoldable pub new_store : Option B → Bool → Result (Opened U B)
  new_store none enable_cache = err (external (codes "backend cannot be empty"))
  new_store (some b) enable_cache =
      let s : RevisionStore B = record { backend = b; latest_cache = [] } in
      if enable_cache then ok (cached (record { storer = s; reader = empty })) else ok (plain s)

-- what is read of a resource through an open store that has the cache
abbrev pub Unknown :
    {U B : Type 0} → Storer U (RevisionStore B) → RevisionFields → Result (Opened U B) → Type 0
Unknown storer rev (ok (cached s)) = rw_get storer rev s ≡ err not_found
Unknown storer rev (ok (plain s)) = Unit
Unknown storer rev (err e) = Unit

-- A store that was opened with the cache finds no revision before it is synced, whatever its
-- bucket holds.
pub new_store-Unknown :
    {U B : Type 0} (storer : Storer U (RevisionStore B)) (rev : RevisionFields) (b : Option B)
    (enable_cache : Bool)
    → Unknown storer rev (new_store b enable_cache)
unfolding new_store
new_store-Unknown storer rev none enable_cache = tt
new_store-Unknown storer rev (some b) true = unfold rw_get mem_get lookup InMemory.cached in refl
new_store-Unknown storer rev (some b) false = tt
