-- ===== src/Tests.antt =====
-- Test data, and each theorem with hypotheses at a concrete input.
pub mod Store
pub mod Memory
pub mod Controller
pub mod Parts
pub mod Starting
pub mod Commands
pub mod Snapshot
pub mod Queues
pub mod Applied
pub mod Living
pub mod Exported
pub mod Running
pub mod Skipping
pub mod Timed
use mathlib.Core.List.{map}
use saiki.Prelude.{
  Bool, true, false, ◌≡◌, refl, List, [], ◌∷◌, Option, none, some, if◌then◌else◌, Str, ◌==◌, str_eq,
  nat_eq, codes, eq_self,
}
use saiki.Prelude.Int.{ℤ, pos}
use saiki.Prelude.Dict.{Dict, lookup, insert, remove, lookup-insert}
use saiki.Golang.Time.{Time, unix}
use saiki.Errors.{Error, not_found, Result, ok, err}
use saiki.Store.Revision.{Revision, RevisionFields, concrete, unloaded, ObjectMeta}
use saiki.Store.Backend.{Bucket, mem_provider}
use saiki.Store.Storage.{Env, RevisionStore}

abbrev pub Files : Type 0
Files = Dict Str Str

abbrev starts_with : Str → Str → Bool
starts_with [] s = true
starts_with (p ∷ ps) [] = false
starts_with (p ∷ ps) (c ∷ s) = if p == c then starts_with ps s else false

abbrev listed : Str → Files → Files
listed prefix [] = []
listed prefix ((k, v) ∷ s) =
    if starts_with prefix k then (k, v) ∷ listed prefix s else listed prefix s

abbrev read_file : Option Str → Result Str
read_file none = err not_found
read_file (some bytes) = ok bytes

-- a bucket that is a table of its blobs
abbrev pub table : Bucket Files
table = record {
  new_writer = λ name s. (none, s);
  write = λ name bytes s. (none, insert name bytes s);
  close_writer = λ name s. (none, s);
  read_all = λ name s. read_file (lookup name s);
  bucket_delete = λ name s. (none, remove name s);
  list = λ prefix delimiter s. record {
    objects = map (λ entry. record { key = entry.0; is_dir = false }) (listed prefix s);
    ended = none;
  };
  as_s3 = true;
  delete_objects = λ names s. (some (record { deleted = map (λ k. some k) names }), none, s);
}

pub table-reads :
    (name bytes : Str) (s : Files) → table.read_all name (insert name bytes s) ≡ ok bytes
table-reads name bytes s = rw (lookup-insert name name bytes s, eq_self name) refl

-- objects are their own names
abbrev pub pod_meta : ObjectMeta Str
pod_meta = record {
  get_api_version = λ u. codes "v1";
  get_kind = λ u. codes "Pod";
  get_namespace = λ u. codes "default";
  get_name = λ u. u;
  get_resource_version = λ u. codes "7";
}

abbrev pub env : Env Str Files
env = record {
  bucket = table;
  provider = mem_provider;
  meta = pod_meta;
  marshal = λ u. ok u;
  unmarshal = λ s. ok s;
  encrypter = none;
  delete_untracked = false;
  now = pos 0;
}

abbrev pub web : ℤ → Bool → RevisionFields
web v d = record {
  api_version = codes "v1";
  kind = codes "Pod";
  namespace = codes "default";
  name = codes "web";
  resource_version = v;
  revision_timestamp = pos 5_000_000_000;
  deleted = d;
}

-- revisions of one object
abbrev pub web_at : ℤ → Revision Str
web_at v = record { fields = web v false; body = concrete (codes "web") }

abbrev pub web_gone : ℤ → Revision Str
web_gone v = record { fields = web v true; body = concrete (codes "web") }

abbrev pub empty_store : RevisionStore Files
empty_store = record { backend = []; latest_cache = [] }
