-- ===== src/Store/Revision.antt =====
-- pkg/store/revision.go: revisions, their keys, and the parser of keys.
pub mod Lazy
pub mod KeyParts
pub mod Path
pub mod FileName
pub mod RoundTrip
pub mod NoSkip
use saiki.Prelude.{
  ◌≡◌, Bool, true, false, List, [], ◌∷◌, ◌++◌, Option, none, some, if◌then◌else◌, Str, ◌==◌, str_eq,
  codes,
}
use saiki.Prelude.Int.{ℤ, ltb_ℤ}
use saiki.Golang.Strings.{split, has_suffix}
use saiki.Golang.Strconv.{NumError, itoa, atoi}
use saiki.Golang.FilePath.{slash, join_path}
use saiki.Golang.Time.{Time, unix, to_unix}
use saiki.Errors.{Result, ok, err, ◌>>=◌, invalid_path, bad_filename, bad_number}

-- The struct `revision`.
pub record RevisionFields : Type 0 where
  pub api_version : Str
  pub kind : Str
  pub namespace : Str
  pub name : Str
  pub resource_version : ℤ
  pub revision_timestamp : Time
  pub deleted : Bool

-- A `ConcreteRevision` has its object; a `LazyLoadingRevision` reads it from its store, once.
pub data Body (U : Type 0) : Type 0 where
  concrete : U → Body U
  unloaded : Body U
  loaded : U → Body U

-- A value of the interface `Revision`, over the type of Kubernetes objects.
pub record Revision (U : Type 0) : Type 0 where
  pub fields : RevisionFields
  pub open fields use *
  pub body : Body U

-- what the program reads of an `unstructured.Unstructured`
pub record ObjectMeta (U : Type 0) : Type 0 where
  pub get_api_version : U → Str
  pub get_kind : U → Str
  pub get_namespace : U → Str
  pub get_name : U → Str
  pub get_resource_version : U → Str

abbrev pub resource_key_of : Str → Str → Str → Str → Str
resource_key_of api_version kind namespace name =
    join_path (api_version ∷ kind ∷ namespace ∷ name ∷ [])

abbrev pub revision_key_of : Str → Str → Str
revision_key_of resource_key revision_key = join_path (resource_key ∷ revision_key ∷ [])

unfoldable pub key_prefix_for_api_version_kind_namespace : Str → Str → Str → Str
key_prefix_for_api_version_kind_namespace api_version kind namespace =
    join_path (api_version ∷ kind ∷ namespace ∷ [])

unfoldable pub key_prefix_for_api_version_kind : Str → Str → Str
key_prefix_for_api_version_kind api_version kind = join_path (api_version ∷ kind ∷ [])

unfoldable pub key_prefix_for_api_version : Str → Str
key_prefix_for_api_version api_version = api_version

unfoldable pub resource_key : RevisionFields → Str
resource_key r = resource_key_of r.api_version r.kind r.namespace r.name

unfoldable pub revision_key : RevisionFields → Str
revision_key r =
    let stem = itoa r.resource_version ++ (b'-' ∷ itoa (to_unix r.revision_timestamp)) in
    if r.deleted then stem ++ codes ".json.deleted" else stem ++ codes ".json"

unfoldable pub key : RevisionFields → Str
key r = revision_key_of (resource_key r) (revision_key r)

abbrev pub set_deleted : {U : Type 0} → Bool → Revision U → Revision U
set_deleted d r = record r { fields = record r.fields { deleted = d } }

-- `RevisionFrom` takes whatever number `Atoi` returned, also beside an error.
unfoldable pub revision_from : {U : Type 0} → ObjectMeta U → Time → U → Revision U
revision_from meta now u = record {
  fields = record {
    api_version = meta.get_api_version u;
    kind = meta.get_kind u;
    namespace = meta.get_namespace u;
    name = meta.get_name u;
    resource_version = (atoi (meta.get_resource_version u)).1;
    revision_timestamp = now;
    deleted = false;
  };
  body = concrete u;
}

checked : Str → Option NumError × ℤ → Result ℤ
checked s (none, n) = ok n
checked s (some e, n) = err (bad_number s)

-- the part of a text before the first separator: `strings.Split(s, sep)[0]`
first_part : List Str → Str
first_part [] = []
first_part (p ∷ ps) = p

-- The file's name: the resource version, a dash, the timestamp, and `.json` or `.json.deleted`.
parse_parts : Str → List Str → Result (ℤ × Time × Bool)
unfolding checked first_part
parse_parts file (resource_version ∷ suffix ∷ rest) = do
  timestamp ← checked file (atoi (first_part (split b'.' suffix)))
  rv ← checked file (atoi resource_version)
  ok (rv, unix timestamp, has_suffix suffix (codes "deleted"))
parse_parts file _ = err (bad_filename file)

pub parse_file : Str → Result (ℤ × Time × Bool)
parse_file file = parse_parts file (split b'-' file)

parse_namespaced_revision : Str → Str → Str → Str → Str → Str → Result RevisionFields
unfolding parse_file
parse_namespaced_revision group version kind namespace name file = do
  (rv, timestamp, deleted) ← parse_file file
  ok (record {
    api_version = join_path (group ∷ version ∷ []);
    kind = kind;
    namespace = namespace;
    name = name;
    resource_version = rv;
    revision_timestamp = timestamp;
    deleted = deleted;
  })

parse_cluster_scoped_revision : Str → Str → Str → Str → Str → Result RevisionFields
unfolding parse_file
parse_cluster_scoped_revision group version kind name file = do
  (rv, timestamp, deleted) ← parse_file file
  ok (record {
    api_version = join_path (group ∷ version ∷ []);
    kind = kind;
    namespace = [];
    name = name;
    resource_version = rv;
    revision_timestamp = timestamp;
    deleted = deleted;
  })

-- by the depth of the path
parse_split : Str → List Str → Result RevisionFields
parse_split path (group ∷ version ∷ kind ∷ name ∷ file ∷ []) =
    parse_cluster_scoped_revision group version kind name file
parse_split path (group ∷ version ∷ kind ∷ namespace ∷ name ∷ file ∷ []) =
    parse_namespaced_revision group version kind namespace name file
parse_split path _ = err (invalid_path path)

-- The core group has no name: it is put in front as an empty part.
with_group : List Str → List Str
with_group [] = []
with_group (p ∷ ps) = if p == codes "v1" then [] ∷ p ∷ ps else p ∷ ps

unfoldable pub parse_lazy_loading_revision : {U : Type 0} → Str → Result (Revision U)
unfolding parse_split with_group parse_namespaced_revision parse_cluster_scoped_revision parse_parts
parse_lazy_loading_revision path = do
  fields ← parse_split path (with_group (split slash path))
  ok (record { fields = fields; body = unloaded })
