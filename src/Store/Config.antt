-- ===== src/Store/Config.antt =====
-- pkg/store/config: the resource that a word on the command line means, and the stored configuration.
pub mod Mapped
use saiki.Prelude.{
  Bool, false, ◌||◌, List, [], ◌∷◌, ◌++◌, Option, none, some, if◌then◌else◌, Str, ◌==◌, str_eq,
  codes,
}
use saiki.Prelude.Int.{ℤ, pos, int_eq}
use saiki.Errors.{Error, external, Result, ok, err, ◌>>=◌}
use saiki.Util.{slice_in}
use saiki.Store.Backend.{Bucket, create, open_and_read}

-- `metav1.APIResource`, as far as it is read
pub record ApiResource : Type 0 where
  pub name : Str
  pub singular_name : Str
  pub kind : Str
  pub short_names : List Str
  pub namespaced : Bool

pub record ApiResourceList : Type 0 where
  pub group_version : Str
  pub api_resources : List ApiResource

pub record Config : Type 0 where
  pub resources : List ApiResourceList
  pub version : ℤ

-- the variables `potentialGroupVersion` and `potentialAPIResource`, or what was returned
pub data Mapping : Type 0 where
  potential : Str → ApiResource → Mapping
  returned : Str → ApiResource → Mapping

-- `strings.ToLower` and `schema.ParseGroupVersion`, which gives the group
module _ (to_lower : Str → Str) (parse_group : Str → Result Str) where
  -- the word is one of the names of the resource
  unfoldable pub is_named : Str → ApiResource → Bool
  is_named match a =
      to_lower a.kind == match
      || to_lower a.singular_name == match
      || to_lower a.name == match
      || slice_in a.short_names match

  -- the loop over the resources of a group version
  map_resources : Str → Str → Str → Mapping → List ApiResource → Mapping
  map_resources match gv group m [] = m
  map_resources match gv group m (a ∷ as') =
      let named = map_resources match gv group (potential gv a) as' in
      let other = map_resources match gv group m as' in
      if match == a.singular_name ++ (b'.' ∷ group)
      then returned gv a
      else if is_named match a
      then named
      else other

  map_lists : Str → Mapping → List ApiResourceList → Mapping
  unfolding map_resources
  map_lists match (returned gv a) lists = returned gv a
  map_lists match (potential gv a) [] = potential gv a
  map_lists match (potential gv a) (l ∷ lists) = elim (parse_group l.group_version) [
    | err e ↦ map_lists match (potential gv a) lists
    | ok group ↦
        map_lists match (map_resources match l.group_version group (potential gv a) l.api_resources)
          lists
  ]

  mapped : Str → Mapping → Result (Str × ApiResource)
  mapped resource (returned gv a) = ok (gv, a)
  mapped resource (potential gv a) =
      if a.kind == []
      then err (external (codes "the store doesn't have a resource type " ++ resource))
      else ok (gv, a)

  abbrev pub no_resource : ApiResource
  no_resource = record {
    name = [];
    singular_name = [];
    kind = [];
    short_names = [];
    namespaced = false;
  }

  -- `BestResourceMappingFor`
  unfoldable pub best_resource_mapping_for : Config → Str → Result (Str × ApiResource)
  unfolding map_lists mapped
  best_resource_mapping_for c resource =
      mapped resource (map_lists (to_lower resource) (potential [] no_resource) c.resources)

abbrev pub default_version : ℤ
default_version = pos 1

abbrev pub default_config : Str
default_config = codes "config.json"

-- `ReadConfig` and `WriteConfig` of inbackend_config.go, over the JSON codec
module _ {B : Type 0} (bucket : Bucket B) (encode : Config → Result Str)
    (decode : Str → Result Config) where
  unfoldable pub read_config : B → Result Config
  read_config s = do f ← open_and_read bucket default_config s; decode f

  encode_to : Config → B → Option Error × B
  encode_to config s = elim (encode config) [
    | err e ↦ (some e, s)
    | ok bytes ↦ bucket.write default_config bytes s
  ]

  -- The deferred `Close` runs on every path behind `Create`, and its error is dropped.
  unfoldable pub write_config : Config → B → Option Error × B
  unfolding encode_to
  write_config config s =
      let config' =
        if config.version == pos 0 then record config { version = default_version } else config in
      let (e, b) = create bucket default_config s in
      elim e [
        | some x ↦ (some x, b)
        | none ↦
            let (e', b') = encode_to config' b in (e', (bucket.close_writer default_config b').1)
      ]
