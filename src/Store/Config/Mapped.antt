-- ===== src/Store/Config/Mapped.antt =====
-- Which resource a word means, by `BestResourceMappingFor` of pkg/store/config/config.go.
use saiki.Prelude.{◌≡◌, ◌⊎◌, true, List, [], ◌∷◌, ◌++◌, Str, str_eq, In}
use saiki.Errors.{Result, ok}
use saiki.Store.Config.{
  ApiResource, ApiResourceList, Config, Mapping, potential, returned, is_named,
}

module _ (to_lower : Str → Str) (parse_group : Str → Result Str) (lists : List ApiResourceList)
    (word : Str) where
  -- A list of the configuration has the group version and the resource, and the word is one of the
  -- resource's names, or its singular name with the group.
  abbrev pub Named : Str → ApiResource → Type 0
  Named gv a =
      (l : ApiResourceList) × (group : Str) × In l lists
      × (l.group_version ≡ gv)
      × In a l.api_resources
      × (parse_group gv ≡ ok group)
      × ((is_named to_lower parse_group word a ≡ true) ⊎ (word ≡ a.singular_name ++ (b'.' ∷ group)))

  abbrev Backed : Mapping → Type 0
  Backed (potential gv a) = (a.kind ≡ []) ⊎ Named gv a
  Backed (returned gv a) = Named gv a
