-- ===== src/Controller/Operator/Dynamics.antt =====
-- `getDynamics` of pkg/controller/controller.go: the resources that are watched, and their namespaces.
pub mod Namespaces
use saiki.Prelude.{
  Bool, true, ◌&&◌, List, [], ◌∷◌, ◌++◌, none, some, if◌then◌else◌, Str, ◌==◌, str_eq, codes,
}
use saiki.Prelude.Dict.{Dict, lookup, insert}
use saiki.Golang.FilePath.{slash}
use saiki.Errors.{Result, ok, err, ◌>>=◌}
use saiki.Util.{slice_in}
use saiki.Controller.Policy.{BackupRule, matches}

-- `metav1.APIResource`, as far as it is read; `required_verbs` is what the verb predicate says of it
pub record ApiResource : Type 0 where
  pub name : Str
  pub kind : Str
  pub required_verbs : Bool

pub record ApiResourceList : Type 0 where
  pub group_version : Str
  pub api_resources : List ApiResource

-- `schema.ParseGroupVersion`, by its text, and the factory's clients
pub record Discovery (C : Type 0) : Type 0 where
  pub parse_group_version : Str → Result Str
  pub client_for : Str → ApiResource → Str → Result C
  pub client_namespace : C → Str

abbrev pub every_namespace : List Str → Bool
every_namespace [] = true
every_namespace (n ∷ ns) = n == codes "*"

module _ {C : Type 0} (d : Discovery C) where
  -- `dynamics`
  abbrev pub Dynamics : Type 0
  Dynamics = Dict Str (List C)

  abbrev pub clients_at : Str → Dynamics → List C
  clients_at k m = elim (lookup k m) [ none ↦ [] | some cs ↦ cs ]

  -- the clients of the namespaces that a rule names
  add_namespaces : Str → ApiResource → List Str → Dynamics → Result Dynamics
  add_namespaces gv a [] m = ok m
  add_namespaces gv a (n ∷ ns) m =
      let k = gv ++ (slash ∷ a.name) in
      elim (d.client_for gv a n) [
        | err e ↦ err e
        | ok c ↦ add_namespaces gv a ns (insert k (clients_at k m ++ (c ∷ [])) m)
      ]

  -- The loop over the rules: a rule for every namespace puts one client in place of all others, and
  -- ends the loop.
  add_resource :
      {U : Type 0} → Str → Str → ApiResource → List (BackupRule U) → Dynamics → Result Dynamics
  unfolding add_namespaces
  add_resource group_version gv a [] m = ok m
  add_resource group_version gv a (rule ∷ rules) m =
      let skipped = add_resource group_version gv a rules m in
      let cluster : Result Dynamics = (do
        c ← d.client_for gv a []
        ok (insert (gv ++ (slash ∷ a.name)) (c ∷ []) m)) in
      let namespaced : Result Dynamics = (do
        m' ← add_namespaces gv a rule.namespaces m
        add_resource group_version gv a rules m') in
      if matches rule.api_groups group_version && matches rule.resources a.name
      then (if every_namespace rule.namespaces then cluster else namespaced)
      else skipped

  add_resources :
      {U : Type 0} → Str → Str → List ApiResource → List (BackupRule U) → Dynamics → Result Dynamics
  unfolding add_resource
  add_resources group_version gv [] rules m = ok m
  add_resources group_version gv (a ∷ as') rules m =
      let skipped = add_resources group_version gv as' rules m in
      let added : Result Dynamics = (do
        m' ← add_resource group_version gv a rules m
        add_resources group_version gv as' rules m') in
      if a.required_verbs then added else skipped

  unfoldable pub add_lists :
      {U : Type 0} → List ApiResourceList → List (BackupRule U) → Dynamics → Result Dynamics
  unfolding add_resources
  add_lists [] rules m = ok m
  add_lists (r ∷ rs) rules m = do
    gv ← d.parse_group_version r.group_version
    m' ← add_resources r.group_version gv r.api_resources rules m
    add_lists rs rules m'

  -- the clients whose namespaces were not met before
  pub first_of_namespace : List Str → List C → List C
  first_of_namespace seen [] = []
  first_of_namespace seen (c ∷ cs) =
      let known = first_of_namespace seen cs in
      let fresh = first_of_namespace (d.client_namespace c ∷ seen) cs in
      if slice_in seen (d.client_namespace c) then known else c ∷ fresh

  pub all_clients : Dynamics → List C
  unfolding first_of_namespace
  all_clients [] = []
  all_clients ((k, cs) ∷ m) = first_of_namespace [] cs ++ all_clients m

  -- `getDynamics`
  unfoldable pub get_dynamics :
      {U : Type 0} → List ApiResourceList → List (BackupRule U) → Result (List C)
  unfolding add_lists all_clients
  get_dynamics api_resources rules = do m ← add_lists api_resources rules []; ok (all_clients m)
