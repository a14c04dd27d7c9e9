-- ===== src/Controller/Operator/Dynamics/Namespaces.antt =====
-- The namespaces of the clients that `getDynamics` of pkg/controller/controller.go returns.
use saiki.Prelude.{
  ◌≡◌, ◌≢◌, refl, sym, subst, ap, ◌∙◌, ◌⊎◌, inl, inr, Bool, true, false, List, [], ◌∷◌, ◌++◌,
  if◌then◌else◌, Str, ◌==◌, str_eq, str_beq_iff, All, All-mono, In, here, there, Bool-cases,
}
use saiki.Errors.{ok, >>=-eq-ok, ok-injective}
use saiki.Util.{slice_in}
use saiki.Controller.Policy.{BackupRule}
use saiki.Controller.Operator.Dynamics.{
  ApiResourceList, Discovery, Dynamics, first_of_namespace, all_clients, get_dynamics, add_lists,
}

-- no namespace of the haystack is asked for again
not_seen :
    (haystack : List Str) (s needle : Str)
    → slice_in (s ∷ haystack) needle ≡ false
    → (needle ≢ s) × (slice_in haystack needle ≡ false)
unfolding slice_in
not_seen haystack s needle h = elim (Bool-cases (needle == s)) [
  | inl y ↦ absurd (cc (sym h ∙ ap (λ b. if b then true else slice_in haystack needle) y))
  | inr n ↦ (
    (λ e. cc (n, (str_beq_iff needle s).1 e)),
    ap (λ b. if b then true else slice_in haystack needle) (sym n) ∙ h,
  )
]

module _ {C : Type 0} (d : Discovery C) where
  -- no two clients are of one namespace
  abbrev pub Distinct : List C → Type 0
  Distinct [] = Unit
  Distinct (c ∷ cs) = All (λ c'. d.client_namespace c' ≢ d.client_namespace c) cs × Distinct cs

  abbrev Unseen : List Str → List C → Type 0
  Unseen seen = All (λ c. slice_in seen (d.client_namespace c) ≡ false)

  first_of_namespace-Distinct :
      (seen : List Str) (cs : List C)
      → Unseen seen (first_of_namespace d seen cs) × Distinct (first_of_namespace d seen cs)
  unfolding first_of_namespace
  first_of_namespace-Distinct seen [] = (tt, tt)
  first_of_namespace-Distinct seen (c ∷ cs) =
      go (slice_in seen (d.client_namespace c)) refl (first_of_namespace-Distinct seen cs)
        (first_of_namespace-Distinct (d.client_namespace c ∷ seen) cs)
    where
      ns : Str
      ns = d.client_namespace c

      fresh : List C
      fresh = first_of_namespace d (ns ∷ seen) cs

      go :
          (b : Bool)
          → slice_in seen ns ≡ b
          → Unseen seen (first_of_namespace d seen cs) × Distinct (first_of_namespace d seen cs)
          → Unseen (ns ∷ seen) fresh × Distinct fresh
          → Unseen seen (if b then first_of_namespace d seen cs else c ∷ fresh)
            × Distinct (if b then first_of_namespace d seen cs else c ∷ fresh)
      go true e known h = known
      go false e known (unseen, distinct) = (
        (e, All-mono _ _ fresh (λ c' u. (not_seen seen ns (d.client_namespace c') u).1) unseen),
        (
          All-mono _ _ fresh (λ c' u. (not_seen seen ns (d.client_namespace c') u).0) unseen,
          distinct,
        ),
      )

  -- a client of the same namespace
  abbrev Represented : List C → C → Type 0
  Represented group c = (c' : C) × In c' group × (d.client_namespace c' ≡ d.client_namespace c)

  abbrev Covered : List Str → List C → C → Type 0
  Covered seen group c = (slice_in seen (d.client_namespace c) ≡ true) ⊎ Represented group c

  seen_or_same :
      (seen : List Str) (c c' : C) (group : List C)
      → Covered (d.client_namespace c ∷ seen) group c'
      → Covered seen (c ∷ group) c'
  unfolding slice_in
  seen_or_same seen c c' group (inr (x, i, e)) = inr (x, there i, e)
  seen_or_same seen c c' group (inl h) =
      elim (Bool-cases (d.client_namespace c' == d.client_namespace c)) [
        | inl y ↦
            inr (c, here, sym ((str_beq_iff (d.client_namespace c') (d.client_namespace c)).0 y))
        | inr n ↦
            inl (ap (λ b. if b then true else slice_in seen (d.client_namespace c')) (sym n) ∙ h)
      ]

  first_of_namespace-Covered :
      (seen : List Str) (cs : List C) → All (Covered seen (first_of_namespace d seen cs)) cs
  unfolding first_of_namespace
  first_of_namespace-Covered seen [] = tt
  first_of_namespace-Covered seen (c ∷ cs) =
      go (slice_in seen (d.client_namespace c)) refl (first_of_namespace-Covered seen cs)
        (first_of_namespace-Covered (d.client_namespace c ∷ seen) cs)
    where
      fresh : List C
      fresh = first_of_namespace d (d.client_namespace c ∷ seen) cs

      go :
          (b : Bool)
          → slice_in seen (d.client_namespace c) ≡ b
          → All (Covered seen (first_of_namespace d seen cs)) cs
          → All (Covered (d.client_namespace c ∷ seen) fresh) cs
          → All (Covered seen (if b then first_of_namespace d seen cs else c ∷ fresh)) (c ∷ cs)
      go true e known h = (inl e, known)
      go false e known h =
          (inr (c, here, refl), All-mono _ _ cs (λ c' k. seen_or_same seen c c' fresh k) h)

  first_of_namespace-In :
      (seen : List Str) (cs : List C) → All (λ c. In c cs) (first_of_namespace d seen cs)
  unfolding first_of_namespace
  first_of_namespace-In seen [] = tt
  first_of_namespace-In seen (c ∷ cs) =
      go (slice_in seen (d.client_namespace c)) (first_of_namespace-In seen cs)
        (first_of_namespace-In (d.client_namespace c ∷ seen) cs)
    where
      fresh : List C
      fresh = first_of_namespace d (d.client_namespace c ∷ seen) cs

      go :
          (b : Bool)
          → All (λ x. In x cs) (first_of_namespace d seen cs)
          → All (λ x. In x cs) fresh
          → All (λ x. In x (c ∷ cs)) (if b then first_of_namespace d seen cs else c ∷ fresh)
      go true known f = All-mono _ _ (first_of_namespace d seen cs) (λ x i. there i) known
      go false known f = (here, All-mono _ _ fresh (λ x i. there i) f)

  -- The clients of one resource: some of those asked for, no two of one namespace,
  -- and one for each namespace that these have.
  abbrev pub Reduces : List C → List C → Type 0
  Reduces cs group = All (λ c. In c cs) group × Distinct group × All (Represented group) cs

  Covered-by_none : (group : List C) (c : C) → Covered [] group c → Represented group c
  unfolding slice_in
  Covered-by_none group c (inl h) = cc
  Covered-by_none group c (inr r) = r

  -- the clients are those of the resources of the map, one after the other
  abbrev pub AllReduced : Dynamics d → List C → Type 0
  AllReduced [] clients = clients ≡ []
  AllReduced ((k, cs) ∷ m) clients =
      (group rest : List C) × (clients ≡ group ++ rest) × Reduces cs group × AllReduced m rest

  all_clients-AllReduced : (m : Dynamics d) → AllReduced m (all_clients d m)
  unfolding all_clients
  all_clients-AllReduced [] = refl
  all_clients-AllReduced ((k, cs) ∷ m) = (
    first_of_namespace d [] cs,
    all_clients d m,
    refl,
    (
      first_of_namespace-In [] cs,
      (first_of_namespace-Distinct [] cs).1,
      All-mono _ _ cs (λ c h. Covered-by_none (first_of_namespace d [] cs) c h)
          (first_of_namespace-Covered [] cs),
    ),
    all_clients-AllReduced m,
  )

  -- The clients that are watched are, resource by resource, among those that the rules of the policy
  -- ask for: one for each namespace of these, and no two of one resource are of the same namespace.
  pub get_dynamics-AllReduced :
      {U : Type 0} (resources : List ApiResourceList) (rules : List (BackupRule U))
      (clients : List C)
      → get_dynamics d resources rules ≡ ok clients
      → (m : Dynamics d) × (add_lists d resources rules [] ≡ ok m) × AllReduced m clients
  unfolding get_dynamics
  get_dynamics-AllReduced resources rules clients e =
      let (m, e', q) = >>=-eq-ok (add_lists d resources rules []) (λ m. ok (all_clients d m)) e in
      (m, e', subst (AllReduced m) (ok-injective q) (all_clients-AllReduced m))
