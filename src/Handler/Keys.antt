-- ===== src/Handler/Keys.antt =====
-- The keys of pkg/handler/resource.go tell the API version, the kind and the namespace apart.
use saiki.Prelude.{◌≡◌, refl, sym, subst, ap, ◌∙◌, List, [], ◌∷◌, ◌++◌, Str, codes}
use saiki.Golang.Strings.{split, join}
use saiki.Golang.FilePath.{slash, join_path}
use saiki.Golang.FilePath.Plain.{IsPlain}
use saiki.Store.Revision.Path.{
  Spells, Spells-plain, Spells-append, join_path-Spells, split-join, join-ne-nil,
}
use saiki.Store.Revision.RoundTrip.{
  IsApiVersion, core, grouped, IsNamespace, cluster_scoped, namespaced, v1-IsPlain,
  namespace_Spells, version_Spells,
}
use saiki.Handler.{handler_key}

-- An API version, a plain kind, and a namespace that is plain or not given.
pub record IsWatchable (v k n : Str) : Type 0 where
  pub version_parts : List Str
  pub version : IsApiVersion v version_parts
  pub kind : IsPlain k
  pub namespace_parts : List Str
  pub namespace : IsNamespace n namespace_parts

pub cluster-IsWatchable : (v k n : Str) → IsWatchable v k n → IsWatchable v k []
cluster-IsWatchable v k n h = record {
  version_parts = h.version_parts;
  version = h.version;
  kind = h.kind;
  namespace_parts = [];
  namespace = cluster_scoped refl;
}

key_Spells :
    (v k n : Str) (vs ns : List Str)
    → IsApiVersion v vs
    → IsPlain k
    → IsNamespace n ns
    → Spells (join slash (v ∷ k ∷ n ∷ [])) (vs ++ (k ∷ ns))
unfolding join
key_Spells v k n vs ns hv hk hn =
    Spells-append v (k ++ (slash ∷ n)) vs (k ∷ ns) (version_Spells v vs hv).0
      (Spells-append k n (k ∷ []) ns (Spells-plain k hk) (namespace_Spells n ns hn).0)

split-handler_key :
    (v k n : Str) (vs ns : List Str)
    → IsApiVersion v vs
    → IsPlain k
    → IsNamespace n ns
    → split slash (handler_key v k n) ≡ vs ++ (k ∷ ns)
split-handler_key v k n _ ns (core e) hk hn =
    let spells = key_Spells v k n _ ns (core e) hk hn in
    ap (λ x. split slash (join_path (x ∷ k ∷ n ∷ []))) e
    ∙ ap (split slash) (
        join_path-Spells (codes "v1") [] (k ∷ n ∷ []) (codes "v1" ∷ k ∷ ns) v1-IsPlain
          (subst (λ x. Spells (join slash (x ∷ k ∷ n ∷ [])) (codes "v1" ∷ k ∷ ns)) e spells)
          (join-ne-nil (codes "v1") (k ∷ ns) v1-IsPlain))
    ∙ split-join (codes "v1") (k ∷ ns) v1-IsPlain (hk, (namespace_Spells n ns hn).1)
split-handler_key v k n _ ns (grouped g w hg hw ne e) hk hn =
    let spells = key_Spells v k n _ ns (grouped g w hg hw ne e) hk hn in
    ap (λ x. split slash (join_path (x ∷ k ∷ n ∷ []))) e
    ∙ ap (split slash) (
        join_path-Spells g (slash ∷ w) (k ∷ n ∷ []) (g ∷ w ∷ k ∷ ns) hg
          (subst (λ x. Spells (join slash (x ∷ k ∷ n ∷ [])) (g ∷ w ∷ k ∷ ns)) e spells)
          (join-ne-nil g (w ∷ k ∷ ns) hg))
    ∙ split-join g (w ∷ k ∷ ns) hg (hw, (hk, (namespace_Spells n ns hn).1))

namespaces_eq :
    (n n' : Str) (ns ns' : List Str) → IsNamespace n ns → IsNamespace n' ns' → ns ≡ ns' → n ≡ n'
namespaces_eq n n' _ _ (cluster_scoped e) (cluster_scoped e') p = e ∙ sym e'
namespaces_eq n n' _ _ (cluster_scoped e) (namespaced h') p = absurd (cc p)
namespaces_eq n n' _ _ (namespaced h) (cluster_scoped e') p = absurd (cc p)
namespaces_eq n n' _ _ (namespaced h) (namespaced h') p = cc p

-- the parts of the key tell the three
parts_eq :
    (v k n v' k' n' : Str) (vs ns vs' ns' : List Str)
    → IsApiVersion v vs
    → IsNamespace n ns
    → IsApiVersion v' vs'
    → IsNamespace n' ns'
    → vs ++ (k ∷ ns) ≡ vs' ++ (k' ∷ ns')
    → (v ≡ v') × (k ≡ k') × (n ≡ n')
parts_eq v k n v' k' n' _ ns _ ns' (core e) hn (core e') hn' p =
    (e ∙ sym e', cc p, namespaces_eq n n' ns ns' hn hn' (cc p))
parts_eq v k n v' k' n' _ ns _ ns' (core e) hn (grouped g w hg hw ne e') hn' p = absurd (ne (cc p))
parts_eq v k n v' k' n' _ ns _ ns' (grouped g w hg hw ne e) hn (core e') hn' p = absurd (ne (cc p))
parts_eq v k n v' k' n' _ ns _ ns' (grouped g w hg hw ne e) hn (grouped g' w' hg' hw' ne' e') hn'
      p =
    (cc (p, e, e'), cc p, namespaces_eq n n' ns ns' hn hn' (cc p))

pub handler_key-injective :
    (v k n v' k' n' : Str)
    → IsWatchable v k n
    → IsWatchable v' k' n'
    → handler_key v k n ≡ handler_key v' k' n'
    → (v ≡ v') × (k ≡ k') × (n ≡ n')
handler_key-injective v k n v' k' n' h h' e =
    parts_eq v k n v' k' n' h.version_parts h.namespace_parts h'.version_parts h'.namespace_parts
      h.version h.namespace h'.version h'.namespace
      (sym (split-handler_key v k n h.version_parts h.namespace_parts h.version h.kind h.namespace)
        ∙ ap (split slash) e
        ∙ split-handler_key v' k' n' h'.version_parts h'.namespace_parts h'.version h'.kind
            h'.namespace)
