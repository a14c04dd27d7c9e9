-- ===== src/Store/Revision/RoundTrip.antt =====
-- Keys read back: what `parse_lazy_loading_revision` makes of the key of a revision.
use saiki.Prelude.{
  ℕ, ◌<◌, ◌^◌, ◌≡◌, ◌≢◌, refl, subst, List, [], ◌∷◌, ◌++◌, append-nil, arith, Str, codes, str_eq,
  str_beq_iff, All, All-append,
}
use saiki.Prelude.Int.{pos}
use saiki.Golang.Strings.{split, join}
use saiki.Golang.FilePath.{slash, clean, join_path}
use saiki.Golang.FilePath.Plain.{IsPlain}
use saiki.Golang.Time.{unix, to_unix, to_unix-unix}
use saiki.Errors.{ok}
use saiki.Store.Revision.{
  RevisionFields, resource_key, revision_key, revision_key_of, key, parse_file, parse_split,
  with_group, parse_namespaced_revision, parse_cluster_scoped_revision, parse_lazy_loading_revision,
  unloaded,
}
use saiki.Store.Revision.Path.{
  Spells, Spells-nil, Spells-plain, Spells-append, Spells-join, join_path-Spells, split-join,
  join-ne-nil,
}
use saiki.Store.Revision.FileName.{parse_file-revision_key, revision_key-IsPlain}

-- The core group's `v1`, or a group, which is not named `v1`, and a version.
pub data IsApiVersion (v : Str) : List Str → Type 0 where
  core : v ≡ codes "v1" → IsApiVersion v (codes "v1" ∷ [])
  grouped :
      (group version : Str)
      → IsPlain group
      → IsPlain version
      → group ≢ codes "v1"
      → v ≡ group ++ (slash ∷ version)
      → IsApiVersion v (group ∷ version ∷ [])

-- No namespace, or a plain one.
pub data IsNamespace (n : Str) : List Str → Type 0 where
  cluster_scoped : n ≡ [] → IsNamespace n []
  namespaced : IsPlain n → IsNamespace n (n ∷ [])

-- Fields as Kubernetes gives them: the names are plain, the numbers fit int64 and are not negative.
pub record IsStorable (r : RevisionFields) : Type 0 where
  pub version_parts : List Str
  pub version : IsApiVersion r.api_version version_parts
  pub kind : IsPlain r.kind
  pub namespace_parts : List Str
  pub namespace : IsNamespace r.namespace namespace_parts
  pub name : IsPlain r.name
  pub resource_version : ℕ
  pub version_eq : r.resource_version ≡ pos resource_version
  pub version_fits : resource_version < 2 ^ 63
  pub seconds : ℕ
  pub seconds_eq : to_unix r.revision_timestamp ≡ pos seconds
  pub seconds_fit : seconds < 2 ^ 63

pub v1-IsPlain : IsPlain (codes "v1")
v1-IsPlain = record {
  not_empty = λ e. cc;
  not_dot = λ e. cc;
  not_dot_dot = λ e. cc;
  one_part = omega arith;
}

-- the parts of the path of the revision's directory
abbrev pub dir_parts : (r : RevisionFields) → List Str → List Str → List Str
dir_parts r vs ns = vs ++ (r.kind ∷ (ns ++ (r.name ∷ [])))

pub namespace_Spells : (n : Str) (ns : List Str) → IsNamespace n ns → Spells n ns × All IsPlain ns
namespace_Spells n _ (cluster_scoped e) = (rw e Spells-nil, tt)
namespace_Spells n _ (namespaced h) = (Spells-plain n h, (h, tt))

pub version_Spells : (v : Str) (vs : List Str) → IsApiVersion v vs → Spells v vs × All IsPlain vs
version_Spells v _ (core e) = (rw e (Spells-plain (codes "v1") v1-IsPlain), (v1-IsPlain, tt))
version_Spells v _ (grouped g w hg hw ne e) = (
  rw e (Spells-append g w (g ∷ []) (w ∷ []) (Spells-plain g hg) (Spells-plain w hw)),
  (hg, (hw, tt)),
)

module _ (r : RevisionFields) (vs ns : List Str) (hk : IsPlain r.kind) (hm : IsPlain r.name) where
  elements_Spells :
      Spells r.api_version vs
      → Spells r.namespace ns
      → Spells (join slash (r.api_version ∷ r.kind ∷ r.namespace ∷ r.name ∷ [])) (dir_parts r vs ns)
  unfolding join
  elements_Spells hv hn =
      Spells-append r.api_version (r.kind ++ (slash ∷ (r.namespace ++ (slash ∷ r.name)))) vs
        (r.kind ∷ (ns ++ (r.name ∷ []))) hv
        (Spells-append r.kind (r.namespace ++ (slash ∷ r.name)) (r.kind ∷ []) (ns ++ (r.name ∷ []))
          (Spells-plain r.kind hk)
          (Spells-append r.namespace r.name ns (r.name ∷ []) hn (Spells-plain r.name hm)))

resource_key_lem :
    (r : RevisionFields) (vs ns : List Str)
    → IsApiVersion r.api_version vs
    → IsNamespace r.namespace ns
    → IsPlain r.kind
    → IsPlain r.name
    → resource_key r ≡ join slash (dir_parts r vs ns)
unfolding resource_key
resource_key_lem r _ ns (core e) hn hk hm = rw e (
    join_path-Spells (codes "v1") [] (r.kind ∷ r.namespace ∷ r.name ∷ [])
      (dir_parts r (codes "v1" ∷ []) ns) v1-IsPlain
      (rw e at (
        elements_Spells r (codes "v1" ∷ []) ns hk hm (version_Spells r.api_version _ (core e)).0
          (namespace_Spells r.namespace ns hn).0))
      (join-ne-nil (codes "v1") _ v1-IsPlain))
resource_key_lem r _ ns (grouped g w hg hw ne e) hn hk hm = rw e (
    join_path-Spells g (slash ∷ w) (r.kind ∷ r.namespace ∷ r.name ∷ [])
      (dir_parts r (g ∷ w ∷ []) ns) hg
      (rw e at (
        elements_Spells r (g ∷ w ∷ []) ns hk hm
          (version_Spells r.api_version _ (grouped g w hg hw ne e)).0
          (namespace_Spells r.namespace ns hn).0))
      (join-ne-nil g _ hg))

append_key :
    (x y : Str) (zs : List Str) (k : Str)
    → IsPlain x
    → All IsPlain (y ∷ zs)
    → IsPlain k
    → revision_key_of (join slash (x ∷ y ∷ zs)) k ≡ join slash ((x ∷ y ∷ zs) ++ (k ∷ []))
unfolding join
append_key x y zs k hx h hk =
    join_path-Spells x (slash ∷ join slash (y ∷ zs)) (k ∷ []) ((x ∷ y ∷ zs) ++ (k ∷ [])) hx
      (Spells-append (join slash (x ∷ y ∷ zs)) k (x ∷ y ∷ zs) (k ∷ []) (Spells-join x (y ∷ zs) hx h)
        (Spells-plain k hk))
      (join-ne-nil x ((y ∷ zs) ++ (k ∷ [])) hx)

pub tail-IsPlain :
    (r : RevisionFields) (ns : List Str)
    → All IsPlain ns
    → IsPlain r.kind
    → IsPlain r.name
    → All IsPlain (r.kind ∷ (ns ++ (r.name ∷ [])))
tail-IsPlain r ns hns hk hm = (hk, All-append IsPlain ns (r.name ∷ []) hns (hm, tt))

-- The parts of the key of a storable revision are those of its directory, and its file's name.
pub split-key :
    (r : RevisionFields) (vs ns : List Str)
    → IsApiVersion r.api_version vs
    → IsNamespace r.namespace ns
    → IsPlain r.kind
    → IsPlain r.name
    → IsPlain (revision_key r)
    → split slash (key r) ≡ dir_parts r vs ns ++ (revision_key r ∷ [])
unfolding key
split-key r _ ns (core e) hn hk hm hf =
    let hns = (namespace_Spells r.namespace ns hn).1 in
    let rest = tail-IsPlain r ns hns hk hm in
    rw (resource_key_lem r (codes "v1" ∷ []) ns (core e) hn hk hm) (
      rw (append_key (codes "v1") r.kind (ns ++ (r.name ∷ [])) (revision_key r) v1-IsPlain rest hf)
        (split-join (codes "v1") ((r.kind ∷ (ns ++ (r.name ∷ []))) ++ (revision_key r ∷ []))
          v1-IsPlain
          (All-append IsPlain (r.kind ∷ (ns ++ (r.name ∷ []))) (revision_key r ∷ []) rest
            (hf, tt))))
split-key r _ ns (grouped g w hg hw ne e) hn hk hm hf =
    let hns = (namespace_Spells r.namespace ns hn).1 in
    let rest : All IsPlain (w ∷ r.kind ∷ (ns ++ (r.name ∷ []))) =
      (hw, tail-IsPlain r ns hns hk hm) in
    rw (resource_key_lem r (g ∷ w ∷ []) ns (grouped g w hg hw ne e) hn hk hm) (
      rw (append_key g w (r.kind ∷ (ns ++ (r.name ∷ []))) (revision_key r) hg rest hf) (
        split-join g ((w ∷ r.kind ∷ (ns ++ (r.name ∷ []))) ++ (revision_key r ∷ [])) hg (
          All-append IsPlain (w ∷ r.kind ∷ (ns ++ (r.name ∷ []))) (revision_key r ∷ []) rest
            (hf, tt))))

-- what a parsed revision knows: a timestamp of whole seconds
abbrev pub to_seconds : RevisionFields → RevisionFields
to_seconds r = record r { revision_timestamp = unix (to_unix r.revision_timestamp) }

abbrev joined : List Str → Str
joined ps = join_path ps

core_version : join_path ([] ∷ codes "v1" ∷ []) ≡ codes "v1"
unfolding join_path clean join split
core_version = refl

group_version : (g w : Str) → IsPlain g → IsPlain w → join_path (g ∷ w ∷ []) ≡ g ++ (slash ∷ w)
unfolding join
group_version g w hg hw =
    let spelled : Spells (join slash ((g ++ []) ∷ w ∷ [])) (g ∷ w ∷ []) =
      rw (append-nil g) (Spells-join g (w ∷ []) hg (hw, tt)) in
    subst (λ (v : Str). join_path (v ∷ w ∷ []) ≡ g ++ (slash ∷ w)) (append-nil g)
      (join_path-Spells g [] (w ∷ []) (g ∷ w ∷ []) hg spelled (join-ne-nil g (w ∷ []) hg))

-- what the parser makes of the parts, by the group and the scope
parse_dir_parts :
    (r : RevisionFields) (vs ns : List Str) (path : Str)
    → IsApiVersion r.api_version vs
    → IsNamespace r.namespace ns
    → parse_file (revision_key r)
      ≡ ok (r.resource_version, unix (to_unix r.revision_timestamp), r.deleted)
    → parse_split path (with_group (dir_parts r vs ns ++ (revision_key r ∷ []))) ≡ ok (to_seconds r)
unfolding parse_split with_group parse_namespaced_revision parse_cluster_scoped_revision
parse_dir_parts r _ _ path (core e) (cluster_scoped n) h = rw (h, core_version) (cc (e, n))
parse_dir_parts r _ _ path (core e) (namespaced n) h = rw (h, core_version) (cc e)
parse_dir_parts r _ _ path (grouped g w hg hw ne e) (cluster_scoped n) h =
    ground (arith, h, ne, str_beq_iff g (codes "v1"), group_version g w hg hw, e, n)
parse_dir_parts r _ _ path (grouped g w hg hw ne e) (namespaced n) h =
    ground (arith, h, ne, str_beq_iff g (codes "v1"), group_version g w hg hw, e)

-- A parsed revision has the keys of the revision whose key it was parsed from.
pub key-to_seconds :
    (r : RevisionFields)
    → (key (to_seconds r) ≡ key r) × (resource_key (to_seconds r) ≡ resource_key r)
unfolding key resource_key revision_key
key-to_seconds r = (rw (to_unix-unix (to_unix r.revision_timestamp)), refl)

module _ {U : Type 0} where
  -- The key of a storable revision is parsed to a lazy revision with the same fields, its timestamp
  -- cut to whole seconds; the core group and the others, namespaced or not, live or deleted.
  pub parse-key :
      (r : RevisionFields)
      → IsStorable r
      → parse_lazy_loading_revision {U = U} (key r)
        ≡ ok (record { fields = to_seconds r; body = unloaded })
  unfolding parse_lazy_loading_revision
  parse-key r h =
      let file = revision_key-IsPlain r h.resource_version h.seconds h.version_eq h.seconds_eq in
      let parsed =
        parse_file-revision_key r h.resource_version h.seconds h.version_eq h.version_fits
          h.seconds_eq h.seconds_fit in
      rw (split-key r h.version_parts h.namespace_parts h.version h.namespace h.kind h.name file) (
        rw
          (parse_dir_parts r h.version_parts h.namespace_parts (key r) h.version h.namespace parsed)
          refl)
