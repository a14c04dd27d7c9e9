-- ===== src/Store/Revision/KeyParts.antt =====
-- The key of a revision of pkg/store/revision.go as its directory and the name of its file.
use saiki.Prelude.{
  ◌≡◌, sym, ap, ◌∙◌, Bool, true, false, List, [], ◌∷◌, ◌++◌, append_assoc, if◌then◌else◌, Str,
  codes, All, All-append,
}
use saiki.Golang.Strings.{split, join, join-split}
use saiki.Golang.Strconv.{itoa}
use saiki.Golang.Time.{to_unix}
use saiki.Golang.FilePath.{slash}
use saiki.Golang.FilePath.Plain.{IsPlain}
use saiki.Golang.FilePath.Under.{slashed, join-slashed}
use saiki.Store.Revision.{RevisionFields, key, revision_key}
use saiki.Store.Revision.FileName.{revision_key-IsPlain}
use saiki.Store.Revision.RoundTrip.{
  IsStorable, IsApiVersion, core, grouped, dir_parts, v1-IsPlain, namespace_Spells, tail-IsPlain,
  split-key,
}

-- the parts of the path of a key, all plain, and the last of which names the file
pub record KeyParts (r : RevisionFields) : Type 0 where
  pub first : Str
  pub others : List Str
  pub splits : split slash (key r) ≡ (first ∷ others) ++ (revision_key r ∷ [])
  pub plain : All IsPlain ((first ∷ others) ++ (revision_key r ∷ []))

parts_of :
    (r : RevisionFields) (vs ns : List Str)
    → IsApiVersion r.api_version vs
    → All IsPlain ns
    → IsPlain r.kind
    → IsPlain r.name
    → IsPlain (revision_key r)
    → split slash (key r) ≡ dir_parts r vs ns ++ (revision_key r ∷ [])
    → KeyParts r
parts_of r _ ns (core e) hns hk hm hf s = record {
  first = codes "v1";
  others = r.kind ∷ (ns ++ (r.name ∷ []));
  splits = s;
  plain = (
    v1-IsPlain,
    All-append IsPlain (r.kind ∷ (ns ++ (r.name ∷ []))) _ (tail-IsPlain r ns hns hk hm) (hf, tt),
  );
}
parts_of r _ ns (grouped g w hg hw ne e) hns hk hm hf s = record {
  first = g;
  others = w ∷ r.kind ∷ (ns ++ (r.name ∷ []));
  splits = s;
  plain = (
    hg,
    (
      hw,
      All-append IsPlain (r.kind ∷ (ns ++ (r.name ∷ []))) _ (tail-IsPlain r ns hns hk hm) (hf, tt),
    ),
  );
}

pub IsStorable-KeyParts : (r : RevisionFields) → IsStorable r → KeyParts r
IsStorable-KeyParts r h =
    let file = revision_key-IsPlain r h.resource_version h.seconds h.version_eq h.seconds_eq in
    parts_of r h.version_parts h.namespace_parts h.version
      (namespace_Spells r.namespace h.namespace_parts h.namespace).1 h.kind h.name file
      (split-key r h.version_parts h.namespace_parts h.version h.namespace h.kind h.name file)

-- the directory of a key, with a slash at its end
pub directory : {r : RevisionFields} → KeyParts r → Str
directory k = slashed (k.first ∷ k.others)

pub key-directory : (r : RevisionFields) (k : KeyParts r) → key r ≡ directory k ++ revision_key r
unfolding directory join
key-directory r k =
    sym (join-split slash (key r))
    ∙ ap (join slash) k.splits
    ∙ join-slashed (k.first ∷ k.others) (revision_key r) []

-- A key is what stands before its extension, and that.
abbrev pub body : (r : RevisionFields) → Str → Str
body r d =
    let stem = itoa r.resource_version ++ (b'-' ∷ itoa (to_unix r.revision_timestamp)) in
    d ++ (if r.deleted then stem ++ codes ".json" else stem)

abbrev pub extension : RevisionFields → Str
extension r = if r.deleted then codes "deleted" else codes "json"

regrouped :
    (b : Bool) (d s : Str)
    → d ++ (if b then s ++ codes ".json.deleted" else s ++ codes ".json")
      ≡ (d ++ (if b then s ++ codes ".json" else s))
        ++ (b'.' ∷ (if b then codes "deleted" else codes "json"))
regrouped true d s = simp append_assoc
regrouped false d s = simp append_assoc

pub key-body :
    (r : RevisionFields) (k : KeyParts r) → key r ≡ body r (directory k) ++ (b'.' ∷ extension r)
unfolding revision_key
key-body r k =
    key-directory r k
    ∙ regrouped r.deleted (directory k)
        (itoa r.resource_version ++ (b'-' ∷ itoa (to_unix r.revision_timestamp)))
