-- ===== src/Cmd/State/FileNames.antt =====
-- The names of the files that the subcommand `state` of cmd/state.go writes.
use mathlib.Core.List.{append_cancel_left, append_cancel_right}
use saiki.Prelude.{
  ℕ, ◌≡◌, ◌≢◌, refl, sym, ap, ◌∙◌, Bool, true, false, [], ◌∷◌, ◌++◌, append_assoc, arith,
  if◌then◌else◌, Str, codes, All,
}
use saiki.Prelude.Int.{pos}
use saiki.Golang.Strings.{trim_suffix}
use saiki.Golang.Strconv.{itoa}
use saiki.Golang.Strconv.RoundTrip.{IsDigit, itoa-IsDigit, itoa-ne-nil}
use saiki.Golang.Time.{to_unix}
use saiki.Golang.FilePath.{join_path, ext}
use saiki.Golang.FilePath.Under.{before, join_path-before}
use saiki.Golang.FilePath.Extension.{InExtension, ext-append, trim_suffix-append}
use saiki.Store.Revision.{Revision, RevisionFields, key, revision_key}
use saiki.Store.Revision.RoundTrip.{IsStorable}
use saiki.Store.Revision.KeyParts.{
  KeyParts, IsStorable-KeyParts, directory, body, extension, key-body,
}
use saiki.Cmd.State.{state_file}

extension_lem : (r : RevisionFields) → All InExtension (extension r)
extension_lem r = go r.deleted
  where
    go : (b : Bool) → All InExtension (if b then codes "deleted" else codes "json")
    go true = omega arith
    go false = omega arith

trimmed : (p t : Str) → All InExtension t → trim_suffix (p ++ (b'.' ∷ t)) (b'.' ∷ t) ≡ p
trimmed p t h = trim_suffix-append p (b'.' ∷ t) (λ e. cc)

-- The file of a revision stands under the root, by its key without the extension.
pub state_file-body :
    {U : Type 0} (root : Str) (rev : Revision U) (k : KeyParts rev.fields)
    → root ≢ []
    → state_file root rev ≡ before root ++ (body rev.fields (directory k) ++ codes ".yaml")
unfolding state_file
state_file-body root rev k ne =
    let r = rev.fields in
    let b = body r (directory k) in
    let path : join_path (root ∷ key r ∷ []) ≡ (before root ++ b) ++ (b'.' ∷ extension r) =
      join_path-before root (key r) k.first (k.others ++ (revision_key r ∷ [])) ne k.splits k.plain
      ∙ ap (λ s. before root ++ s) (key-body r k)
      ∙ sym (append_assoc (before root) b (b'.' ∷ extension r)) in
    let dotted : ext (key r) ≡ b'.' ∷ extension r =
      ap ext (key-body r k) ∙ ext-append b (extension r) (extension_lem r) in
    ap (λ p. trim_suffix p (ext (key r)) ++ codes ".yaml") path
    ∙ ap (λ e. trim_suffix ((before root ++ b) ++ (b'.' ∷ extension r)) e ++ codes ".yaml") dotted
    ∙ ap (λ s. s ++ codes ".yaml") (trimmed (before root ++ b) (extension r) (extension_lem r))
    ∙ append_assoc (before root) b (codes ".yaml")

-- the last character of a text
last : ℕ → Str → ℕ
last c [] = c
last c (d ∷ s) = last d s

last-append : (c : ℕ) (s : Str) (d : ℕ) (t : Str) → last c (s ++ (d ∷ t)) ≡ last d t
unfolding last
last-append c [] d t = refl
last-append c (e ∷ s) d t = last-append e s d t

last-IsDigit : (c : ℕ) (s : Str) → IsDigit c → All IsDigit s → IsDigit (last c s)
unfolding last
last-IsDigit c [] h hs = h
last-IsDigit c (d ∷ s) h hs = last-IsDigit d s hs.0 hs.1

-- a name that ends in digits does not end in `.json`
not_json : (x y t : Str) → t ≢ [] → All IsDigit t → x ++ t ≢ y ++ codes ".json"
unfolding last
not_json x y [] ne h e = ne refl
not_json x y (d ∷ t) ne h e =
    let digit = last-IsDigit d t h.0 h.1 in
    absurd (
      omega (
        arith,
        digit.0,
        digit.1,
        sym (last-append 0 x d t) ∙ ap (last 0) e ∙ last-append 0 y b'.' (codes "json"),
      ))

regrouped : (x a t : Str) → (x ++ (a ++ codes "-")) ++ t ≡ x ++ (a ++ (b'-' ∷ t))
regrouped x a t = simp append_assoc

stem-not_json :
    (r : RevisionFields) (h : IsStorable r) (x y : Str)
    → x ++ (itoa r.resource_version ++ (b'-' ∷ itoa (to_unix r.revision_timestamp)))
      ≢ y ++ codes ".json"
stem-not_json r h x y e =
    let ts = itoa (pos h.seconds) in
    not_json (x ++ (itoa r.resource_version ++ codes "-")) y ts (itoa-ne-nil h.seconds)
      (itoa-IsDigit h.seconds)
      (regrouped x (itoa r.resource_version) ts
        ∙ ap (λ z. x ++ (itoa r.resource_version ++ (b'-' ∷ itoa z))) (sym h.seconds_eq)
        ∙ e)

abbrev stem : RevisionFields → Str
stem r = itoa r.resource_version ++ (b'-' ∷ itoa (to_unix r.revision_timestamp))

-- what stands before the extension tells whether the revision is deleted
body-deleted :
    (a b : RevisionFields) (x y : Str)
    → IsStorable a
    → IsStorable b
    → body a x ≡ body b y
    → a.deleted ≡ b.deleted
body-deleted a b x y ha hb e = go a.deleted b.deleted e
  where
    go :
        (d d' : Bool)
        → x ++ (if d then stem a ++ codes ".json" else stem a)
          ≡ y ++ (if d' then stem b ++ codes ".json" else stem b)
        → d ≡ d'
    go true true e = refl
    go false false e = refl
    go true false e =
        absurd (
          stem-not_json b hb y (x ++ stem a)
            (sym e ∙ sym (append_assoc x (stem a) (codes ".json"))))
    go false true e =
        absurd
          (stem-not_json a ha x (y ++ stem b) (e ∙ sym (append_assoc y (stem b) (codes ".json"))))

-- Two storable revisions are written to one file only if they have one key.
pub state_file-key :
    {U : Type 0} (root : Str) (a b : Revision U)
    → root ≢ []
    → IsStorable a.fields
    → IsStorable b.fields
    → state_file root a ≡ state_file root b
    → key a.fields ≡ key b.fields
state_file-key root a b ne ha hb e =
    let ka = IsStorable-KeyParts a.fields ha in
    let kb = IsStorable-KeyParts b.fields hb in
    let x = body a.fields (directory ka) in
    let y = body b.fields (directory kb) in
    let bodies : x ≡ y = append_cancel_right x y (codes ".yaml") (
      append_cancel_left (before root) (x ++ codes ".yaml") (y ++ codes ".yaml")
        (sym (state_file-body root a ka ne) ∙ e ∙ state_file-body root b kb ne)) in
    let marks = body-deleted a.fields b.fields (directory ka) (directory kb) ha hb bodies in
    key-body a.fields ka
    ∙ ap (λ s. s ++ (b'.' ∷ extension a.fields)) bodies
    ∙ ap (λ d. y ++ (b'.' ∷ (if d then codes "deleted" else codes "json"))) marks
    ∙ sym (key-body b.fields kb)
