-- ===== src/Cmd/State/Export/Distinct.antt =====
-- The keys of the revisions of a state with one revision for each resource.
use saiki.Prelude.{◌≡◌, ◌≢◌, sym, ap, ◌∙◌, [], ◌∷◌, All}
use saiki.Errors.{Result, ok, err}
use saiki.Store.Revision.{RevisionFields, Revision, key, resource_key, parse_lazy_loading_revision}
use saiki.Store.Revision.RoundTrip.{IsStorable, parse-key, key-to_seconds}
use saiki.Store.Storage.State.{StateMap}
use saiki.Store.Storage.State.Alone.{OneEach}
use saiki.Store.Marshal.{revisions_of}
use saiki.Cmd.State.Export.Written.{DistinctKeys}

module _ {U : Type 0} where
  abbrev fields_or : RevisionFields → Result (Revision U) → RevisionFields
  fields_or f (err e) = f
  fields_or f (ok r) = r.fields

  -- A key tells the resource.
  key-resource_key :
      (a b : Revision U)
      → IsStorable a.fields
      → IsStorable b.fields
      → key a.fields ≡ key b.fields
      → resource_key a.fields ≡ resource_key b.fields
  unfolding resource_key
  key-resource_key a b ha hb e =
      let parsed =
        sym (parse-key {U = U} a.fields ha)
        ∙ ap parse_lazy_loading_revision e
        ∙ parse-key {U = U} b.fields hb in
      sym (key-to_seconds a.fields).1
      ∙ ap (λ r. resource_key (fields_or a.fields r)) parsed
      ∙ (key-to_seconds b.fields).1

  others :
      (r : Revision U) (res : StateMap U)
      → IsStorable r.fields
      → All (λ entry. entry.0 ≢ resource_key r.fields) res
      → OneEach res
      → All (λ q. IsStorable q.fields) (revisions_of res)
      → All (λ q. key q.fields ≢ key r.fields) (revisions_of res)
  unfolding revisions_of
  others r [] hr ne one hs = tt
  others r ((rk, []) ∷ res) hr ne one hs = absurd (cc one.0)
  others r ((rk, p ∷ q ∷ revs) ∷ res) hr ne one hs = absurd (cc one.0)
  others r ((rk, q ∷ []) ∷ res) hr ne one hs =
      ((λ e. ne.0 (sym one.0 ∙ key-resource_key q r hs.0 hr e)), others r res hr ne.1 one.2 hs.1)

  pub OneEach-DistinctKeys :
      (res : StateMap U)
      → OneEach res
      → All (λ r. IsStorable r.fields) (revisions_of res)
      → DistinctKeys (revisions_of res)
  unfolding revisions_of
  OneEach-DistinctKeys [] one hs = tt
  OneEach-DistinctKeys ((rk, []) ∷ res) one hs = absurd (cc one.0)
  OneEach-DistinctKeys ((rk, p ∷ q ∷ revs) ∷ res) one hs = absurd (cc one.0)
  OneEach-DistinctKeys ((rk, r ∷ []) ∷ res) one hs =
      (others r res hs.0 (rw one.0 one.1) one.2 hs.1, OneEach-DistinctKeys res one.2 hs.1)
