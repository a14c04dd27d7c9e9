-- ===== src/Store/Storage/Update.antt =====
-- What is written is read back.
use saiki.Prelude.{◌≡◌, refl, ap, ◌∙◌, Option, none, some, arith, Str, str_eq, str_beq_iff}
use saiki.Prelude.Dict.{Dict, insert, lookup-insert}
use saiki.Errors.{Error, Result, ok, err}
use saiki.Store.Revision.{
  Revision, RevisionFields, resource_key, revision_key, key, revision_from, concrete,
}
use saiki.Store.Backend.{create, open_and_read}
use saiki.Store.Storage.{
  Env, RevisionStore, decrypt_with, get, encode, write, write_content, save, update, namespace_get,
  content,
}

module _ {U B : Type 0} (env : Env U B) where
  -- A blob that was opened for writing, written and closed without an error is read back as written.
  abbrev pub ReadsBack : Type 0
  ReadsBack =
      (path bytes : Str) (s : B)
      → let b1 : B = (env.bucket.new_writer path s).1 in
        let b2 : B = (env.bucket.write path bytes b1).1 in
        (env.bucket.new_writer path s).0 ≡ none
        → (env.bucket.write path bytes b1).0 ≡ none
        → (env.bucket.close_writer path b2).0 ≡ none
        → env.bucket.read_all path (env.bucket.close_writer path b2).1 ≡ ok bytes

  -- Reading the bytes of an object gives the object.
  abbrev pub Decodes : Type 0
  Decodes =
      (u : U) (bytes : Str)
      → encode env u ≡ ok bytes
      → (plain : Str) × (decrypt_with env.encrypter bytes ≡ ok plain) × (env.unmarshal plain ≡ ok u)

  module _ (rev : Revision U) (u : U) (concrete_body : rev.body ≡ concrete u)
      (s : RevisionStore B) where
    abbrev path : Str
    path = key rev.fields

    abbrev opened : B
    opened = (env.bucket.new_writer path s.backend).1

    abbrev pub update_error : Option Error → Result Str → Option Error
    update_error (some x) encoded = some x
    update_error none (err e) = some e
    update_error none (ok bytes) = (env.bucket.write path bytes opened).0

    abbrev pub remember : Option Error → Dict Str Str
    remember (some x) = s.latest_cache
    remember none = insert (resource_key rev.fields) (revision_key rev.fields) s.latest_cache

    outcome_by :
        (e : Option Error) (encoded : Result Str)
        → (env.bucket.new_writer path s.backend).0 ≡ e
        → encode env u ≡ encoded
        → ((update env rev s).0 ≡ update_error e encoded)
          × ((update env rev s).1.latest_cache ≡ remember (update_error e encoded))
    unfolding update save create write content write_content
    outcome_by (some x) encoded he hu = ground (arith, he, hu, concrete_body)
    outcome_by none (err x) he hu = ground (arith, he, hu, concrete_body)
    outcome_by none (ok bytes) he hu = ground (arith, he, hu, concrete_body)

    -- `Update` of a revision that has its object, on every path: its error is that of opening the
    -- writer, of encoding the object or of writing, in this order, and never that of closing; and the
    -- latest key of the resource is remembered exactly if there is no error.
    pub update-outcome :
        ((update env rev s).0
          ≡ update_error (env.bucket.new_writer path s.backend).0 (encode env u))
        × ((update env rev s).1.latest_cache
            ≡ remember (update_error (env.bucket.new_writer path s.backend).0 (encode env u)))
    update-outcome = outcome_by (env.bucket.new_writer path s.backend).0 (encode env u) refl refl

    backend-update :
        (bytes : Str)
        → (env.bucket.new_writer path s.backend).0 ≡ none
        → encode env u ≡ ok bytes
        → (env.bucket.write path bytes opened).0 ≡ none
        → (update env rev s).1.backend
          ≡ (env.bucket.close_writer path (env.bucket.write path bytes opened).1).1
    unfolding update save create write content write_content
    backend-update bytes ho he hw = ground (arith, ho, he, hw, concrete_body)

    get_remembered :
        (other : RevisionFields) (s' : RevisionStore B)
        → resource_key other ≡ resource_key rev.fields
        → s'.latest_cache
          ≡ insert (resource_key rev.fields) (revision_key rev.fields) s.latest_cache
        → (r : Revision U) → get env path s' ≡ ok r
        → (namespace_get env other s').0 ≡ ok (some r)
    unfolding namespace_get key
    get_remembered other s' same cached r hg = ground (
      arith,
      same,
      cached,
      hg,
      lookup-insert (resource_key rev.fields) (resource_key other) (revision_key rev.fields)
          s.latest_cache,
      str_beq_iff (resource_key rev.fields) (resource_key other),
    )

    get_written :
        (s' : RevisionStore B) (bytes : Str)
        → env.bucket.read_all path s'.backend ≡ ok bytes
        → encode env u ≡ ok bytes
        → Decodes
        → get env path s' ≡ ok (revision_from env.meta env.now u)
    unfolding get open_and_read
    get_written s' bytes hr he decodes = let (plain, hd, hu) = decodes u bytes he in rw (hr, hd, hu)

    -- After an `Update` whose writer was closed without an error, `Get` of any revision of the same
    -- resource returns the object that was written.
    pub get-update :
        (other : RevisionFields) (bytes : Str)
        → resource_key other ≡ resource_key rev.fields
        → ReadsBack
        → Decodes
        → encode env u ≡ ok bytes
        → (env.bucket.new_writer path s.backend).0 ≡ none
        → (env.bucket.write path bytes opened).0 ≡ none
        → (env.bucket.close_writer path (env.bucket.write path bytes opened).1).0 ≡ none
        → ((update env rev s).0 ≡ none)
          × ((namespace_get env other (update env rev s).1).0
              ≡ ok (some (revision_from env.meta env.now u)))
    get-update other bytes same reads decodes he ho hw hc =
        let s' = (update env rev s).1 in
        let no_error : update_error (env.bucket.new_writer path s.backend).0 (encode env u) ≡ none =
          ap (λ e. update_error e (encode env u)) ho ∙ ap (update_error none) he ∙ hw in
        let stored : env.bucket.read_all path s'.backend ≡ ok bytes =
          ap (env.bucket.read_all path) (backend-update bytes ho he hw)
          ∙ reads path bytes s.backend ho hw hc in
        (
          update-outcome.0 ∙ no_error,
          get_remembered other s' same (update-outcome.1 ∙ ap remember no_error)
              (revision_from env.meta env.now u) (get_written s' bytes stored he decodes),
        )
