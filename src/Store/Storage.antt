-- ===== src/Store/Storage.antt =====
-- pkg/store/storage.go: the revision store over its backend. JSON and the encrypter are parameters.
-- The wrappers that count requests stand in Store/Metrics, and are left out here.
pub mod State
pub mod Sync
pub mod Purge
pub mod Listed
pub mod Latest
pub mod Update
use saiki.Prelude.{
  Bool, true, false, not, List, [], ◌∷◌, ◌++◌, Option, none, some, if◌then◌else◌, Str, str_eq,
  codes,
}
use saiki.Prelude.Dict.{Dict, lookup, insert}
use saiki.Golang.Time.{Time, zero_time, after}
use saiki.Errors.{Error, fatal, Result, ok, err, ◌>>=◌}
use saiki.Store.Revision.{
  RevisionFields, Revision, Body, concrete, unloaded, loaded, ObjectMeta, resource_key_of,
  revision_key_of, resource_key, revision_key, key, set_deleted, revision_from,
  parse_lazy_loading_revision,
}
use saiki.Store.RevisionList.{sort}
use saiki.Store.Backend.{Bucket, Provider, create, open_and_read, read_dir}

pub record Encrypter : Type 0 where
  pub encrypt : Str → Result Str
  pub decrypt : Str → Result Str

-- What a store is made of, but for what changes. `now` is the clock.
pub record Env (U B : Type 0) : Type 0 where
  pub bucket : Bucket B
  pub provider : Provider
  pub meta : ObjectMeta U
  pub marshal : U → Result Str
  pub unmarshal : Str → Result U
  pub encrypter : Option Encrypter
  pub delete_untracked : Bool
  pub now : Time

-- What changes: the bucket, and the latest revision's key of each resource.
pub record RevisionStore (B : Type 0) : Type 0 where
  pub backend : B
  pub latest_cache : Dict Str Str

abbrev pub decrypt_with : Option Encrypter → Str → Result Str
decrypt_with none data_bytes = ok data_bytes
decrypt_with (some e) data_bytes = e.decrypt data_bytes

abbrev pub encrypt_with : Option Encrypter → Str → Result Str
encrypt_with none data_bytes = ok data_bytes
encrypt_with (some e) data_bytes = e.encrypt data_bytes

module _ {U : Type 0} where
  -- the revisions of a directory that are not deleted; a name that cannot be parsed fails
  pub parse_all : Str → List Str → Result (List (Revision U))
  parse_all directory [] = ok []
  parse_all directory (name ∷ names) = do
    r ← parse_lazy_loading_revision {U = U} (revision_key_of directory name)
    rest ← parse_all directory names
    ok (if r.deleted then rest else r ∷ rest)

  -- The loop of `latestRevision`: the time that it compares with is never changed.
  pub latest_loop : Option (Revision U) → List (Revision U) → Option (Revision U)
  latest_loop latest [] = latest
  latest_loop latest (r ∷ revisions) =
      latest_loop (if after r.revision_timestamp zero_time then some r else latest) revisions

  -- what `Content` takes from the revision that `Get` returned; no revision ends the process
  content_of : Result (Option (Revision U)) → Result U
  content_of (err e) = err e
  content_of (ok none) = err (fatal (codes "must return a concrete revision on get"))
  content_of (ok (some r)) = elim r.body [
    | concrete u ↦ ok u
    | unloaded ↦ err (fatal (codes "must return a concrete revision on get"))
    | loaded u ↦ err (fatal (codes "must return a concrete revision on get"))
  ]

  -- a lazy revision after `Content` returned
  unfoldable pub loaded_with : Revision U → Result U → Revision U
  loaded_with rev (err e) = rev
  loaded_with rev (ok u) = elim rev.body [
    | concrete v ↦ rev
    | loaded v ↦ rev
    | unloaded ↦ record rev { body = loaded u }
  ]

module _ {U B : Type 0} (env : Env U B) where
  -- `get`: the stored object, under the fields that the object has itself
  unfoldable pub get : Str → RevisionStore B → Result (Revision U)
  get filepath s = do
    stored ← open_and_read env.bucket filepath s.backend
    plain ← decrypt_with env.encrypter stored
    u ← env.unmarshal plain
    ok (revision_from env.meta env.now u)

  -- `List`: the live revisions of an object, by resource version
  unfoldable pub list_revisions :
      Str → Str → Str → Str → RevisionStore B → Result (List (Revision U))
  unfolding parse_all
  list_revisions api_version kind namespace name s = do
    let directory = resource_key_of api_version kind namespace name
    infos ← read_dir env.bucket directory s.backend
    revisions ← parse_all directory infos
    ok (sort revisions)

  unfoldable pub latest_revision : RevisionFields → RevisionStore B → Result (Option (Revision U))
  unfolding latest_loop
  latest_revision rev s = do
    revisions ← list_revisions rev.api_version rev.kind rev.namespace rev.name s
    ok (latest_loop none revisions)

  -- `Get` behind the cache: the latest revision is looked up, remembered and read.
  get_latest :
      Str
      → Result (Option (Revision U))
      → RevisionStore B
      → Result (Option (Revision U)) × RevisionStore B
  get_latest rk (err e) s = (err e, s)
  get_latest rk (ok none) s = (ok none, s)
  get_latest rk (ok (some latest)) s =
      let s' = record s { latest_cache = insert rk (revision_key latest.fields) s.latest_cache } in
      ((do r ← get (revision_key_of rk (revision_key latest.fields)) s'; ok (some r)), s')

  -- `Get`: the latest revision of the resource, whichever of its revisions is asked for
  unfoldable pub namespace_get :
      RevisionFields → RevisionStore B → Result (Option (Revision U)) × RevisionStore B
  unfolding get_latest
  namespace_get rev s =
      let rk = resource_key rev in
      elim (lookup rk s.latest_cache) [
        | some latest ↦ ((do r ← get (revision_key_of rk latest) s; ok (some r)), s)
        | none ↦ get_latest rk (latest_revision rev s) s
      ]

  -- `Content`. A lazy revision reads its object through the store; a second call would return the same
  -- object, which the revision keeps.
  unfoldable pub content : Revision U → RevisionStore B → Result U × RevisionStore B
  unfolding content_of
  content rev s = elim rev.body [
    | concrete u ↦ (ok u, s)
    | loaded u ↦ (ok u, s)
    | unloaded ↦ let (r, s') = namespace_get rev.fields s in (content_of r, s')
  ]

  -- the bytes that `write` hands to the writer
  unfoldable pub encode : U → Result Str
  encode u = do json ← env.marshal u; encrypt_with env.encrypter json

  -- `write`, on the open writer of a key
  write_content : Str → Result U → RevisionStore B → Option Error × RevisionStore B
  write_content path (err e) s = (some e, s)
  write_content path (ok u) s = elim (encode u) [
    | err e ↦ (some e, s)
    | ok bytes ↦ let (e, b) = env.bucket.write path bytes s.backend in (e, record s { backend = b })
  ]

  unfoldable pub write : Str → Revision U → RevisionStore B → Option Error × RevisionStore B
  unfolding write_content
  write path rev s = let (c, s') = content rev s in write_content path c s'

  -- `save`: the deferred `Close` runs after `write` on every path, and its error is dropped.
  unfoldable pub save : Revision U → RevisionStore B → Option Error × RevisionStore B
  save rev s =
      let (e, b) = create env.bucket (key rev.fields) s.backend in
      elim e [
        | some x ↦ (some x, record s { backend = b })
        | none ↦
            let (we, s') = write (key rev.fields) rev (record s { backend = b }) in
            (we, record s' { backend = (env.bucket.close_writer (key rev.fields) s'.backend).1 })
      ]

  -- `Update`, and `Create`, which is the same
  unfoldable pub update : Revision U → RevisionStore B → Option Error × RevisionStore B
  update rev s =
      let (e, s') = save rev s in
      elim e [
        | some x ↦ (some x, s')
        | none ↦ (
          none,
          record s' {
            latest_cache =
                insert (resource_key rev.fields) (revision_key rev.fields) s'.latest_cache;
          },
        )
      ]

  -- `Delete`: the revision is marked, and saved under its deleted key.
  unfoldable pub delete_revision :
      Revision U → RevisionStore B → Option Error × Revision U × RevisionStore B
  delete_revision rev s =
      let rev' = set_deleted true rev in let (e, s') = save rev' s in (e, rev', s')
