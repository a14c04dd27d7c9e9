-- ===== src/Store/InMemory/Lookup.antt =====
-- What the in-memory getter returns after writes and purges.
use saiki.Prelude.{◌≡◌, arith, if◌then◌else◌, ◌==◌, str_eq, str_beq_iff}
use saiki.Prelude.Int.{int_eq, beq_ℤ_iff}
use saiki.Prelude.Dict.{lookup, insert, remove, lookup-insert, lookup-remove}
use saiki.Errors.{not_found, ok, err}
use saiki.Store.Revision.{RevisionFields, Revision, resource_key}
use saiki.Store.InMemory.{MemCache, or_empty, set_revision, cached, delete_cached, mem_get}

module _ {U : Type 0} where
  -- After a write, a read of its resource returns the revision that was written, even if a newer one
  -- was there; other resources read as before.
  pub mem_get-set_revision :
      (rev : Revision U) (other : RevisionFields) (c : MemCache U)
      → mem_get other (set_revision rev c)
        ≡ (if resource_key rev.fields == resource_key other then ok rev else mem_get other c)
  unfolding mem_get cached set_revision
  mem_get-set_revision rev other c =
      let rk = resource_key rev.fields in
      let ok' = resource_key other in
      let revs = insert rev.resource_version rev (or_empty (lookup rk c.m)) in
      ground (
        arith,
        lookup-insert rk ok' revs c.m,
        lookup-insert rk ok' rev.resource_version c.latest_cache,
        lookup-insert rev.resource_version rev.resource_version rev (or_empty (lookup rk c.m)),
        str_beq_iff rk ok',
      )

  -- After a purge of the version that was written last, reading the resource fails, whatever other
  -- versions of it are there: the getter does not fall back to one of them.
  pub mem_get-delete_latest :
      (rev : Revision U) (c : MemCache U)
      → mem_get rev.fields (delete_cached rev (set_revision rev c)) ≡ err not_found
  unfolding mem_get cached delete_cached set_revision
  mem_get-delete_latest rev c =
      let rk = resource_key rev.fields in
      let v = rev.resource_version in
      let revs = insert v rev (or_empty (lookup rk c.m)) in
      ground (
        arith,
        lookup-insert rk rk revs c.m,
        lookup-insert rk rk (remove v revs) (insert rk revs c.m),
        lookup-insert rk rk v c.latest_cache,
        lookup-remove v v revs,
        str_beq_iff rk rk,
        beq_ℤ_iff v v,
      )
