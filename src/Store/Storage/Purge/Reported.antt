-- ===== src/Store/Storage/Purge/Reported.antt =====
-- What a purge reports as deleted.
use mathlib.Core.List.{map}
use saiki.Prelude.{◌≡◌, refl, ap, List, [], ◌∷◌, All}
use saiki.Store.Revision.{Revision, unloaded}
use saiki.Store.Revision.RoundTrip.{IsStorable, to_seconds, parse-key}
use saiki.Store.Storage.Purge.{keys, parse_deleted}

module _ {U : Type 0} where
  -- The revision that is parsed from the key of another.
  abbrev pub reloaded : Revision U → Revision U
  reloaded rev = record { fields = to_seconds rev.fields; body = unloaded }

  -- What is parsed from the keys of storable revisions is those revisions, in order and with none
  -- left out, lazy and with timestamps of whole seconds.
  pub parse_deleted-keys :
      (revs : List (Revision U))
      → All (λ rev. IsStorable rev.fields) revs
      → parse_deleted {U = U} (keys revs) ≡ map reloaded revs
  unfolding parse_deleted
  parse_deleted-keys [] h = refl
  parse_deleted-keys (rev ∷ revs) h =
      rw (parse-key {U = U} rev.fields h.0, parse_deleted)
        (ap (λ l. reloaded rev ∷ l) (parse_deleted-keys revs h.1))
