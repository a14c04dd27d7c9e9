-- ===== src/Rpo.antt =====
-- pkg/rpo/rpo.go: the rotation of a resource's revisions, which purges none yet.
pub mod Duration
use saiki.Prelude.{◌≡◌, refl, ◌⊎◌, inl, inr, List, [], ◌∷◌}
use saiki.Errors.{Error, not_found, Result, ok, err}
use saiki.Store.Revision.{Revision}
use saiki.Store.Storer.{Storer}
use saiki.Controller.Policy.{RpoPolicy}

-- The end of `Rotate`: no active rotation is written yet, and no revision is ever to be purged.
rotate_listed : {U : Type 0} → Result (List (Revision U)) → Result (List (Revision U))
rotate_listed (err not_found) = ok []
rotate_listed (err e) = err e
rotate_listed (ok []) = ok []
rotate_listed (ok (rev ∷ revs)) = ok []

-- `Rotate`
unfoldable pub rotate :
    {U S : Type 0} → Storer U S → Revision U → RpoPolicy → S → Result (List (Revision U))
unfolding rotate_listed
rotate storer rev policy s =
    rotate_listed (storer.list_in rev.api_version rev.kind rev.namespace rev.name s)

abbrev pub NothingOr :
    {U : Type 0} → Result (List (Revision U)) → Result (List (Revision U)) → Type 0
NothingOr listed result = (result ≡ ok []) ⊎ ((e : Error) × (listed ≡ err e) × (result ≡ err e))

rotate_listed-NothingOr :
    {U : Type 0} (listed : Result (List (Revision U))) → NothingOr listed (rotate_listed listed)
unfolding rotate_listed
rotate_listed-NothingOr (err not_found) = inl refl
rotate_listed-NothingOr (err e) = inr (e, refl, refl)
rotate_listed-NothingOr (ok []) = inl refl
rotate_listed-NothingOr (ok (rev ∷ revs)) = inl refl

-- `Rotate` never says to purge a revision: it returns none, or the error of listing the revisions.
pub rotate-NothingOr :
    {U S : Type 0} (storer : Storer U S) (rev : Revision U) (policy : RpoPolicy) (s : S)
    → NothingOr
        (storer.list_in rev.api_version rev.kind rev.namespace rev.name s)
        (rotate storer rev policy s)
unfolding rotate
rotate-NothingOr storer rev policy s =
    rotate_listed-NothingOr (storer.list_in rev.api_version rev.kind rev.namespace rev.name s)
