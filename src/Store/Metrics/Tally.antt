-- ===== src/Store/Metrics/Tally.antt =====
-- Requests to a store of pkg/store/store.go, with and without the wrappers of metrics.go.
use saiki.Prelude.{ℕ, ◌+◌, ◌≡◌, refl, List, [], ◌∷◌, Option, Str, arith}
use saiki.Errors.{Error, Result}
use saiki.Store.Revision.{RevisionFields, Revision}
use saiki.Store.Metrics.{
  Metrics, AsyncWriteRevisionInterface, RevisionPurger, inc_get, inc_create, inc_delete, inc_list,
  observe_get, observe_create, observe_delete, observe_list, instrumented_revision_interface,
  instrumented_async_revision_interface, instrumented_revision_purger,
}

pub data Request (U : Type 0) : Type 0 where
  create update delete async_create async_update async_delete purge : Revision U → Request U
  get : RevisionFields → Request U
  list : Str → Str → Str → Request U
  purge_all : List (Revision U) → Request U

pub data Reply (U C : Type 0) : Type 0 where
  written : Result (Revision U) → Reply U C
  deleted : Option Error × Revision U → Reply U C
  found : Result (Option (Revision U)) → Reply U C
  listed : Result (List (Revision U)) → Reply U C
  started : Result C → Reply U C
  purged : Option Error → Reply U C
  all_purged : List (Revision U) × Option Error → Reply U C

abbrev replied : {A B T : Type 0} → (A → B) → A × T → B × T
replied f (a, t) = (f a, t)

module _ {U C T : Type 0} (r : AsyncWriteRevisionInterface U C T) (p : RevisionPurger U T) where
  unfoldable pub serve : Request U → T → Reply U C × T
  serve (create rev) t = replied written (r.interface.create_by rev t)
  serve (update rev) t = replied written (r.interface.update_by rev t)
  serve (delete rev) t = replied deleted (r.interface.delete_by rev t)
  serve (get rev) t = replied found (r.interface.get_by rev t)
  serve (list api_version kind name) t =
      replied listed (r.interface.list_by api_version kind name t)
  serve (async_create rev) t = replied started (r.async_create_by rev t)
  serve (async_update rev) t = replied started (r.async_update_by rev t)
  serve (async_delete rev) t = replied started (r.async_delete_by rev t)
  serve (purge rev) t = replied purged (p.purge_revision_by rev t)
  serve (purge_all revs) t = replied all_purged (p.purge_revisions_by revs t)

  unfoldable pub serve_all : List (Request U) → T → List (Reply U C) × T
  serve_all [] t = ([], t)
  serve_all (q ∷ qs) t =
      let (a, t') = serve q t in let (rest, t'') = serve_all qs t' in (a ∷ rest, t'')

-- a store beside the metrics, which its own calls leave alone
abbrev beside : {R S : Type 0} → (S → R × S) → S × Metrics → R × (S × Metrics)
beside f (s, m) = let (a, s') = f s in (a, (s', m))

abbrev on_metrics : {S : Type 0} → (Metrics → Metrics) → S × Metrics → S × Metrics
on_metrics f (s, m) = (s, f m)

module _ {U C S : Type 0} (r : AsyncWriteRevisionInterface U C S) (p : RevisionPurger U S) where
  abbrev pub unmeasured : AsyncWriteRevisionInterface U C (S × Metrics)
  unmeasured = record {
    interface = record {
      create_by = λ rev. beside (r.interface.create_by rev);
      update_by = λ rev. beside (r.interface.update_by rev);
      delete_by = λ rev. beside (r.interface.delete_by rev);
      get_by = λ rev. beside (r.interface.get_by rev);
      list_by = λ api_version kind name. beside (r.interface.list_by api_version kind name);
    };
    async_create_by = λ rev. beside (r.async_create_by rev);
    async_update_by = λ rev. beside (r.async_update_by rev);
    async_delete_by = λ rev. beside (r.async_delete_by rev);
  }

  abbrev pub unmeasured_purger : RevisionPurger U (S × Metrics)
  unmeasured_purger = record {
    purge_revision_by = λ rev. beside (p.purge_revision_by rev);
    purge_revisions_by = λ revs. beside (p.purge_revisions_by revs);
  }

  -- the requests through the wrappers
  abbrev pub serve_measured : List (Request U) → S × Metrics → List (Reply U C) × (S × Metrics)
  serve_measured =
      serve_all (instrumented_async_revision_interface on_metrics unmeasured)
        (instrumented_revision_purger on_metrics unmeasured_purger)

-- What a request is to the metrics: a deletion that marks is not one that removes.
pub data Kind : Type 0 where
  reading writing marking listing removing : Kind

abbrev kind_of : {U : Type 0} → Request U → Kind
kind_of (create rev) = writing
kind_of (update rev) = writing
kind_of (delete rev) = marking
kind_of (async_create rev) = writing
kind_of (async_update rev) = writing
kind_of (async_delete rev) = marking
kind_of (purge rev) = removing
kind_of (get rev) = reading
kind_of (list api_version kind name) = listing
kind_of (purge_all revs) = removing

abbrev same_kind : Kind → Kind → ℕ
same_kind reading reading = 1
same_kind writing writing = 1
same_kind marking marking = 1
same_kind listing listing = 1
same_kind removing removing = 1
same_kind _ _ = 0

unfoldable pub requests : {U : Type 0} → Kind → List (Request U) → ℕ
requests k [] = 0
requests k (q ∷ qs) = same_kind k (kind_of q) + requests k qs

-- the metrics after the requests
unfoldable pub tally : {U : Type 0} → List (Request U) → Metrics → Metrics
unfolding requests
tally qs m = record {
  get_counter = m.get_counter + requests reading qs;
  get_latency = m.get_latency + requests reading qs;
  create_counter = m.create_counter + requests writing qs;
  create_latency = m.create_latency + (requests writing qs + requests marking qs);
  delete_counter = m.delete_counter + (requests marking qs + requests removing qs);
  delete_latency = m.delete_latency + requests removing qs;
  list_counter = m.list_counter + requests listing qs;
  list_latency = m.list_latency + requests listing qs;
}

abbrev bumped : Kind → Metrics → Metrics
bumped reading m = observe_get (inc_get m)
bumped writing m = observe_create (inc_create m)
bumped marking m = observe_create (inc_delete m)
bumped listing m = observe_list (inc_list m)
bumped removing m = observe_delete (inc_delete m)

tally_nil : (U : Type 0) (m : Metrics) → tally (let qs : List (Request U) = [] in qs) m ≡ m
unfolding tally requests
tally_nil U m = ground arith

tally_cons :
    {U : Type 0} (q : Request U) (qs : List (Request U)) (m : Metrics)
    → tally (q ∷ qs) m ≡ tally qs (bumped (kind_of q) m)
unfolding tally requests inc_get inc_create inc_delete inc_list observe_get observe_create
    observe_delete observe_list
tally_cons q qs m = ground arith

module _ {U C S : Type 0} (r : AsyncWriteRevisionInterface U C S) (p : RevisionPurger U S) where
  serve-measured :
      (q : Request U) (s : S) (m : Metrics)
      → serve
          (instrumented_async_revision_interface on_metrics (unmeasured r p))
          (instrumented_revision_purger on_metrics (unmeasured_purger r p))
          q
          (s, m)
        ≡ ((serve r p q s).0, ((serve r p q s).1, bumped (kind_of q) m))
  unfolding serve instrumented_async_revision_interface instrumented_revision_interface
      instrumented_revision_purger
  serve-measured (create rev) s m = refl
  serve-measured (update rev) s m = refl
  serve-measured (delete rev) s m = refl
  serve-measured (async_create rev) s m = refl
  serve-measured (async_update rev) s m = refl
  serve-measured (async_delete rev) s m = refl
  serve-measured (purge rev) s m = refl
  serve-measured (get rev) s m = refl
  serve-measured (list api_version kind name) s m = refl
  serve-measured (purge_all revs) s m = refl

  -- Through the wrappers every sequence of requests gets the same replies and leaves the same store as
  -- without them, whatever the store does; and the metrics have grown by the requests of each kind,
  -- failed ones included: a deletion counts as one but is timed with the updates, and purging a whole
  -- list is one request.
  pub serve_measured-tally :
      (qs : List (Request U)) (s : S) (m : Metrics)
      → serve_measured r p qs (s, m)
        ≡ ((serve_all r p qs s).0, ((serve_all r p qs s).1, tally qs m))
  unfolding serve_all
  serve_measured-tally [] s m = rw (tally_nil U m) refl
  serve_measured-tally (q ∷ qs) s m =
      rw
        (
          serve-measured q s m,
          serve_measured-tally qs (serve r p q s).1 (bumped (kind_of q) m),
          tally_cons q qs m,
        )
        refl
