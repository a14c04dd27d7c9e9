-- ===== src/Store/Backend/Instrumented.antt =====
-- pkg/store/backend/metrics.go: the wrappers that time the requests to a backend, over the interfaces
-- `Backend` and `BulkRemover` of backends.go.
use saiki.Prelude.{ℕ, suc, ◌≡◌, refl, List, [], ◌∷◌, Option, Str}
use saiki.Errors.{Error, Result}
use saiki.Store.Backend.{WalkFunc}

-- the numbers of observations of the histograms
pub record Latencies : Type 0 where
  pub delete_latency : ℕ
  pub read_dir_latency : ℕ
  pub walk_latency : ℕ

-- `Backend`, over the states of the backend: `W` is what stands for an open writer, and `A` what the
-- closure of a walk changes.
pub record Backend (W A T : Type 0) : Type 0 where
  pub create_by : Str → T → Result W × T
  pub open_by : Str → T → Result Str × T
  pub remove_by : Str → T → Option Error × T
  pub read_dir_by : Str → T → Result (List Str) × T
  pub walk_by : Str → WalkFunc A → A → T → (A × Option Error) × T
  pub close_by : T → Option Error × T
  pub provider_by : Str

-- a backend that is only one, or a `BulkRemovingBackend`
pub data AnyBackend (W A T : Type 0) : Type 0 where
  only : Backend W A T → AnyBackend W A T
  bulk_removing : Backend W A T → (List Str → T → (List Str × Option Error) × T) → AnyBackend W A T

unfoldable pub observe_delete_latency : Latencies → Latencies
observe_delete_latency m = record m { delete_latency = suc m.delete_latency }

unfoldable pub observe_read_dir_latency : Latencies → Latencies
observe_read_dir_latency m = record m { read_dir_latency = suc m.read_dir_latency }

unfoldable pub observe_walk_latency : Latencies → Latencies
observe_walk_latency m = record m { walk_latency = suc m.walk_latency }

-- The call is made, and then its latency is observed; `on` changes the histograms inside of a state.
abbrev timed :
    {R T : Type 0}
    → ((Latencies → Latencies) → T → T)
    → (Latencies → Latencies)
    → (T → R × T)
    → T
    → R × T
timed on observe f t = let (r, t') = f t in (r, on observe t')

-- `on` changes the histograms inside of a state.
module _ {W A T : Type 0} (on : (Latencies → Latencies) → T → T) where
  -- the methods that are not overridden are those of the embedded backend
  unfoldable pub instrumented_backend : Backend W A T → Backend W A T
  instrumented_backend b = record b {
    remove_by = λ key. timed on observe_delete_latency (b.remove_by key);
    read_dir_by = λ path. timed on observe_read_dir_latency (b.read_dir_by path);
    walk_by = λ root walk_fn acc. timed on observe_walk_latency (b.walk_by root walk_fn acc);
  }

  -- `NewInstrumentedBackend`
  unfoldable pub new_instrumented_backend : AnyBackend W A T → AnyBackend W A T
  unfolding instrumented_backend
  new_instrumented_backend (only b) = only (instrumented_backend b)
  new_instrumented_backend (bulk_removing b remove_all) =
      bulk_removing (instrumented_backend b)
        (λ keys. timed on observe_delete_latency (remove_all keys))

pub data Request (A : Type 0) : Type 0 where
  create open_key remove read_dir : Str → Request A
  walk : Str → WalkFunc A → A → Request A
  remove_all : List Str → Request A
  close : Request A

-- `not_bulk` answers the request for a bulk removal where the backend offers none.
pub data Reply (W A : Type 0) : Type 0 where
  created : Result W → Reply W A
  opened : Result Str → Reply W A
  removed closed : Option Error → Reply W A
  dir_read : Result (List Str) → Reply W A
  walked : A × Option Error → Reply W A
  all_removed : List Str × Option Error → Reply W A
  not_bulk : Reply W A

abbrev replied : {X Y T : Type 0} → (X → Y) → X × T → Y × T
replied f (x, t) = (f x, t)

module _ {W A T : Type 0} where
  serve_backend : Backend W A T → Request A → T → Reply W A × T
  serve_backend b (create key) t = replied created (b.create_by key t)
  serve_backend b (open_key key) t = replied opened (b.open_by key t)
  serve_backend b (remove key) t = replied removed (b.remove_by key t)
  serve_backend b (read_dir path) t = replied dir_read (b.read_dir_by path t)
  serve_backend b (walk root walk_fn acc) t = replied walked (b.walk_by root walk_fn acc t)
  serve_backend b (remove_all keys) t = (not_bulk, t)
  serve_backend b close t = replied closed (b.close_by t)

  unfoldable pub serve : AnyBackend W A T → Request A → T → Reply W A × T
  unfolding serve_backend
  serve (only b) q t = serve_backend b q t
  serve (bulk_removing b all) (remove_all keys) t = replied all_removed (all keys t)
  serve (bulk_removing b all) q t = serve_backend b q t

  unfoldable pub serve_all : AnyBackend W A T → List (Request A) → T → List (Reply W A) × T
  serve_all b [] t = ([], t)
  serve_all b (q ∷ qs) t =
      let (a, t') = serve b q t in let (rest, t'') = serve_all b qs t' in (a ∷ rest, t'')

-- a backend beside the histograms, which its own calls leave alone
abbrev beside : {R S : Type 0} → (S → R × S) → S × Latencies → R × (S × Latencies)
beside f (s, m) = let (a, s') = f s in (a, (s', m))

abbrev pub on_latencies : {S : Type 0} → (Latencies → Latencies) → S × Latencies → S × Latencies
on_latencies f (s, m) = (s, f m)

module _ {W A S : Type 0} where
  untimed_backend : Backend W A S → Backend W A (S × Latencies)
  untimed_backend b = record {
    create_by = λ key. beside (b.create_by key);
    open_by = λ key. beside (b.open_by key);
    remove_by = λ key. beside (b.remove_by key);
    read_dir_by = λ path. beside (b.read_dir_by path);
    walk_by = λ root walk_fn acc. beside (b.walk_by root walk_fn acc);
    close_by = beside b.close_by;
    provider_by = b.provider_by;
  }

  unfoldable pub untimed : AnyBackend W A S → AnyBackend W A (S × Latencies)
  unfolding untimed_backend
  untimed (only b) = only (untimed_backend b)
  untimed (bulk_removing b all) = bulk_removing (untimed_backend b) (λ keys. beside (all keys))

  -- what a request adds to the histograms
  unfoldable pub timing : AnyBackend W A S → Request A → Latencies → Latencies
  timing b (remove key) m = record m { delete_latency = suc m.delete_latency }
  timing b (read_dir path) m = record m { read_dir_latency = suc m.read_dir_latency }
  timing b (walk root walk_fn acc) m = record m { walk_latency = suc m.walk_latency }
  timing (bulk_removing b all) (remove_all keys) m = record m {
    delete_latency = suc m.delete_latency;
  }
  timing b q m = m

  unfoldable pub timings : AnyBackend W A S → List (Request A) → Latencies → Latencies
  timings b [] m = m
  timings b (q ∷ qs) m = timings b qs (timing b q m)

  serve-timed :
      (b : AnyBackend W A S) (q : Request A) (s : S) (m : Latencies)
      → serve (new_instrumented_backend on_latencies (untimed b)) q (s, m)
        ≡ ((serve b q s).0, ((serve b q s).1, timing b q m))
  unfolding serve new_instrumented_backend untimed timing observe_delete_latency
      observe_read_dir_latency observe_walk_latency
  serve-timed (only b) (create key) s m = refl
  serve-timed (only b) (open_key key) s m = refl
  serve-timed (only b) (remove key) s m = refl
  serve-timed (only b) (read_dir path) s m = refl
  serve-timed (only b) (walk root walk_fn acc) s m = refl
  serve-timed (only b) (remove_all keys) s m = refl
  serve-timed (only b) close s m = refl
  serve-timed (bulk_removing b all) (create key) s m = refl
  serve-timed (bulk_removing b all) (open_key key) s m = refl
  serve-timed (bulk_removing b all) (remove key) s m = refl
  serve-timed (bulk_removing b all) (read_dir path) s m = refl
  serve-timed (bulk_removing b all) (walk root walk_fn acc) s m = refl
  serve-timed (bulk_removing b all) (remove_all keys) s m = refl
  serve-timed (bulk_removing b all) close s m = refl

  -- Through the wrappers every sequence of requests has the same replies, that to a bulk removal
  -- included, and leaves the same backend; each removal, listing and walk is timed once.
  pub serve_all-timings :
      (b : AnyBackend W A S) (qs : List (Request A)) (s : S) (m : Latencies)
      → serve_all (new_instrumented_backend on_latencies (untimed b)) qs (s, m)
        ≡ ((serve_all b qs s).0, ((serve_all b qs s).1, timings b qs m))
  unfolding serve_all timings
  serve_all-timings b [] s m = refl
  serve_all-timings b (q ∷ qs) s m =
      rw (serve-timed b q s m, serve_all-timings b qs (serve b q s).1 (timing b q m)) refl
