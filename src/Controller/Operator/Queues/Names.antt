-- ===== src/Controller/Operator/Queues/Names.antt =====
-- The names of metrics that the work queues of pkg/controller/controller.go register, in one list.
use saiki.Prelude.{
  ◌≡◌, ◌≢◌, refl, sym, ap, ◌∙◌, ◌⊎◌, inl, inr, List, [], ◌∷◌, ◌++◌, Option, none, some, Str, codes,
  subst, All, All-append, All-mono, All-In, In, here, there, In-left, In-right,
}
use mathlib.Core.Path.{fun_ext}
use saiki.Controller.Metrics.{
  QueueMetric, depth, Registerer, metric_name, must_register_all, new_metrics, ◌>>=◌,
}
use saiki.Controller.Metrics.Names.{MadeFor, MadeFor-unique}
use saiki.Controller.Metrics.Registry.{NoRepeat, Repeats, must_register_all-append}
use saiki.Controller.Operator.Factory.{Dynamic}
use saiki.Controller.Operator.Queues.{queue_name, new_queues}
use saiki.Controller.Operator.Queues.Named.{WellNamed, SameQueue}
use saiki.Controller.Operator.Queues.Inverse.{queue_name-SameQueue, SameQueue-queue_name}

-- a method is called once at most for a queue
abbrev pub CalledOnce : List QueueMetric → Type 0
CalledOnce [] = Unit
CalledOnce (m ∷ ms) = All (λ other. other ≢ m) ms × CalledOnce ms

-- no two clients have the same queue
abbrev pub DistinctQueues : List Dynamic → Type 0
DistinctQueues [] = Unit
DistinctQueues (c ∷ cs) = All (λ d. SameQueue c d → ⊥) cs × DistinctQueues cs

-- some two clients have the same queue
abbrev pub SharedQueue : List Dynamic → Type 0
SharedQueue [] = ⊥
SharedQueue (c ∷ cs) = ((d : Dynamic) × In d cs × SameQueue c d) ⊎ SharedQueue cs

optional : Option Str → List Str → List Str
optional none ns = ns
optional (some n) ns = n ∷ ns

-- the names that are registered for a queue, and for all
pub names_of : List QueueMetric → Str → List Str
unfolding optional
names_of [] q = []
names_of (m ∷ ms) q = optional (metric_name m q) (names_of ms q)

pub all_names : List QueueMetric → List Dynamic → List Str
all_names calls [] = []
all_names calls (c ∷ cs) = names_of calls (queue_name c) ++ all_names calls cs

module _ {R : Type 0} (lib : Registerer R) where
  new_metrics-names_of :
      (ms : List QueueMetric) (q : Str) (r : R)
      → new_metrics lib ms q r ≡ must_register_all lib (names_of ms q) r
  unfolding new_metrics names_of must_register_all
  new_metrics-names_of [] q r = refl
  new_metrics-names_of (m ∷ ms) q r = go (metric_name m q) (λ r'. new_metrics-names_of ms q r')
    where
      go :
          (o : Option Str)
          → ((r' : R) → new_metrics lib ms q r' ≡ must_register_all lib (names_of ms q) r')
          → ((elim o as (λ _. Option R) [ none ↦ some r | some n ↦ lib.must_register n r ])
              >>= λ r'. new_metrics lib ms q r')
            ≡ must_register_all lib (optional o (names_of ms q)) r
      go none ih = ih r
      go (some n) ih = ap (λ f. lib.must_register n r >>= f) (fun_ext ih)

  pub new_queues-all_names :
      (calls : List QueueMetric) (cs : List Dynamic) (r : R)
      → new_queues lib calls cs r ≡ must_register_all lib (all_names calls cs) r
  unfolding new_queues all_names
  new_queues-all_names calls [] r = unfold must_register_all in refl
  new_queues-all_names calls (c ∷ cs) r =
      ap (λ o. o >>= λ r'. new_queues lib calls cs r') (new_metrics-names_of calls (queue_name c) r)
      ∙ ap (λ f. must_register_all lib (names_of calls (queue_name c)) r >>= f)
          (fun_ext (λ r'. new_queues-all_names calls cs r'))
      ∙ sym (must_register_all-append lib (names_of calls (queue_name c)) (all_names calls cs) r)

-- a name that one of the methods makes for a queue
abbrev pub By : List QueueMetric → Str → Str → Type 0
By ms q n = (m : QueueMetric) × In m ms × (metric_name m q ≡ some n)

names_of-By : (ms : List QueueMetric) (q : Str) → All (By ms q) (names_of ms q)
unfolding names_of
names_of-By [] q = tt
names_of-By (m ∷ ms) q = go (metric_name m q) refl (names_of-By ms q)
  where
    go :
        (o : Option Str)
        → metric_name m q ≡ o
        → All (By ms q) (names_of ms q)
        → All (By (m ∷ ms) q) (optional o (names_of ms q))
    go none e ih = All-mono _ _ (names_of ms q) (λ n (m', i, h). (m', there i, h)) ih
    go (some n) e ih =
        ((m, here, e), All-mono _ _ (names_of ms q) (λ n' (m', i, h). (m', there i, h)) ih)

names_of-NoRepeat : (ms : List QueueMetric) (q : Str) → CalledOnce ms → NoRepeat (names_of ms q)
unfolding names_of
names_of-NoRepeat [] q h = tt
names_of-NoRepeat (m ∷ ms) q h = go (metric_name m q) refl (names_of-NoRepeat ms q h.1)
  where
    go :
        (o : Option Str)
        → metric_name m q ≡ o
        → NoRepeat (names_of ms q)
        → NoRepeat (optional o (names_of ms q))
    go none e ih = ih
    go (some n) e ih = (
      All-mono _ _ (names_of ms q)
          (λ n' (m', i, e') same.
            All-In _ h.0 i (MadeFor-unique q q n (m', e' ∙ ap some same) (m, e)).0)
          (names_of-By ms q),
      ih,
    )

NoRepeat-append :
    (xs ys : List Str)
    → NoRepeat xs
    → NoRepeat ys
    → All (λ x. All (λ y. y ≢ x) ys) xs
    → NoRepeat (xs ++ ys)
NoRepeat-append [] ys hx hy h = hy
NoRepeat-append (x ∷ xs) ys hx hy h =
    (All-append _ xs ys hx.0 h.0, NoRepeat-append xs ys hx.1 hy h.1)

-- a name for the queue of one of the clients
abbrev pub Client : List Dynamic → Str → Type 0
Client cs n = (c : Dynamic) × In c cs × MadeFor (queue_name c) n

pub all_names-Client :
    (calls : List QueueMetric) (cs : List Dynamic) → All (Client cs) (all_names calls cs)
unfolding all_names
all_names-Client calls [] = tt
all_names-Client calls (c ∷ cs) =
    All-append _ (names_of calls (queue_name c)) (all_names calls cs)
      (All-mono _ _ (names_of calls (queue_name c)) (λ n (m, i, e). (c, here, (m, e)))
        (names_of-By calls (queue_name c)))
      (All-mono _ _ (all_names calls cs) (λ n (d, i, made). (d, there i, made))
        (all_names-Client calls cs))

pub all_names-NoRepeat :
    (calls : List QueueMetric) (cs : List Dynamic)
    → CalledOnce calls
    → All WellNamed cs
    → DistinctQueues cs
    → NoRepeat (all_names calls cs)
unfolding all_names
all_names-NoRepeat calls [] once named distinct = tt
all_names-NoRepeat calls (c ∷ cs) once named distinct =
    NoRepeat-append (names_of calls (queue_name c)) (all_names calls cs)
      (names_of-NoRepeat calls (queue_name c) once)
      (all_names-NoRepeat calls cs once named.1 distinct.1)
      (All-mono _ _ (names_of calls (queue_name c))
        (λ n (m, i, e).
          All-mono _ _ (all_names calls cs)
            (λ n' (d, j, (m', e')) same. All-In _ distinct.0 j (
              queue_name-SameQueue c d named.0 (All-In _ named.1 j)
                (MadeFor-unique (queue_name c) (queue_name d) n (m, e) (m', e' ∙ ap some same)).1))
            (all_names-Client calls cs))
        (names_of-By calls (queue_name c)))

names_of-In :
    (ms : List QueueMetric) (m : QueueMetric) (q n : Str)
    → In m ms
    → metric_name m q ≡ some n
    → In n (names_of ms q)
unfolding names_of
names_of-In [] m q n i e = elim i [ ]
names_of-In (_ ∷ ms) m q n here e = subst (λ o. In n (optional o (names_of ms q))) (sym e) here
names_of-In (m' ∷ ms) m q n (there i) e = go (metric_name m' q) (names_of-In ms m q n i e)
  where
    go : (o : Option Str) → In n (names_of ms q) → In n (optional o (names_of ms q))
    go none ih = ih
    go (some n') ih = there ih

all_names-In :
    (calls : List QueueMetric) (cs : List Dynamic) (d : Dynamic) (n : Str)
    → In d cs
    → In n (names_of calls (queue_name d))
    → In n (all_names calls cs)
unfolding all_names
all_names-In calls [] d n i h = elim i [ ]
all_names-In calls (_ ∷ cs) d n here h = In-left h (all_names calls cs)
all_names-In calls (c ∷ cs) d n (there i) h =
    In-right (names_of calls (queue_name c)) (all_names-In calls cs d n i h)

Repeats-append : (xs ys : List Str) (n : Str) → In n xs → In n ys → Repeats (xs ++ ys)
Repeats-append [] ys n i j = elim i [ ]
Repeats-append (_ ∷ xs) ys n here j = inl (In-right xs j)
Repeats-append (x ∷ xs) ys n (there i) j = inr (Repeats-append xs ys n i j)

Repeats-right : (xs ys : List Str) → Repeats ys → Repeats (xs ++ ys)
Repeats-right [] ys h = h
Repeats-right (x ∷ xs) ys h = inr (Repeats-right xs ys h)

pub all_names-Repeats :
    (calls : List QueueMetric) (cs : List Dynamic)
    → In depth calls
    → All WellNamed cs
    → SharedQueue cs
    → Repeats (all_names calls cs)
unfolding all_names metric_name
all_names-Repeats calls [] measured named shared = absurd shared
all_names-Repeats calls (c ∷ cs) measured named (inr shared) =
    Repeats-right (names_of calls (queue_name c)) (all_names calls cs)
      (all_names-Repeats calls cs measured named.1 shared)
all_names-Repeats calls (c ∷ cs) measured named (inl (d, i, same)) =
    let q = queue_name c in
    let n : Str = codes "workqueue_depth_" ++ q in
    let same_name = SameQueue-queue_name c d named.0 (All-In _ named.1 i) same in
    Repeats-append (names_of calls q) (all_names calls cs) n
      (names_of-In calls depth q n measured refl)
      (all_names-In calls cs d n i (
        subst (λ t. In n (names_of calls t)) same_name (names_of-In calls depth q n measured refl)))
