-- ===== src/Controller/Operator/Queues/Registered.antt =====
-- When the work queues of pkg/controller/controller.go can be made: the registration of their metrics.
use saiki.Prelude.{
  ℕ, Bool, ◌||◌, ◌==◌, nat_eq, ◌≡◌, refl, ◌∙◌, true, false, List, [], ◌∷◌, ◌++◌, none, some, Str,
  All, All-append, All-mono, All-In, In, arith, ◌⊎◌, inl, inr, here, there, Bool-cases, str_eq,
  str_beq_iff,
}
use saiki.Controller.Metrics.{
  QueueMetric, depth, Registerer, metric_char, init_metrics, other_names,
}
use saiki.Controller.Metrics.Names.{MadeFor-other, metric_name-MetricChars}
use saiki.Controller.Metrics.Registry.{
  Registers, must_register_all-some, must_register_all-none, must_register_all-unregistered,
}
use saiki.Controller.Operator.Factory.{Dynamic}
use saiki.Controller.Operator.Queues.{
  queue_name, new_queues, group_of, version_of, underscored, spelled,
}
use saiki.Controller.Operator.Queues.Names.{
  CalledOnce, DistinctQueues, SharedQueue, all_names, all_names-Client, all_names-NoRepeat,
  all_names-Repeats, new_queues-all_names,
}
use saiki.Controller.Operator.Queues.Inverse.{queue_name-SameQueue, SameQueue-queue_name}
use saiki.Controller.Operator.Queues.Named.{SameQueue, IsKind, WellNamed, of_group, upper}

-- the characters of the parts of a name
abbrev of_name : ℕ → Bool
of_name c = of_group c || upper c || c == b'_'

underscored_chars :
    (s : Str) → All (λ b. of_name b ≡ true) s → All (λ b. metric_char b ≡ true) (underscored s)
unfolding underscored
underscored_chars [] h = tt
underscored_chars (c ∷ s) h = (ground (arith, h.0), underscored_chars s h.1)

joined :
    (s t : Str)
    → All (λ b. of_name b ≡ true) s
    → All (λ b. of_name b ≡ true) t
    → All (λ b. of_name b ≡ true) (s ++ (b'_' ∷ t))
joined s t hs ht = All-append _ s (b'_' ∷ t) hs (refl, ht)

spelled_chars :
    (g v k n : Str)
    → All (λ b. of_name b ≡ true) g
    → All (λ b. of_name b ≡ true) v
    → All (λ b. of_name b ≡ true) k
    → All (λ b. of_name b ≡ true) n
    → All (λ b. of_name b ≡ true) (spelled g v k n)
unfolding spelled
spelled_chars [] v k [] hg hv hk hn = joined v k hv hk
spelled_chars [] v k (d ∷ n) hg hv hk hn = joined (v ++ (b'_' ∷ k)) (d ∷ n) (joined v k hv hk) hn
spelled_chars (c ∷ g) v k [] hg hv hk hn = joined (c ∷ g) (v ++ (b'_' ∷ k)) hg (joined v k hv hk)
spelled_chars (c ∷ g) v k (d ∷ n) hg hv hk hn =
    joined ((c ∷ g) ++ (b'_' ∷ (v ++ (b'_' ∷ k)))) (d ∷ n)
      (joined (c ∷ g) (v ++ (b'_' ∷ k)) hg (joined v k hv hk)) hn

kind_chars : (k : Str) → IsKind k → All (λ b. of_name b ≡ true) k
kind_chars [] h = absurd h
kind_chars (c ∷ k) h = (ground (arith, h.0), All-mono _ _ k (λ b e. ground (arith, e)) h.1)

name_chars : (c : Dynamic) → WellNamed c → All (λ b. metric_char b ≡ true) (queue_name c)
unfolding queue_name
name_chars c (hg, hv, hk, hn) =
    underscored_chars (spelled (group_of c) (version_of c) c.kind c.namespace) (
      spelled_chars (group_of c) (version_of c) c.kind c.namespace
        (All-mono _ _ (group_of c) (λ b e. ground (arith, e)) hg)
        (All-mono _ _ (version_of c) (λ b e. ground (arith, e)) hv) (kind_chars c.kind hk)
        (All-mono _ _ c.namespace (λ b e. ground (arith, e)) hn))

-- one of the clients has the queue of another, or none has
shares :
    (c : Dynamic) (cs : List Dynamic)
    → WellNamed c
    → All WellNamed cs
    → All (λ d. SameQueue c d → ⊥) cs ⊎ ((d : Dynamic) × In d cs × SameQueue c d)
shares c [] w ws = inl tt
shares c (d ∷ cs) w ws = elim (Bool-cases (queue_name c == queue_name d)) [
  | inl y ↦
      inr
        (d, here, queue_name-SameQueue c d w ws.0 ((str_beq_iff (queue_name c) (queue_name d)).0 y))
  | inr n ↦ elim (shares c cs w ws.1) [
    | inr (d', i, same) ↦ inr (d', there i, same)
    | inl distinct ↦ inl (
      (λ same. ground (
        arith,
        n,
        (str_beq_iff (queue_name c) (queue_name d)).1 (SameQueue-queue_name c d w ws.0 same),
      )),
      distinct,
    )
  ]
]

distinct_or_shared : (cs : List Dynamic) → All WellNamed cs → DistinctQueues cs ⊎ SharedQueue cs
distinct_or_shared [] ws = inl tt
distinct_or_shared (c ∷ cs) ws = elim (shares c cs ws.0 ws.1) [
  | inr same ↦ inr (inl same)
  | inl other ↦ elim (distinct_or_shared cs ws.1) [
    | inr shared ↦ inr (inr shared)
    | inl distinct ↦ inl (other, distinct)
  ]
]

module _ {R : Type 0} (lib : Registerer R) (laws : Registers lib) (calls : List QueueMetric)
    (r0 r : R) (nothing : (n : Str) → lib.registered r0 n ≡ false)
    (init : init_metrics lib r0 ≡ some r) where
  all_names-Unregistered :
      (cs : List Dynamic) → All (λ n. lib.registered r n ≡ false) (all_names calls cs)
  all_names-Unregistered cs =
      All-mono _ _ (all_names calls cs)
        (λ n (d, i, made).
          must_register_all-unregistered lib laws other_names n r0 r (nothing n)
            (MadeFor-other (queue_name d) n made) (unfold init_metrics in init))
        (all_names-Client calls cs)

  all_names-MetricChars :
      (cs : List Dynamic)
      → All WellNamed cs
      → All (All (λ b. metric_char b ≡ true)) (all_names calls cs)
  all_names-MetricChars cs named =
      All-mono _ _ (all_names calls cs)
        (λ n (d, i, (m, e)).
          metric_name-MetricChars m (queue_name d) n e (name_chars d (All-In _ named i)))
        (all_names-Client calls cs)

  -- The queues of clients, each method called once for a queue at most, and its depth measured: all
  -- are made, if no two of the clients have the same version, kind and namespace and groups that are the
  -- same but for dashes and dots; if two have, the registration panics.
  pub new_queues-registered :
      (cs : List Dynamic)
      → CalledOnce calls
      → In depth calls
      → All WellNamed cs
      → (DistinctQueues cs × ((r' : R) × (new_queues lib calls cs r ≡ some r')))
        ⊎ (SharedQueue cs × (new_queues lib calls cs r ≡ none))
  new_queues-registered cs once measured named = elim (distinct_or_shared cs named) [
    | inl distinct ↦
        let (r', e) =
          must_register_all-some lib laws (all_names calls cs) r (all_names-MetricChars cs named)
            (all_names-NoRepeat calls cs once named distinct) (all_names-Unregistered cs) in
        inl (distinct, (r', new_queues-all_names lib calls cs r ∙ e))
    | inr shared ↦ inr (
      shared,
      new_queues-all_names lib calls cs r
          ∙ must_register_all-none lib laws (all_names calls cs) r
              (all_names-Repeats calls cs measured named shared),
    )
  ]
