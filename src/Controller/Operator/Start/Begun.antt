-- ===== src/Controller/Operator/Start/Begun.antt =====
-- Whether `New` of pkg/controller/controller.go ends with an operator, once the cluster and the store
-- have answered.
use saiki.Prelude.{
  ◌⊎◌, inl, inr, ◌≡◌, refl, sym, ap, subst, ◌∙◌, Bool, true, List, Option, none, some,
  if◌then◌else◌, Str, All, In, false, [], codes,
}
use saiki.Errors.{Error, ok}
use saiki.Controller.Cache.{Cache}
use saiki.Controller.Flusher.{Flush, new_flush}
use saiki.Controller.Purger.{new_purge}
use saiki.Controller.Metrics.{depth, init_metrics}
use saiki.Controller.Metrics.Registry.{Registers}
use saiki.Controller.Operator.Dynamics.{ApiResourceList, get_dynamics}
use saiki.Controller.Operator.Factory.{Dynamic, dynamic_factory}
use saiki.Controller.Operator.Queues.{new_queues}
use saiki.Controller.Operator.Queues.Named.{WellNamed}
use saiki.Controller.Operator.Queues.Names.{CalledOnce, DistinctQueues, SharedQueue}
use saiki.Controller.Operator.Queues.Registered.{new_queues-registered}
use saiki.Controller.Operator.Start.{
  OperatorOptions, Cluster, Started, exited, panicked, running, new_operator, with_flusher,
  with_purger, with_reaper, configured, watched, has_interval, ticks, watch_all, with_queues,
}

module _ {U S R : Type 0} (cluster : Cluster U S R) (opts : OperatorOptions U S) where
  abbrev pub given_flusher : Option (Flush U) → Flush U
  given_flusher none = new_flush
  given_flusher (some f) = f

  abbrev pub given_purger : Option (Cache U) → Cache U
  given_purger none = new_purge
  given_purger (some p) = p

  either : (b : Bool) (x y : Started U S) → x ≡ y → (if b then x else y) ≡ x
  either true x y e = refl
  either false x y e = cc

  with_reaper-configured :
      (f : Flush U) (p : Cache U) (s : S)
      → ticks opts.reap_interval ≡ true
      → with_reaper cluster opts f p s
        ≡ configured cluster opts cluster.server_groups_and_resources f p s
  unfolding with_reaper
  with_reaper-configured f p s t =
      let started : Started U S =
        configured cluster opts cluster.server_groups_and_resources f p s in
      either opts.has_reaper started (if ticks opts.reap_interval then started else panicked)
        (ap (λ b. if b then started else panicked) (sym t))

  with_purger-configured :
      (p : Option (Cache U)) (f : Flush U) (s : S)
      → has_interval opts.backup_policy.rpo_policy ≡ true
      → ticks opts.reap_interval ≡ true
      → with_purger cluster opts p f s
        ≡ configured cluster opts cluster.server_groups_and_resources f (given_purger p) s
  unfolding with_purger
  with_purger-configured (some p) f s h t = with_reaper-configured f p s t
  with_purger-configured none f s h t =
      ap (λ b. if b then with_reaper cluster opts f new_purge s else panicked) h
      ∙ with_reaper-configured f new_purge s t

  -- with intervals for the tickers, what is left of `New`
  with_flusher-configured :
      (f : Option (Flush U)) (s : S)
      → has_interval opts.backup_policy.rpo_policy ≡ true
      → ticks opts.reap_interval ≡ true
      → with_flusher cluster opts f s
        ≡ configured cluster opts cluster.server_groups_and_resources
            (given_flusher f)
            (given_purger opts.purger)
            s
  unfolding with_flusher
  with_flusher-configured (some f) s h t = with_purger-configured opts.purger f s h t
  with_flusher-configured none s h t =
      ap (λ b. if b then with_purger cluster opts opts.purger new_flush s else panicked) h
      ∙ with_purger-configured opts.purger new_flush s h t

  -- the operator that runs, with the handlers of its clients
  abbrev pub Runs : List Dynamic → S → Started U S → Type 0
  Runs clients stored (running s) =
      (s.resource_handlers ≡ watch_all cluster.inform clients [])
      × (s.backup_policy ≡ opts.backup_policy)
      × (s.flusher ≡ given_flusher opts.flusher)
      × (s.purger ≡ given_purger opts.purger)
      × (s.stored ≡ stored)
  Runs clients stored panicked = ⊥
  Runs clients stored (exited m) = ⊥

  configured-watched :
      (s s' : S) (resources : List ApiResourceList) (clients : List Dynamic) (f : Flush U)
      (p : Cache U)
      → cluster.write_config resources s ≡ (none, s')
      → get_dynamics
          (dynamic_factory cluster.parse_group_version)
          resources
          opts.backup_policy.rules
        ≡ ok clients
      → configured cluster opts (ok resources) f p s ≡ watched cluster opts (ok clients) f p s'
  unfolding configured
  configured-watched s s' resources clients f p ew ed =
      ap
        (λ (w : Option Error × S). elim w.0 as (λ _. Started U S) [
          | some x ↦ exited (codes "writing config")
          | none ↦
              watched cluster opts
                (get_dynamics (dynamic_factory cluster.parse_group_version) resources
                  opts.backup_policy.rules)
                f p w.1
        ])
        ew
      ∙ ap (λ r. watched cluster opts r f p s') ed

  new_operator-watched :
      (s s' : S) (resources : List ApiResourceList) (clients : List Dynamic)
      → opts.storer ≡ some s
      → has_interval opts.backup_policy.rpo_policy ≡ true
      → ticks opts.reap_interval ≡ true
      → cluster.server_groups_and_resources ≡ ok resources
      → cluster.write_config resources s ≡ (none, s')
      → get_dynamics
          (dynamic_factory cluster.parse_group_version)
          resources
          opts.backup_policy.rules
        ≡ ok clients
      → new_operator cluster opts
        ≡ watched cluster opts
            (ok clients)
            (given_flusher opts.flusher)
            (given_purger opts.purger)
            s'
  unfolding new_operator
  new_operator-watched s s' resources clients es h t er ew ed =
      ap
        (λ (o : Option S). elim o as (λ _. Started U S) [
          | none ↦ exited (codes "storer must be set")
          | some s ↦ with_flusher cluster opts opts.flusher s
        ])
        es
      ∙ with_flusher-configured opts.flusher s h t
      ∙ ap
          (λ r. configured cluster opts r (given_flusher opts.flusher) (given_purger opts.purger) s)
          er
      ∙ configured-watched s s' resources clients _ _ ew ed

  watched-Runs :
      (clients : List Dynamic) (s : S) (r : R)
      → new_queues cluster.registerer cluster.queue_metrics clients cluster.registry ≡ some r
      → Runs clients s (
          watched cluster opts
            (ok clients)
            (given_flusher opts.flusher)
            (given_purger opts.purger)
            s)
  unfolding watched
  watched-Runs clients s r e =
      subst
        (λ o. Runs clients s (
          with_queues cluster opts o clients (given_flusher opts.flusher) (given_purger opts.purger)
            s))
        (sym e) (refl, refl, refl, refl, refl)

  watched-panicked :
      (clients : List Dynamic) (f : Flush U) (p : Cache U) (s : S)
      → new_queues cluster.registerer cluster.queue_metrics clients cluster.registry ≡ none
      → watched cluster opts (ok clients) f p s ≡ panicked
  unfolding watched
  watched-panicked clients f p s e = ap (λ o. with_queues cluster opts o clients f p s) e

  -- Where the cluster and the store answer `New` and the tickers have positive intervals, `New` ends
  -- in one of two ways. Either no two of the policy's clients have the same version, kind and namespace
  -- and groups that are the same but for dashes and dots, and it makes an operator that watches them
  -- all; or two have, and it panics. The clients' names are those of Kubernetes, the library of queues
  -- calls no method of the provider twice for a queue, and the metrics' registry has just what `init`
  -- registered.
  pub new_operator-Runs :
      (s s' : S) (resources : List ApiResourceList) (clients : List Dynamic) (r0 : R)
      → opts.storer ≡ some s
      → has_interval opts.backup_policy.rpo_policy ≡ true
      → ticks opts.reap_interval ≡ true
      → cluster.server_groups_and_resources ≡ ok resources
      → cluster.write_config resources s ≡ (none, s')
      → get_dynamics
          (dynamic_factory cluster.parse_group_version)
          resources
          opts.backup_policy.rules
        ≡ ok clients
      → Registers cluster.registerer
      → ((n : Str) → cluster.registerer.registered r0 n ≡ false)
      → init_metrics cluster.registerer r0 ≡ some cluster.registry
      → CalledOnce cluster.queue_metrics
      → In depth cluster.queue_metrics
      → All WellNamed clients
      → (DistinctQueues clients × Runs clients s' (new_operator cluster opts))
        ⊎ (SharedQueue clients × (new_operator cluster opts ≡ panicked))
  new_operator-Runs s s' resources clients r0 es h t er ew ed laws nothing init once measured
        named =
      let e = new_operator-watched s s' resources clients es h t er ew ed in
      elim (new_queues-registered cluster.registerer laws cluster.queue_metrics r0 cluster.registry
        nothing init clients once measured named) [
          | inl (distinct, (r, q)) ↦
              inl (distinct, subst (Runs clients s') (sym e) (watched-Runs clients s' r q))
          | inr (shared, q) ↦ inr (
            shared,
            e
                ∙ watched-panicked clients (given_flusher opts.flusher) (given_purger opts.purger)
                    s' q,
          )
        ]
