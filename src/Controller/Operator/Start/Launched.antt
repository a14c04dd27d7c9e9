-- ===== src/Controller/Operator/Start/Launched.antt =====
-- The operator that `New` of pkg/controller/controller.go makes with a flusher or a purger of its own.
use saiki.Prelude.{
  Str, ◌≡◌, refl, sym, subst, ap, ◌∙◌, ◌⊎◌, inl, inr, Bool, true, false, List, Option, none, some,
  if◌then◌else◌, codes,
}
use saiki.Prelude.Int.{pos, ltb_ℤ}
use saiki.Prelude.Dict.{Dict}
use saiki.Errors.{Error, Result, ok, err}
use saiki.Controller.Cache.{Cache}
use saiki.Controller.Policy.{BackupPolicy, RpoPolicy}
use saiki.Controller.Flusher.{Flush, new_flush}
use saiki.Controller.Purger.{new_purge}
use saiki.Controller.Operator.{Item, Operator, OperatorState}
use saiki.Controller.Operator.Dynamics.{ApiResourceList, get_dynamics}
use saiki.Controller.Operator.Factory.{Dynamic, dynamic_factory}
use saiki.Controller.Operator.Run.{run_worker, Ran}
use saiki.Controller.Operator.Unbroken.{Drains, Survives, run_worker-Drains, run_from_wait-Survives}
use saiki.Controller.Operator.Http.{HttpOptions, HttpHandler, start_http_server}
use saiki.Controller.Operator.Life.{Life, Steps, begun, ended}
use saiki.Controller.Operator.Life.Explained.{Phased, Steps-Explained}
use saiki.Controller.Operator.Start.{
  OperatorOptions, Cluster, Started, exited, panicked, running, new_operator, with_flusher,
  with_purger, with_reaper, configured, watched, has_interval, ticks, with_queues,
}
use saiki.Controller.Operator.Queues.{new_queues}

has_interval-some :
    (p : Option RpoPolicy)
    → has_interval p ≡ true
    → (d : RpoPolicy) × (p ≡ some d) × (ltb_ℤ (pos 0) d.rpo ≡ true)
has_interval-some none h = cc
has_interval-some (some d) h = (d, refl, h)

module _ {U S R : Type 0} (cluster : Cluster U S R) (opts : OperatorOptions U S) where
  -- if it runs, its policy is the option's
  abbrev GivenPolicy : Started U S → Type 0
  GivenPolicy (exited m) = Unit
  GivenPolicy panicked = Unit
  GivenPolicy (running s) = s.backup_policy ≡ opts.backup_policy

  -- if it runs, its policy is the option's, which has an interval
  abbrev Timed : Started U S → Type 0
  Timed (exited m) = Unit
  Timed panicked = Unit
  Timed (running s) =
      (s.backup_policy ≡ opts.backup_policy) × (has_interval opts.backup_policy.rpo_policy ≡ true)

  with_queues-GivenPolicy :
      (o : Option R) (clients : List Dynamic) (f : Flush U) (p : Cache U) (s : S)
      → GivenPolicy (with_queues cluster opts o clients f p s)
  unfolding with_queues
  with_queues-GivenPolicy none clients f p s = tt
  with_queues-GivenPolicy (some r) clients f p s = refl

  watched-GivenPolicy :
      (r : Result (List Dynamic)) (f : Flush U) (p : Cache U) (s : S)
      → GivenPolicy (watched cluster opts r f p s)
  unfolding watched
  watched-GivenPolicy (err e) f p s = tt
  watched-GivenPolicy (ok clients) f p s =
      with_queues-GivenPolicy
        (new_queues cluster.registerer cluster.queue_metrics clients cluster.registry) clients f p s

  configured-GivenPolicy :
      (r : Result (List ApiResourceList)) (f : Flush U) (p : Cache U) (s : S)
      → GivenPolicy (configured cluster opts r f p s)
  unfolding configured
  configured-GivenPolicy (err e) f p s = tt
  configured-GivenPolicy (ok resources) f p s = go (cluster.write_config resources s)
    where
      go :
          (w : Option Error × S)
          → GivenPolicy (elim w.0 as (λ _. Started U S) [
            | some x ↦ exited (codes "writing config")
            | none ↦
                watched cluster opts
                  (get_dynamics
                    (dynamic_factory cluster.parse_group_version)
                    resources
                    opts.backup_policy.rules)
                  f
                  p
                  w.1
          ])
      go (some x, s') = tt
      go (none, s') =
          watched-GivenPolicy
            (get_dynamics (dynamic_factory cluster.parse_group_version) resources
              opts.backup_policy.rules)
            f p s'

  if-GivenPolicy :
      (b : Bool) (x y : Started U S)
      → GivenPolicy x
      → GivenPolicy y
      → GivenPolicy (if b then x else y)
  if-GivenPolicy true x y hx hy = hx
  if-GivenPolicy false x y hx hy = hy

  with_reaper-GivenPolicy :
      (f : Flush U) (p : Cache U) (s : S) → GivenPolicy (with_reaper cluster opts f p s)
  unfolding with_reaper
  with_reaper-GivenPolicy f p s =
      let h = configured-GivenPolicy cluster.server_groups_and_resources f p s in
      if-GivenPolicy opts.has_reaper _ _ h (if-GivenPolicy (ticks opts.reap_interval) _ _ h tt)

  Timed-intro :
      (x : Started U S)
      → GivenPolicy x
      → has_interval opts.backup_policy.rpo_policy ≡ true
      → Timed x
  Timed-intro (exited m) g h = tt
  Timed-intro panicked g h = tt
  Timed-intro (running s) g h = (g, h)

  if-Timed :
      (x : Started U S)
      → GivenPolicy x
      → Timed (if has_interval opts.backup_policy.rpo_policy then x else panicked)
  if-Timed x g = go (has_interval opts.backup_policy.rpo_policy) refl
    where
      go :
          (b : Bool)
          → has_interval opts.backup_policy.rpo_policy ≡ b
          → Timed (if b then x else panicked)
      go true h = Timed-intro x g h
      go false h = tt

  with_purger-GivenPolicy :
      (p : Option (Cache U)) (f : Flush U) (s : S) → GivenPolicy (with_purger cluster opts p f s)
  unfolding with_purger
  with_purger-GivenPolicy (some p) f s = with_reaper-GivenPolicy f p s
  with_purger-GivenPolicy none f s =
      if-GivenPolicy (has_interval opts.backup_policy.rpo_policy) _ _
        (with_reaper-GivenPolicy f new_purge s) tt

  with_purger-Timed : (f : Flush U) (s : S) → Timed (with_purger cluster opts none f s)
  unfolding with_purger
  with_purger-Timed f s = if-Timed _ (with_reaper-GivenPolicy f new_purge s)

  with_flusher-Timed :
      (f : Option (Flush U)) (s : S)
      → (f ≡ none) ⊎ (opts.purger ≡ none)
      → Timed (with_flusher cluster opts f s)
  unfolding with_flusher
  with_flusher-Timed none s e = if-Timed _ (with_purger-GivenPolicy opts.purger new_flush s)
  with_flusher-Timed (some f) s (inl e) = cc
  with_flusher-Timed (some f) s (inr e) = rw e (with_purger-Timed f s)

  new_operator-Timed :
      (opts.flusher ≡ none) ⊎ (opts.purger ≡ none) → Timed (new_operator cluster opts)
  unfolding new_operator
  new_operator-Timed e = go opts.storer
    where
      go :
          (o : Option S)
          → Timed (elim o as (λ _. Started U S) [
            | none ↦ exited (codes "storer must be set")
            | some s ↦ with_flusher cluster opts opts.flusher s
          ])
      go none = tt
      go (some s) = with_flusher-Timed opts.flusher s e

  run_ends :
      {F : Type 0} (o : Operator U S F) (h : HttpOptions) (s : OperatorState U S) (l : Life U S)
      (d : RpoPolicy) (r : Ran U S) (mux : Dict Str HttpHandler)
      → s.backup_policy.rpo_policy ≡ some d
      → start_http_server h ≡ some mux
      → Steps o h (begun s) l
      → l.phase ≡ ended r
      → Survives o d r
  run_ends o h s l d r mux given served steps e =
      elim (subst (Phased o h s l) e (Steps-Explained o h s steps)).1 [
        | inl (synced, items, ran, all) ↦
            subst (Survives o d) ran (run_from_wait-Survives o d synced items s given)
        | inr (panic, refused) ↦ absurd (cc (sym served ∙ refused))
      ]

  -- `New` returns only if the policy has a default RPO policy with a positive RPO, wherever it makes a
  -- flusher or a purger of its own (it panics elsewhere); and no worker of the operator that it returns
  -- ever panics: each takes every item of its queue, and the default stays in the policy. Where the
  -- HTTP handlers can be registered, nor does its `Run` panic, whatever comes between its steps and
  -- those of the HTTP server: wherever it ends, it ends with an error before the workers, or with
  -- their work done.
  pub new_operator-run_worker :
      {F : Type 0} (s : OperatorState U S) (o : Operator U S F) (items : List (Item U))
      (h : HttpOptions) (mux : Dict Str HttpHandler) (l : Life U S) (r : Ran U S)
      → (opts.flusher ≡ none) ⊎ (opts.purger ≡ none)
      → new_operator cluster opts ≡ running s
      → start_http_server h ≡ some mux
      → Steps o h (begun s) l
      → l.phase ≡ ended r
      → (d : RpoPolicy) × (opts.backup_policy.rpo_policy ≡ some d)
        × (ltb_ℤ (pos 0) d.rpo ≡ true)
        × Drains o d (run_worker o items s)
        × Survives o d r
  new_operator-run_worker s o items h mux l r e started served steps end =
      let (kept, timed) = subst Timed started (new_operator-Timed e) in
      let (d, given, positive) = has_interval-some opts.backup_policy.rpo_policy timed in
      let own = ap (λ (b : BackupPolicy U). b.rpo_policy) kept ∙ given in
      (
        d,
        given,
        positive,
        run_worker-Drains o d items s own,
        run_ends o h s l d r mux own served steps end,
      )
