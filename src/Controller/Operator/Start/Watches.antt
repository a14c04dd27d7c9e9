-- ===== src/Controller/Operator/Start/Watches.antt =====
-- Which handlers the clients leave that `New` of pkg/controller/controller.go watches.
use saiki.Prelude.{
  ◌≡◌, ◌≢◌, refl, ap, ◌∙◌, ◌⊎◌, inl, inr, false, List, [], ◌∷◌, Option, none, some, arith,
  if◌then◌else◌, Str, ◌==◌, str_eq, str_beq_iff, In, here, there, All, All-In, Bool-cases,
}
use saiki.Prelude.Dict.{lookup, insert, lookup-insert}
use saiki.Handler.{ResourceHandler, ResourceHandlers, handler_key, handler_for, set_handler}
use saiki.Handler.Keys.{IsWatchable, cluster-IsWatchable, handler_key-injective}
use saiki.Controller.Operator.Factory.{Dynamic}
use saiki.Controller.Operator.Start.{watch_dynamic, watch_all}

differs : (a b : Str) → (a == b) ≡ false → a ≢ b
differs a b n e = ground (arith, n, (str_beq_iff a b).1 e)

module _ {U : Type 0} (inform : Dynamic → ResourceHandler U) where
  abbrev client_key : Dynamic → Str
  client_key c = handler_key c.group_version c.kind c.namespace

  -- no client has the key
  abbrev KeyUnwatched : Str → List Dynamic → Type 0
  KeyUnwatched k = All (λ c. client_key c ≢ k)

  -- the handler of one of the clients that have the key
  abbrev KeyWatched : Str → List Dynamic → Option (ResourceHandler U) → Type 0
  KeyWatched k clients o = (c : Dynamic) × In c clients × (client_key c ≡ k) × (o ≡ some (inform c))

  lookup-watch_all :
      (k : Str) (clients : List Dynamic) (r : ResourceHandlers U)
      → KeyWatched k clients (lookup k (watch_all inform clients r))
        ⊎ (KeyUnwatched k clients × (lookup k (watch_all inform clients r) ≡ lookup k r))
  unfolding watch_all watch_dynamic set_handler
  lookup-watch_all k [] r = inr (tt, refl)
  lookup-watch_all k (c ∷ clients) r =
      elim (lookup-watch_all k clients (insert (client_key c) (inform c) r)) [
        | inl (d, m, e, s) ↦ inl (d, there m, e, s)
        | inr (u, s) ↦
            let written = s ∙ lookup-insert (client_key c) k (inform c) r in
            elim (Bool-cases (client_key c == k)) [
              | inl y ↦ inl (
                c,
                here,
                (str_beq_iff (client_key c) k).0 y,
                written ∙ ap (λ b. if b then some (inform c) else lookup k r) y,
              )
              | inr n ↦ inr (
                (differs (client_key c) k n, u),
                written ∙ ap (λ b. if b then some (inform c) else lookup k r) n,
              )
            ]
      ]

  -- the API version, the kind and the namespace of a client
  abbrev pub Has : Str → Str → Str → Dynamic → Type 0
  Has v k n c = (c.group_version ≡ v) × (c.kind ≡ k) × (c.namespace ≡ n)

  -- no client has the three
  abbrev pub Unwatched : Str → Str → Str → List Dynamic → Type 0
  Unwatched v k n = All (λ c. ¬ (Has v k n c))

  -- the handler of one of the clients that have the three
  abbrev pub WatchedAs : Str → Str → Str → List Dynamic → Option (ResourceHandler U) → Type 0
  WatchedAs v k n clients o = (c : Dynamic) × In c clients × Has v k n c × (o ≡ some (inform c))

  abbrev pub Watchable : List Dynamic → Type 0
  Watchable = All (λ c. IsWatchable c.group_version c.kind c.namespace)

  Unwatched-keys :
      (v k n : Str) (clients : List Dynamic)
      → KeyUnwatched (handler_key v k n) clients
      → Unwatched v k n clients
  Unwatched-keys v k n [] h = tt
  Unwatched-keys v k n (c ∷ clients) h =
      ((λ (ev, ek, en). h.0 (rw (ev, ek, en) refl)), Unwatched-keys v k n clients h.1)

  at_names :
      (v k n : Str) (clients : List Dynamic) (o : Option (ResourceHandler U))
      → IsWatchable v k n
      → Watchable clients
      → KeyWatched (handler_key v k n) clients o
        ⊎ (KeyUnwatched (handler_key v k n) clients × (o ≡ none))
      → WatchedAs v k n clients o ⊎ (Unwatched v k n clients × (o ≡ none))
  at_names v k n clients o h all (inl (c, m, e, s)) =
      inl (
        c,
        m,
        handler_key-injective c.group_version c.kind c.namespace v k n (All-In _ all m) h e,
        s,
      )
  at_names v k n clients o h all (inr (u, s)) = inr (Unwatched-keys v k n clients u, s)

  -- what the clients leave at an API version, a kind and a namespace
  abbrev pub Handled : List Dynamic → Str → Str → Str → Option (ResourceHandler U) → Type 0
  Handled clients v k n o =
      WatchedAs v k n clients o
      ⊎ (Unwatched v k n clients
          × (WatchedAs v k [] clients o ⊎ (Unwatched v k [] clients × (o ≡ none))))

  -- At an API version, a kind and a namespace with plain names the handlers of an operator give the
  -- handler of a client with just these, if the clients' names are plain too; where no client has
  -- them, that of a client of the whole cluster, with the API version and the kind; and where there is
  -- none of either, no handler at all.
  pub handler_for-watch_all :
      (clients : List Dynamic) (v k n : Str)
      → Watchable clients
      → IsWatchable v k n
      → Handled clients v k n (handler_for (watch_all inform clients []) v k n)
  unfolding handler_for lookup
  handler_for-watch_all clients v k n all h =
      let found = λ (n : Str). lookup (handler_key v k n) (watch_all inform clients []) in
      go (found n) (found [])
        (at_names v k n clients (found n) h all (lookup-watch_all (handler_key v k n) clients []))
        (at_names v k [] clients (found []) (cluster-IsWatchable v k n h) all
          (lookup-watch_all (handler_key v k []) clients []))
    where
      go :
          (own cluster : Option (ResourceHandler U))
          → WatchedAs v k n clients own ⊎ (Unwatched v k n clients × (own ≡ none))
          → WatchedAs v k [] clients cluster ⊎ (Unwatched v k [] clients × (cluster ≡ none))
          → Handled clients v k n (elim own [ none ↦ cluster | some h ↦ some h ])
      go none cluster (inl (c, m, e, s)) more = cc
      go none cluster (inr (u, s)) more = inr (u, more)
      go (some h) cluster (inl w) more = inl w
      go (some h) cluster (inr (u, s)) more = cc
