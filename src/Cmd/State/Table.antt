-- ===== src/Cmd/State/Table.antt =====
-- What the table of cmd/state.go leaves out is the same on each of its lines.
use saiki.Prelude.{
  ◌≡◌, refl, ◌⊎◌, inl, inr, Bool, true, List, [], Option, none, some, Str, str_eq, arith, All,
  All-mono, Bool-cases,
}
use saiki.Golang.Time.{Time, is_zero, after}
use saiki.Errors.{Result}
use saiki.Store.Revision.{Revision}
use saiki.Store.Config.{ApiResource}
use saiki.Store.Storage.{Env, RevisionStore}
use saiki.Store.Storage.State.{StateOptions, state}
use saiki.Store.Storage.State.Filters.{Meets, state-AllPass}
use saiki.Cmd.State.Asks.{state_command-asks}
use saiki.Cmd.State.{StateFlags, asks, options_for, show_namespaces, asked_namespace, state_command}

module _ {U : Type 0} where
  -- A revision has what the options ask for wherever the table has no column for it; `shows` is
  -- whether it has one for the namespace.
  abbrev pub Told : StateOptions U → Bool → Revision U → Type 0
  Told o shows rev =
      ((o.api_version ≡ []) ⊎ (rev.api_version ≡ o.api_version))
      × ((o.kind ≡ []) ⊎ (rev.kind ≡ o.kind))
      × ((o.name ≡ []) ⊎ (rev.name ≡ o.name))
      × ((shows ≡ true) ⊎ ((o.namespace ≡ []) ⊎ (rev.namespace ≡ o.namespace)))
      × ((is_zero o.time ≡ true) ⊎ (after o.time rev.revision_timestamp ≡ true))

  -- With all namespaces asked for, the table has a column for them unless it needs none.
  abbrev NamesThem : StateOptions U → Bool → Type 0
  NamesThem o shows = o.all_namespaces ≡ true → (shows ≡ true) ⊎ (o.namespace ≡ [])

  told_namespace :
      (o : StateOptions U) (shows : Bool) (rev : Revision U)
      → NamesThem o shows
      → (o.all_namespaces ≡ true) ⊎ ((o.namespace ≡ []) ⊎ (rev.namespace ≡ o.namespace))
      → (shows ≡ true) ⊎ ((o.namespace ≡ []) ⊎ (rev.namespace ≡ o.namespace))
  told_namespace o shows rev n (inr h) = inr h
  told_namespace o shows rev n (inl e) = elim (n e) [ inl s ↦ inl s | inr m ↦ inr (inl m) ]

  Meets-Told :
      (o : StateOptions U) (shows : Bool) (rk : Str) (rev : Revision U)
      → NamesThem o shows
      → Meets o rk rev
      → Told o shows rev
  Meets-Told o shows rk rev n (e, version, kind, name, namespace, deleted, time, labels) =
      (version, kind, name, told_namespace o shows rev n namespace, time)

  module _ (mapping : Str → Result (Str × ApiResource))
      (parse_selector : Str → Result (Result (U → Bool))) (now : Time) where
    options_for-NamesThem :
        (f : StateFlags) (args : List Str) (resource : Option (Str × ApiResource))
        (selector : Option (Result (U → Bool)))
        → NamesThem (options_for now f args resource selector) (show_namespaces f resource)
    unfolding options_for show_namespaces asked_namespace
    options_for-NamesThem f args none selector e = inr refl
    options_for-NamesThem f args (some m) selector e = elim (Bool-cases m.1.namespaced) [
      | inl y ↦ inl (ground (arith, y, e))
      | inr n ↦ inr (ground (arith, n))
    ]

    -- If the command asks the store, every revision that it shows agrees with the options in all that
    -- the table has no column for: the API version, the kind, the name, and the namespace, unless the
    -- options leave it open; and it is from before the options' time, unless that is zero.
    pub state_command-Told :
        {B : Type 0} (f : StateFlags) (args : List Str) (env : Env U B) (s : RevisionStore B)
        (o : StateOptions U) (shows : Bool)
        → state_command mapping parse_selector now f args ≡ asks o shows
        → All (λ entry. All (Told o shows) entry.1) (state env o s).0.0
    state_command-Told f args env s o shows e =
        let n =
          state_command-asks mapping parse_selector now f NamesThem (options_for-NamesThem f) args o
            shows e in
        All-mono _ _ (state env o s).0.0
          (λ entry h.
            All-mono (Meets o entry.0) (Told o shows) entry.1
              (λ rev p. Meets-Told o shows entry.0 rev n p) h)
          (state-AllPass env o s)
