-- ===== src/Cmd/State/Asks.antt =====
-- What holds of the options whenever the subcommand `state` of cmd/state.go asks the store.
use saiki.Prelude.{
  ◌≡◌, subst, Bool, true, false, not, List, [], Option, none, some, if◌then◌else◌, Str, ◌==◌,
  str_eq, codes,
}
use saiki.Golang.Time.{Time}
use saiki.Errors.{Result, ok, err}
use saiki.Store.Config.{ApiResource}
use saiki.Store.Storage.State.{StateOptions}
use saiki.Cmd.State.{
  StateFlags, StateCommand, printed, fatal_exit, asks, options_for, show_namespaces, with_selector,
  state_command, asked_resource,
}

module _ {U : Type 0} (mapping : Str → Result (Str × ApiResource))
    (parse_selector : Str → Result (Result (U → Bool))) (now : Time) where
  -- what follows once the command asks the store
  abbrev IfAsks : StateCommand U → (StateOptions U → Bool → Type 0) → Type 0
  IfAsks (printed m) P = Unit
  IfAsks (fatal_exit m) P = Unit
  IfAsks (asks o shows) P = P o shows

  if-IfAsks :
      (b : Bool) (x y : StateCommand U) (P : StateOptions U → Bool → Type 0)
      → IfAsks x P
      → IfAsks y P
      → IfAsks (if b then x else y) P
  if-IfAsks true x y P hx hy = hx
  if-IfAsks false x y P hx hy = hy

  module _ (f : StateFlags) (P : StateOptions U → Bool → Type 0)
      (built : (args : List Str) (resource : Option (Str × ApiResource))
          (selector : Option (Result (U → Bool)))
        → P (options_for now f args resource selector) (show_namespaces f resource)) where
    with_selector-IfAsks :
        (args : List Str) (resource : Option (Str × ApiResource))
        → IfAsks (with_selector mapping parse_selector now f args resource) P
    unfolding with_selector
    with_selector-IfAsks args resource =
        if-IfAsks (f.label_selector == []) _ _ P (built args resource none)
          (if-IfAsks (not f.with_content) _ _ P tt (parsed (parse_selector f.label_selector)))
      where
        parsed :
            (r : Result (Result (U → Bool)))
            → IfAsks
                (elim r as (λ _. StateCommand U) [
                  | err e ↦ fatal_exit (codes "parsing labelselector")
                  | ok selector ↦
                      asks
                        (options_for now f args resource (some selector))
                        (show_namespaces f resource)
                ])
                P
        parsed (err e) = tt
        parsed (ok selector) = built args resource (some selector)

    state_command-IfAsks :
        (args : List Str) → IfAsks (state_command mapping parse_selector now f args) P
    unfolding state_command
    state_command-IfAsks args = resolved (asked_resource mapping parse_selector now args)
      where
        resolved :
            (r : Result (Option (Str × ApiResource)))
            → IfAsks
                (elim r as (λ _. StateCommand U) [
                  | err e ↦ printed (codes "error")
                  | ok resource ↦ with_selector mapping parse_selector now f args resource
                ])
                P
        resolved (err e) = tt
        resolved (ok resource) = with_selector-IfAsks args resource

    -- what holds of all options that can be built holds of those that are asked with
    pub state_command-asks :
        (args : List Str) (o : StateOptions U) (shows : Bool)
        → state_command mapping parse_selector now f args ≡ asks o shows
        → P o shows
    state_command-asks args o shows e = subst (λ c. IfAsks c P) e (state_command-IfAsks args)
