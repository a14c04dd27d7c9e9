-- ===== src/Store/AsyncWriter.antt =====
-- pkg/store/asyncwriter.go: writes that run beside their caller, as many at a time as the semaphore has
-- room for. A goroutine writes, sends its response on an unbuffered channel, which blocks until the
-- response is taken, and only then closes the channel and releases its unit.
pub mod Answered
use saiki.Prelude.{ℕ, suc, ◌≡◌, ◌⊎◌, inl, inr, List, [], ◌∷◌, ◌++◌, Option}
use saiki.Errors.{Error}
use saiki.Store.Revision.{Revision}

-- the three calls
pub data AsyncCall (U : Type 0) : Type 0 where
  async_create async_update async_delete : Revision U → AsyncCall U

-- `Create`, `Update` and `Delete` of the embedded interface, in actions on the store that those of other
-- goroutines may come between: `W` is what is left of a write, and the last action gives its error.
pub record Writes (U S W : Type 0) : Type 0 where
  pub begin : AsyncCall U → W
  pub advance : W → S → (W ⊎ Option Error) × S

-- where a goroutine is: within its write, or blocked on sending its response
pub data Doing (W : Type 0) : Type 0 where
  writing : W → Doing W
  sending : Option Error → Doing W

pub record Goroutine (U W : Type 0) : Type 0 where
  pub call : AsyncCall U
  pub doing : Doing W

-- The semaphore's free units, the goroutines, and the store.
pub record AsyncState (U S W : Type 0) : Type 0 where
  pub free : ℕ
  pub goroutines : List (Goroutine U W)
  pub stored : S

module _ {U S W : Type 0} (writes : Writes U S W) where
  -- One step: a caller gets a unit and starts a goroutine; a caller whose context ends gets an error and
  -- starts none; one of the goroutines, `g`, makes an action of its write, ends its write, or has its
  -- response taken.
  pub data AsyncStep : AsyncState U S W → AsyncState U S W → Type 0 where
    acquired :
        {n : ℕ} {gs : List (Goroutine U W)} {s : S} (call : AsyncCall U)
        → AsyncStep
            (record { free = suc n; goroutines = gs; stored = s })
            (record {
              free = n;
              goroutines = record { call = call; doing = writing (writes.begin call) } ∷ gs;
              stored = s;
            })
    refused : {a : AsyncState U S W} → AsyncStep a a
    advanced :
        {n : ℕ} {s s' : S} (before after : List (Goroutine U W)) (call : AsyncCall U) (w w' : W)
        → writes.advance w s ≡ (inl w', s')
        → AsyncStep
            (record {
              free = n;
              goroutines = before ++ (record { call = call; doing = writing w } ∷ after);
              stored = s;
            })
            (record {
              free = n;
              goroutines = before ++ (record { call = call; doing = writing w' } ∷ after);
              stored = s';
            })
    wrote :
        {n : ℕ} {s s' : S} (before after : List (Goroutine U W)) (call : AsyncCall U) (w : W)
        (e : Option Error)
        → writes.advance w s ≡ (inr e, s')
        → AsyncStep
            (record {
              free = n;
              goroutines = before ++ (record { call = call; doing = writing w } ∷ after);
              stored = s;
            })
            (record {
              free = n;
              goroutines = before ++ (record { call = call; doing = sending e } ∷ after);
              stored = s';
            })
    received :
        {n : ℕ} {s : S} (before after : List (Goroutine U W)) (call : AsyncCall U)
        (e : Option Error)
        → AsyncStep
            (record {
              free = n;
              goroutines = before ++ (record { call = call; doing = sending e } ∷ after);
              stored = s;
            })
            (record { free = suc n; goroutines = before ++ after; stored = s })

  pub data AsyncSteps : AsyncState U S W → AsyncState U S W → Type 0 where
    done : {a : AsyncState U S W} → AsyncSteps a a
    step : {a b c : AsyncState U S W} → AsyncStep a b → AsyncSteps b c → AsyncSteps a c
