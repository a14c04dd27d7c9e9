-- ===== src/Store/AsyncWriter/Answered.antt =====
-- The calls, the responses and the semaphore of pkg/store/asyncwriter.go.
use mathlib.Core.List.{Perm, perm_middle}
use mathlib.Core.List.Perm
use saiki.Prelude.{
  ◌+◌, ◌≡◌, refl, sym, subst, ap, List, [], ◌∷◌, ◌++◌, append-nil, append_assoc, length, arith,
}
use saiki.Store.AsyncWriter.{
  AsyncCall, Writes, writing, sending, Goroutine, AsyncState, AsyncSteps, acquired, refused,
  advanced, wrote, received, done, step,
}

-- the calls of the goroutines
abbrev pub calls_of : {U W : Type 0} → List (Goroutine U W) → List (AsyncCall U)
calls_of [] = []
calls_of (g ∷ gs) = g.call ∷ calls_of gs

calls_of-append :
    {U W : Type 0} (gs hs : List (Goroutine U W)) → calls_of (gs ++ hs) ≡ calls_of gs ++ calls_of hs
calls_of-append [] hs = refl
calls_of-append (g ∷ gs) hs = ap (λ l. g.call ∷ l) (calls_of-append gs hs)

-- another stage of one goroutine does not change the calls
calls_of-stage :
    {U W : Type 0} (before after : List (Goroutine U W)) (g h : Goroutine U W)
    → g.call ≡ h.call
    → calls_of (before ++ (g ∷ after)) ≡ calls_of (before ++ (h ∷ after))
calls_of-stage [] after g h e = ap (λ c. c ∷ calls_of after) e
calls_of-stage (x ∷ before) after g h e = ap (λ l. x.call ∷ l) (calls_of-stage before after g h e)

module _ {U S W : Type 0} (writes : Writes U S W) where
  -- the calls that get a unit, in their order
  pub begun : {a b : AsyncState U S W} → AsyncSteps writes a b → List (AsyncCall U)
  begun done = []
  begun (step (acquired call) rest) = call ∷ begun rest
  begun (step refused rest) = begun rest
  begun (step (advanced before after call w w' e) rest) = begun rest
  begun (step (wrote before after call w x e) rest) = begun rest
  begun (step (received before after call e) rest) = begun rest

  -- the calls whose response is taken, in their order
  pub answered : {a b : AsyncState U S W} → AsyncSteps writes a b → List (AsyncCall U)
  answered done = []
  answered (step (acquired call) rest) = answered rest
  answered (step refused rest) = answered rest
  answered (step (advanced before after call w w' e) rest) = answered rest
  answered (step (wrote before after call w x e) rest) = answered rest
  answered (step (received before after call e) rest) = call ∷ answered rest

  abbrev pub Answered : {a b : AsyncState U S W} → AsyncSteps writes a b → Type 0
  Answered {a} {b} steps =
      Perm (calls_of a.goroutines ++ begun steps) (answered steps ++ calls_of b.goroutines)
      × (b.free + length (begun steps) ≡ a.free + length (answered steps))

  abbrev Moved : List (AsyncCall U) → List (AsyncCall U) → List (AsyncCall U) → Type 0
  Moved running more end = Perm (running ++ more) end

  taken :
      (before after : List (Goroutine U W)) (g : Goroutine U W) (more end : List (AsyncCall U))
      → Perm (calls_of (before ++ after) ++ more) end
      → Perm (calls_of (before ++ (g ∷ after)) ++ more) (g.call ∷ end)
  taken before after g more end h =
      let xs = calls_of before in
      let ys = calls_of after in
      subst (λ l. Perm (l ++ more) (g.call ∷ end)) (sym (calls_of-append before (g ∷ after)))
        (subst (λ l. Perm l (g.call ∷ end)) (sym (append_assoc xs (g.call ∷ ys) more))
          (Perm.trans (perm_middle xs (ys ++ more)) (
            Perm.cons g.call (
              subst (λ l. Perm l end) (append_assoc xs ys more)
                (subst (λ l. Perm (l ++ more) end) (calls_of-append before after) h)))))

  -- However the callers, the actions of the writes and the receivers of the responses come between each
  -- other: the calls that ran or got a unit are, up to their order, those whose response was taken and
  -- those that still run, so that none is lost or answered twice; and a unit comes back exactly with a
  -- response that is taken, so that a response that nobody takes keeps its unit.
  pub steps-Answered : {a b : AsyncState U S W} (steps : AsyncSteps writes a b) → Answered steps
  unfolding begun answered
  steps-Answered {a = a} done = (
    subst (λ l. Perm l (calls_of a.goroutines)) (sym (append-nil (calls_of a.goroutines)))
        (Perm.refl (calls_of a.goroutines)),
    refl,
  )
  steps-Answered (step (acquired {gs = gs} call) rest) =
      let (moved, units) = steps-Answered rest in
      (Perm.trans (perm_middle (calls_of gs) (begun rest)) moved, omega (arith, units))
  steps-Answered (step refused rest) = steps-Answered rest
  steps-Answered {b = b} (step (advanced before after call w w' e) rest) =
      let (moved, units) = steps-Answered rest in
      (
        subst (λ l. Perm (l ++ begun rest) (answered rest ++ calls_of b.goroutines))
            (calls_of-stage before after (record { call = call; doing = writing w' })
              (record { call = call; doing = writing w }) refl)
            moved,
        units,
      )
  steps-Answered {b = b} (step (wrote before after call w x e) rest) =
      let (moved, units) = steps-Answered rest in
      (
        subst (λ l. Perm (l ++ begun rest) (answered rest ++ calls_of b.goroutines))
            (calls_of-stage before after (record { call = call; doing = sending x })
              (record { call = call; doing = writing w }) refl)
            moved,
        units,
      )
  steps-Answered {b = b} (step (received before after call e) rest) =
      let (moved, units) = steps-Answered rest in
      (
        taken before after (record { call = call; doing = sending e }) (begun rest)
            (answered rest ++ calls_of b.goroutines) moved,
        omega (arith, units),
      )
