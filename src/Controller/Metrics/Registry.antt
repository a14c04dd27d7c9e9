-- ===== src/Controller/Metrics/Registry.antt =====
-- Registration of metrics under the documented behaviour of the Prometheus library.
use saiki.Prelude.{
  ◌≡◌, ◌≢◌, refl, sym, ap, ◌∙◌, ◌⊎◌, inl, inr, true, false, List, [], ◌∷◌, ◌++◌, Option, none, some,
  if◌then◌else◌, Str, ◌==◌, str_eq, str_beq_iff, All, In, here, there, Bool-cases, Option-cases,
  arith,
}
use mathlib.Core.Path.{fun_ext}
use saiki.Controller.Metrics.{Registerer, metric_char, must_register_all, ◌>>=◌}

-- `MustRegister` registers a well-formed name that is not registered, and nothing but this name; it
-- panics on a name that is.
pub record Registers {R : Type 0} (lib : Registerer R) : Type 0 where
  pub accepts :
      (name : Str) (r : R)
      → All (λ c. metric_char c ≡ true) name
      → lib.registered r name ≡ false
      → (r' : R) × (lib.must_register name r ≡ some r')
  pub refuses :
      (name : Str) (r : R) → lib.registered r name ≡ true → lib.must_register name r ≡ none
  pub adds_name :
      (name other : Str) (r r' : R)
      → lib.must_register name r ≡ some r'
      → lib.registered r' other ≡ (if other == name then true else lib.registered r other)

pub >>=-assoc :
    {A B C : Type 0} (o : Option A) (f : A → Option B) (g : B → Option C)
    → ((o >>= f) >>= g) ≡ (o >>= λ a. f a >>= g)
>>=-assoc none f g = refl
>>=-assoc (some a) f g = refl

some-injective : {A : Type 0} {x y : A} → some x ≡ some y → x ≡ y
some-injective e = cc

-- no name stands twice
abbrev pub NoRepeat : List Str → Type 0
NoRepeat [] = Unit
NoRepeat (n ∷ ns) = All (λ other. other ≢ n) ns × NoRepeat ns

-- some name stands twice
abbrev pub Repeats : List Str → Type 0
Repeats [] = ⊥
Repeats (n ∷ ns) = In n ns ⊎ Repeats ns

module _ {R : Type 0} (lib : Registerer R) where
  pub must_register_all-append :
      (ms ns : List Str) (r : R)
      → must_register_all lib (ms ++ ns) r
        ≡ (must_register_all lib ms r >>= λ r'. must_register_all lib ns r')
  unfolding must_register_all
  must_register_all-append [] ns r = refl
  must_register_all-append (m ∷ ms) ns r = rw (fun_ext (λ r'. must_register_all-append ms ns r')) (
      sym (
        >>=-assoc (lib.must_register m r) (λ r'. must_register_all lib ms r')
          (λ r'. must_register_all lib ns r')))

module _ {R : Type 0} (lib : Registerer R) (laws : Registers lib) where
  abbrev Unregistered : R → List Str → Type 0
  Unregistered r = All (λ n. lib.registered r n ≡ false)

  still_unregistered :
      (n other : Str) (r r' : R)
      → lib.must_register n r ≡ some r'
      → lib.registered r other ≡ false
      → other ≢ n
      → lib.registered r' other ≡ false
  still_unregistered n other r r' e h d = elim (Bool-cases (other == n)) [
    | inl y ↦ absurd (d ((str_beq_iff other n).0 y))
    | inr other_name ↦
        laws.adds_name n other r r' e
        ∙ ap (λ b. if b then true else lib.registered r other) other_name
        ∙ h
  ]

  Unregistered-tail :
      (n : Str) (ns : List Str) (r r' : R)
      → lib.must_register n r ≡ some r'
      → Unregistered r ns
      → All (λ other. other ≢ n) ns
      → Unregistered r' ns
  Unregistered-tail n [] r r' e h d = tt
  Unregistered-tail n (m ∷ ns) r r' e h d =
      (still_unregistered n m r r' e h.0 d.0, Unregistered-tail n ns r r' e h.1 d.1)

  -- Names that are well-formed, all different and not registered are registered without a panic.
  pub must_register_all-some :
      (ns : List Str) (r : R)
      → All (All (λ c. metric_char c ≡ true)) ns
      → NoRepeat ns
      → All (λ n. lib.registered r n ≡ false) ns
      → (r' : R) × (must_register_all lib ns r ≡ some r')
  unfolding must_register_all
  must_register_all-some [] r v d u = (r, refl)
  must_register_all-some (n ∷ ns) r v d u =
      let (r1, e) = laws.accepts n r v.0 u.0 in
      let (r2, e') = must_register_all-some ns r1 v.1 d.1 (Unregistered-tail n ns r r1 e u.1 d.0) in
      (r2, ap (λ o. o >>= λ r'. must_register_all lib ns r') e ∙ e')

  -- What was not registered before some other names is not registered after them.
  pub must_register_all-unregistered :
      (ns : List Str) (other : Str) (r r' : R)
      → lib.registered r other ≡ false
      → All (λ n. other ≢ n) ns
      → must_register_all lib ns r ≡ some r'
      → lib.registered r' other ≡ false
  unfolding must_register_all
  must_register_all-unregistered [] other r r' u d e = rw (← (some-injective e)) u
  must_register_all-unregistered (n ∷ ns) other r r' u d e =
      elim (Option-cases (lib.must_register n r)) [
        | inl x ↦ absurd (cc (sym e ∙ ap (λ o. o >>= λ s. must_register_all lib ns s) x))
        | inr (s, x) ↦
            must_register_all-unregistered ns other s r' (still_unregistered n other r s x u d.0)
              d.1 (sym (ap (λ o. o >>= λ s. must_register_all lib ns s) x) ∙ e)
      ]

  kept :
      (n other : Str) (r r' : R)
      → lib.must_register n r ≡ some r'
      → lib.registered r other ≡ true
      → lib.registered r' other ≡ true
  kept n other r r' e h = laws.adds_name n other r r' e ∙ ground (arith, h)

  registered-none :
      (n : Str) (ns : List Str) (r : R)
      → lib.registered r n ≡ true
      → In n ns
      → must_register_all lib ns r ≡ none
  unfolding must_register_all
  registered-none n [] r h i = elim i [ ]
  registered-none n (_ ∷ ns) r h here =
      ap (λ o. o >>= λ r'. must_register_all lib ns r') (laws.refuses n r h)
  registered-none n (m ∷ ns) r h (there i) = elim (Option-cases (lib.must_register m r)) [
    | inl e ↦ ap (λ o. o >>= λ r'. must_register_all lib ns r') e
    | inr (r', e) ↦
        ap (λ o. o >>= λ r''. must_register_all lib ns r'') e
        ∙ registered-none n ns r' (kept m n r r' e h) i
  ]

  registered_now :
      (n : Str) (r r' : R) → lib.must_register n r ≡ some r' → lib.registered r' n ≡ true
  registered_now n r r' e =
      laws.adds_name n n r r' e
      ∙ ap (λ b. if b then true else lib.registered r n) ((str_beq_iff n n).1 refl)

  -- A name that stands twice makes the registration panic.
  pub must_register_all-none :
      (ns : List Str) (r : R) → Repeats ns → must_register_all lib ns r ≡ none
  unfolding must_register_all
  must_register_all-none [] r h = absurd h
  must_register_all-none (n ∷ ns) r h = elim (Option-cases (lib.must_register n r)) [
    | inl e ↦ ap (λ o. o >>= λ r'. must_register_all lib ns r') e
    | inr (r', e) ↦ ap (λ o. o >>= λ r''. must_register_all lib ns r'') e ∙ (elim h [
      | inl i ↦ registered-none n ns r' (registered_now n r r' e) i
      | inr again ↦ must_register_all-none ns r' again
    ])
  ]
