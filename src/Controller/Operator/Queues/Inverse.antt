-- ===== src/Controller/Operator/Queues/Inverse.antt =====
-- The parts of the name of a work queue, read back from the name.
use saiki.Prelude.{
  ℕ, ◌≡◌, refl, sym, subst, ap, ◌∙◌, Bool, true, false, [], ◌∷◌, ◌++◌, append_assoc, append-nil,
  Str, ◌==◌, str_eq, nat_eq, All, All-append, All-mono, arith,
}
use saiki.Controller.Operator.Factory.{Dynamic}
use saiki.Controller.Operator.Queues.{underscored, group_of, version_of, queue_name, spelled}
use saiki.Controller.Operator.Queues.Named.{
  lower_or_digit, upper, of_label, of_group, of_kind, IsKind, WellNamed, SameQueue,
}

underscored-append : (s t : Str) → underscored (s ++ t) ≡ underscored s ++ underscored t
unfolding underscored
underscored-append [] t = refl
underscored-append (c ∷ s) t = cc (underscored-append s t)

underscored_kept : (s : Str) → All (λ b. of_kind b ≡ true) s → underscored s ≡ s
unfolding underscored
underscored_kept [] h = refl
underscored_kept (c ∷ s) h = ground (arith, underscored_kept s h.1)

underscored_labels :
    (s t : Str)
    → All (λ b. of_label b ≡ true) s
    → All (λ b. of_label b ≡ true) t
    → underscored s ≡ underscored t
    → s ≡ t
unfolding underscored
underscored_labels [] [] hs ht e = refl
underscored_labels [] (d ∷ t) hs ht e = cc
underscored_labels (c ∷ s) [] hs ht e = cc
underscored_labels (c ∷ s) (d ∷ t) hs ht e = ground (arith, underscored_labels s t hs.1 ht.1)

-- A text that stops at the first character of a kind is determined by what it starts with.
module _ (stops : ℕ → Bool) where
  abbrev Stopped : Str → Type 0
  Stopped [] = Unit
  Stopped (c ∷ s) = stops c ≡ true

  until_stop :
      (p q s t : Str)
      → All (λ c. stops c ≡ false) p
      → All (λ c. stops c ≡ false) q
      → Stopped s
      → Stopped t
      → p ++ s ≡ q ++ t
      → (p ≡ q) × (s ≡ t)
  until_stop [] [] s t hp hq hs ht e = (refl, e)
  until_stop [] (d ∷ q) [] t hp hq hs ht e = cc
  until_stop [] (d ∷ q) (c ∷ s) t hp hq hs ht e = cc
  until_stop (c ∷ p) [] s [] hp hq hs ht e = cc
  until_stop (c ∷ p) [] s (d ∷ t) hp hq hs ht e = cc
  until_stop (c ∷ p) (d ∷ q) s t hp hq hs ht e =
      let (x, y) = until_stop p q s t hp.1 hq.1 hs ht (cc) in (cc, y)

-- a text with an underscore is no version
not_version : (y w : Str) → All (λ c. lower_or_digit c ≡ true) (y ++ (b'_' ∷ w)) → ⊥
not_version [] w h = absurd (ground arith)
not_version (d ∷ y) w h = not_version y w h.1

-- The text behind the last underscore.
last_part :
    (x y v w : Str)
    → All (λ c. lower_or_digit c ≡ true) v
    → All (λ c. lower_or_digit c ≡ true) w
    → x ++ (b'_' ∷ v) ≡ y ++ (b'_' ∷ w)
    → (x ≡ y) × (v ≡ w)
last_part [] [] v w hv hw e = (refl, cc)
last_part [] (d ∷ y) v w hv hw e =
    let t : v ≡ y ++ (b'_' ∷ w) = cc in
    absurd (not_version y w (subst (All (λ c. lower_or_digit c ≡ true)) t hv))
last_part (c ∷ x) [] v w hv hw e =
    let t : w ≡ x ++ (b'_' ∷ v) = cc in
    absurd (not_version x v (subst (All (λ c. lower_or_digit c ≡ true)) t hw))
last_part (c ∷ x) (d ∷ y) v w hv hw e = let (p, q) = last_part x y v w hv hw (cc) in (cc, q)

-- what stands before and behind the kind
abbrev stem : Str → Str → Str
stem [] version = version
stem (c ∷ group) version = underscored (c ∷ group) ++ (b'_' ∷ version)

abbrev rest : Str → Str
rest [] = []
rest (c ∷ namespace) = b'_' ∷ underscored (c ∷ namespace)

underscored_sep : (s : Str) → underscored (b'_' ∷ s) ≡ b'_' ∷ underscored s
unfolding underscored
underscored_sep s = refl

underscored_nil : underscored [] ≡ []
unfolding underscored
underscored_nil = refl

ruleset spelling = (underscored-append, underscored_sep, underscored_nil, append_assoc, append-nil)

underscored-spelled :
    (g v k n : Str)
    → underscored v ≡ v
    → underscored k ≡ k
    → underscored (spelled g v k n) ≡ (stem g v ++ (b'_' ∷ [])) ++ (k ++ rest n)
unfolding spelled
underscored-spelled [] v k [] hv hk = simp (spelling, hv, hk)
underscored-spelled [] v k (d ∷ n) hv hk = simp (spelling, hv, hk)
underscored-spelled (c ∷ g) v k [] hv hk =
    underscored-append (c ∷ g) (b'_' ∷ (v ++ (b'_' ∷ k))) ∙ simp (spelling, hv, hk)
underscored-spelled (c ∷ g) v k (d ∷ n) hv hk =
    underscored-append ((c ∷ g) ++ (b'_' ∷ (v ++ (b'_' ∷ k)))) (b'_' ∷ d ∷ n)
    ∙ ap (λ t. t ++ underscored (b'_' ∷ d ∷ n))
        (underscored-append (c ∷ g) (b'_' ∷ (v ++ (b'_' ∷ k))))
    ∙ simp (spelling, hv, hk)

group_lower :
    (g : Str) → All (λ b. of_group b ≡ true) g → All (λ b. upper b ≡ false) (underscored g)
unfolding underscored
group_lower [] h = tt
group_lower (c ∷ g) h = (ground (arith, h.0), group_lower g h.1)

version_lower : (v : Str) → All (λ b. lower_or_digit b ≡ true) v → All (λ b. upper b ≡ false) v
version_lower v h = All-mono _ _ v (λ c e. ground (arith, e)) h

stem_lower :
    (g v : Str)
    → All (λ b. of_group b ≡ true) g
    → All (λ b. lower_or_digit b ≡ true) v
    → All (λ b. upper b ≡ false) (stem g v ++ (b'_' ∷ []))
stem_lower [] v hg hv = All-append _ v (b'_' ∷ []) (version_lower v hv) (refl, tt)
stem_lower (c ∷ g) v hg hv =
    All-append _ (stem (c ∷ g) v) (b'_' ∷ [])
      (All-append _ (underscored (c ∷ g)) (b'_' ∷ v) (group_lower (c ∷ g) hg)
        (refl, version_lower v hv))
      (refl, tt)

stem_inj :
    (g v g' v' : Str)
    → All (λ b. lower_or_digit b ≡ true) v
    → All (λ b. lower_or_digit b ≡ true) v'
    → stem g v ≡ stem g' v'
    → (underscored g ≡ underscored g') × (v ≡ v')
stem_inj [] v [] v' hv hv' e = (refl, e)
stem_inj [] v (d ∷ g') v' hv hv' e =
    absurd (not_version (underscored (d ∷ g')) v' (subst (All (λ c. lower_or_digit c ≡ true)) e hv))
stem_inj (c ∷ g) v [] v' hv hv' e =
    absurd
      (not_version (underscored (c ∷ g)) v (subst (All (λ c. lower_or_digit c ≡ true)) (sym e) hv'))
stem_inj (c ∷ g) v (d ∷ g') v' hv hv' e =
    last_part (underscored (c ∷ g)) (underscored (d ∷ g')) v v' hv hv' e

rest_inj :
    (n n' : Str)
    → All (λ b. of_label b ≡ true) n
    → All (λ b. of_label b ≡ true) n'
    → rest n ≡ rest n'
    → n ≡ n'
rest_inj [] [] h h' e = refl
rest_inj [] (d ∷ n') h h' e = cc
rest_inj (c ∷ n) [] h h' e = cc
rest_inj (c ∷ n) (d ∷ n') h h' e = underscored_labels (c ∷ n) (d ∷ n') h h' (cc)

kind_stops : (k t : Str) → IsKind k → Stopped upper (k ++ t)
kind_stops [] t h = absurd h
kind_stops (c ∷ k) t h = h.0

kind_kept : (k : Str) → IsKind k → All (λ b. of_kind b ≡ true) k
kind_kept [] h = absurd h
kind_kept (c ∷ k) h = (ground (arith, h.0), h.1)

kind_lacks : (k : Str) → IsKind k → All (λ b. (b == b'_') ≡ false) k
kind_lacks k h = All-mono _ _ k (λ c e. ground (arith, e)) (kind_kept k h)

rest_stops : (n : Str) → Stopped (λ b. b == b'_') (rest n)
rest_stops [] = tt
rest_stops (c ∷ n) = refl

name_lem :
    (c : Dynamic)
    → WellNamed c
    → queue_name c
      ≡ (stem (group_of c) (version_of c) ++ (b'_' ∷ [])) ++ (c.kind ++ rest c.namespace)
unfolding queue_name
name_lem c (hg, hv, hk, hn) =
    underscored-spelled (group_of c) (version_of c) c.kind c.namespace
      (underscored_kept (version_of c) (All-mono _ _ (version_of c) (λ b e. ground (arith, e)) hv))
      (underscored_kept c.kind (kind_kept c.kind hk))

-- The queues of two clients have one name only if the clients have the same version, kind and
-- namespace, and groups that differ in dashes and dots at most.
pub queue_name-SameQueue :
    (c d : Dynamic) → WellNamed c → WellNamed d → queue_name c ≡ queue_name d → SameQueue c d
queue_name-SameQueue c d wc wd e =
    let (hg, hv, hk, hn) = wc in
    let (hg', hv', hk', hn') = wd in
    let (front, back) =
      until_stop upper (stem (group_of c) (version_of c) ++ (b'_' ∷ []))
        (stem (group_of d) (version_of d) ++ (b'_' ∷ [])) (c.kind ++ rest c.namespace)
        (d.kind ++ rest d.namespace) (stem_lower (group_of c) (version_of c) hg hv)
        (stem_lower (group_of d) (version_of d) hg' hv') (kind_stops c.kind (rest c.namespace) hk)
        (kind_stops d.kind (rest d.namespace) hk') (sym (name_lem c wc) ∙ e ∙ name_lem d wd) in
    let (kinds, rests) =
      until_stop (λ b. b == b'_') c.kind d.kind (rest c.namespace) (rest d.namespace)
        (kind_lacks c.kind hk) (kind_lacks d.kind hk') (rest_stops c.namespace)
        (rest_stops d.namespace) back in
    let (stems, w) =
      last_part (stem (group_of c) (version_of c)) (stem (group_of d) (version_of d)) [] [] tt tt
        front in
    let (groups, versions) =
      stem_inj (group_of c) (version_of c) (group_of d) (version_of d) hv hv' stems in
    (groups, versions, kinds, rest_inj c.namespace d.namespace hn hn' rests)

stem_same : (g g' v v' : Str) → underscored g ≡ underscored g' → v ≡ v' → stem g v ≡ stem g' v'
stem_same [] [] v v' e h = h
stem_same [] (d ∷ g') v v' e h = unfold underscored in cc
stem_same (c ∷ g) [] v v' e h = unfold underscored in cc
stem_same (c ∷ g) (d ∷ g') v v' e h = cc

pub SameQueue-queue_name :
    (c d : Dynamic) → WellNamed c → WellNamed d → SameQueue c d → queue_name c ≡ queue_name d
SameQueue-queue_name c d wc wd (eg, ev, ek, en) =
    name_lem c wc
    ∙ cc (stem_same (group_of c) (group_of d) (version_of c) (version_of d) eg ev, ap rest en)
    ∙ sym (name_lem d wd)
