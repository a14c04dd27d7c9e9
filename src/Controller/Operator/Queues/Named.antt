-- ===== src/Controller/Operator/Queues/Named.antt =====
-- When two work queues of pkg/controller/controller.go have the same name.
use saiki.Prelude.{◌≡◌, Bool, true, ◌&&◌, ◌||◌, [], ◌∷◌, Str, ◌==◌, nat_eq, leb, ℕ, All}
use saiki.Controller.Operator.Factory.{Dynamic}
use saiki.Controller.Operator.Queues.{underscored, group_of, version_of}

abbrev pub lower_or_digit : ℕ → Bool
lower_or_digit c = (leb b'a' c && leb c b'z') || (leb b'0' c && leb c b'9')

abbrev pub upper : ℕ → Bool
upper c = leb b'A' c && leb c b'Z'

-- the characters of a label, of a group, and of a kind
abbrev pub of_label : ℕ → Bool
of_label c = lower_or_digit c || c == b'-'

abbrev pub of_group : ℕ → Bool
of_group c = of_label c || c == b'.'

abbrev pub of_kind : ℕ → Bool
of_kind c = lower_or_digit c || upper c

abbrev pub IsKind : Str → Type 0
IsKind [] = ⊥
IsKind (k ∷ ks) = (upper k ≡ true) × All (λ b. of_kind b ≡ true) ks

-- The names of Kubernetes: a group is a DNS name, a version is of lower-case letters and digits, a kind
-- starts with a capital, and a namespace is a DNS label.
abbrev pub WellNamed : Dynamic → Type 0
WellNamed c =
    All (λ b. of_group b ≡ true) (group_of c)
    × All (λ b. lower_or_digit b ≡ true) (version_of c)
    × IsKind c.kind
    × All (λ b. of_label b ≡ true) c.namespace

-- The version, the kind and the namespace are the same, and the groups but for dashes and dots.
abbrev pub SameQueue : Dynamic → Dynamic → Type 0
SameQueue c d =
    (underscored (group_of c) ≡ underscored (group_of d))
    × (version_of c ≡ version_of d)
    × (c.kind ≡ d.kind)
    × (c.namespace ≡ d.namespace)
