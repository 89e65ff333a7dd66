-- ===== src/Scheduler/Labels.antt =====
-- The label texts "key" and "key=value" of the constraints, against a node's labels
-- (services/scheduler/service.go).
use rymevisor.Common.{
  ◌≡◌, ◌⊎◌, inl, inr, refl, Bool, true, false, not, ◌&&◌, ◌||◌, Option, none, some, List, [], ◌∷◌,
  arith, ◌==◌, if◌then◌else◌, String, str_eq, eq_iff, All, Option-cases, Bool-cases,
}
use Prim.Native.Char.{code}
use rymevisor.Scheduler.{Labels}

-- strings.SplitN(label, "=", 2): the key, and the value or "".
unfoldable pub split_label : String → String × String
split_label String.[] = (String.[], String.[])
split_label (String.◌∷◌ c s) =
    let (key, val) = split_label s in
    if code c == b'=' then (String.[], s) else (String.◌∷◌ c key, val)

-- n.Labels[key]
unfoldable pub lookup : String → Labels → Option String
lookup key [] = none
lookup key ((k, v) ∷ rest) = if str_eq k key then some v else lookup key rest

-- ok && (val == "" || nv == val)
unfoldable pub has_label : Labels → String → Bool
has_label labels label =
    let (key, val) = split_label label in
    elim (lookup key labels) [ none ↦ false | some nv ↦ str_eq val "" || str_eq nv val ]

-- The loop over RequiredLabels returns false at a label that the node lacks.
unfoldable pub required_ok : Labels → List String → Bool
required_ok labels [] = true
required_ok labels (label ∷ rest) =
    let later = required_ok labels rest in
    let (key, val) = split_label label in
    elim (lookup key labels) [
      | none ↦ false
      | some nv ↦ if not (str_eq val "") && not (str_eq nv val) then false else later
    ]

-- The loop over AvoidLabels returns false at a label that the node has.
unfoldable pub avoid_ok : Labels → List String → Bool
avoid_ok labels [] = true
avoid_ok labels (label ∷ rest) =
    let later = avoid_ok labels rest in if has_label labels label then false else later

-- The label asks for a key, or for a key with a value.
pub record HasLabel (labels : Labels) (label : String) : Type 0 where
  pub value : String
  pub present : lookup (split_label label).0 labels ≡ some value
  pub agrees : ((split_label label).1 ≡ "") ⊎ (value ≡ (split_label label).1)

pub has_label-HasLabel :
    (labels : Labels) (label : String) → has_label labels label ≡ true → HasLabel labels label
unfolding has_label
has_label-HasLabel labels label h = elim (Option-cases (lookup (split_label label).0 labels)) [
  | inl absent ↦ absurd (ground arith)
  | inr (v, e) ↦ record {
    value = v;
    present = e;
    agrees = ground (arith, eq_iff (split_label label).1 "", eq_iff v (split_label label).1);
  }
]

pub HasLabel-has_label :
    (labels : Labels) (label : String) → HasLabel labels label → has_label labels label ≡ true
unfolding has_label
HasLabel-has_label labels label h =
    ground (arith, eq_iff (split_label label).1 "", eq_iff h.value (split_label label).1)

-- A required label passes as has_label tells.
required_ok-has_label :
    (labels : Labels) (label : String) (rest : List String)
    → required_ok labels (label ∷ rest) ≡ (has_label labels label && required_ok labels rest)
unfolding required_ok has_label
required_ok-has_label labels label rest = ground arith

pub required_ok-All :
    (labels : Labels) (ls : List String) → required_ok labels ls ≡ true → All (HasLabel labels) ls
required_ok-All labels [] h = tt
required_ok-All labels (l ∷ ls) h =
    let both : (has_label labels l && required_ok labels ls) ≡ true =
      rw (required_ok-has_label labels l ls) at h in
    (has_label-HasLabel labels l (ground arith), required_ok-All labels ls (ground arith))

pub All-required_ok :
    (labels : Labels) (ls : List String) → All (HasLabel labels) ls → required_ok labels ls ≡ true
unfolding required_ok
All-required_ok labels [] h = refl
All-required_ok labels (l ∷ ls) h = ground (
  arith,
  required_ok-has_label labels l ls,
  HasLabel-has_label labels l h.0,
  All-required_ok labels ls h.1,
)

pub avoid_ok-All :
    (labels : Labels) (ls : List String)
    → avoid_ok labels ls ≡ true
    → All (λ l. ¬ HasLabel labels l) ls
unfolding avoid_ok
avoid_ok-All labels [] h = tt
avoid_ok-All labels (l ∷ ls) h = elim (Bool-cases (has_label labels l)) [
  | inl has ↦ absurd (ground arith)
  | inr lacks ↦ (
    λ has. ground (arith, HasLabel-has_label labels l has),
    avoid_ok-All labels ls (ground arith),
  )
]

pub All-avoid_ok :
    (labels : Labels) (ls : List String)
    → All (λ l. ¬ HasLabel labels l) ls
    → avoid_ok labels ls ≡ true
unfolding avoid_ok
All-avoid_ok labels [] h = refl
All-avoid_ok labels (l ∷ ls) h = elim (Bool-cases (has_label labels l)) [
  | inl has ↦ absurd (h.0 (has_label-HasLabel labels l has))
  | inr lacks ↦ ground (arith, All-avoid_ok labels ls h.1)
]
