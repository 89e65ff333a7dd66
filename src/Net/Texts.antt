-- ===== src/Net/Texts.antt =====
-- The test for equal texts decides equality.
use rymevisor.Common.{◌≡◌, ◌↔◌, ◌∙◌, refl, sym, true, false, [], ◌∷◌, arith, Bool-cases, inl, inr}
use rymevisor.Net.{Text, text_eq}

pub text_eq_iff : (s t : Text) → (text_eq s t ≡ true) ↔ (s ≡ t)
unfolding text_eq
text_eq_iff [] [] = (λ _. refl, λ _. refl)
text_eq_iff [] (d ∷ t) = (λ e. absurd (ground (arith, e)), λ e. absurd (ground (arith, e)))
text_eq_iff (c ∷ s) [] = (λ e. absurd (ground (arith, e)), λ e. absurd (ground (arith, e)))
text_eq_iff (c ∷ s) (d ∷ t) =
    (λ e. ground (arith, e, text_eq_iff s t), λ e. ground (arith, e, text_eq_iff s t))

-- A text is equal to one of two different texts at most.
pub text_eq_other : (s a b : Text) → text_eq a b ≡ false → text_eq s a ≡ true → text_eq s b ≡ false
text_eq_other s a b differ here = elim (Bool-cases (text_eq s b)) [
  | inr off ↦ off
  | inl there ↦
      let same : a ≡ b = sym ((text_eq_iff s a).0 here) ∙ (text_eq_iff s b).0 there in
      absurd (ground (arith, differ, (text_eq_iff a b).1 same))
]
