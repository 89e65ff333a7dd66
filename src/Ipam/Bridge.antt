-- ===== src/Ipam/Bridge.antt =====
-- The bridge name of a network.
use rymevisor.Common.{
  ℕ, zero, suc, ◌≤◌, ◌≡◌, ◌≢◌, ◌↔◌, refl, ap, [], ◌∷◌, arith, length, take, All, ◌++◌, ◌==◌,
  if◌then◌else◌,
}
use rymevisor.Common.Effect.{ok}
use rymevisor.Net.{Text, codes}
use rymevisor.Ipam.{drop_dashes, bridge_prefix, bridge_for_network}

length-take-le : (n : ℕ) (t : Text) → length (take n t) ≤ n
length-take-le zero t = omega arith
length-take-le (suc n) [] = omega arith
length-take-le (suc n) (c ∷ cs) = omega (arith, length-take-le n cs)

abbrev pub Dashless : Text → Type 0
Dashless = All (λ (c : ℕ). c ≢ b'-')

drop_dashes-Dashless : (t : Text) → Dashless (drop_dashes t)
unfolding drop_dashes
drop_dashes-Dashless [] = tt
drop_dashes-Dashless (c ∷ cs) = ground (arith, drop_dashes-Dashless cs)

take-Dashless : (n : ℕ) (t : Text) → Dashless t → Dashless (take n t)
take-Dashless zero t h = tt
take-Dashless (suc n) [] h = tt
take-Dashless (suc n) (c ∷ cs) h = (h.0, take-Dashless n cs h.1)

take_all : (n : ℕ) (t : Text) → length t ≤ n → take n t ≡ t
take_all zero [] h = refl
take_all zero (c ∷ cs) h = absurd (omega arith)
take_all (suc n) [] h = refl
take_all (suc n) (c ∷ cs) h = ap (λ (r : Text). c ∷ r) (take_all n cs (omega arith))

stem : Text → Text
stem id = take 8 (drop_dashes id)

bridge_for_network-stem :
    (id : Text) → id ≢ [] → bridge_for_network id ≡ ok (bridge_prefix (stem id))
unfolding bridge_for_network stem
bridge_for_network-stem [] h = absurd (h refl)
bridge_for_network-stem (c ∷ cs) h = ground (arith, take_all 8 (drop_dashes (c ∷ cs)))

-- A text without its dashes.
unfoldable pub undashed : Text → Text
undashed [] = []
undashed (c ∷ cs) = if c == b'-' then undashed cs else c ∷ undashed cs

drop_dashes-eq-undashed : (t : Text) → drop_dashes t ≡ undashed t
unfolding drop_dashes undashed
drop_dashes-eq-undashed [] = refl
drop_dashes-eq-undashed (c ∷ cs) = ground (arith, drop_dashes-eq-undashed cs)

-- Two networks get the same bridge exactly when their ids agree, dashes left out, on their first
-- eight characters; the name is "br-" and these, without a dash, and has at most 11 characters.
pub bridge_for_network_shared :
    (id id' : Text)
    → id ≢ []
    → id' ≢ []
    → ((bridge_for_network id ≡ bridge_for_network id')
        ↔ (take 8 (undashed id) ≡ take 8 (undashed id')))
      × (bridge_for_network id ≡ ok (codes "br-" ++ take 8 (undashed id)))
      × Dashless (take 8 (undashed id))
      × (length (codes "br-" ++ take 8 (undashed id)) ≤ 11)
unfolding stem
bridge_for_network_shared id id' h h' =
    let here = bridge_for_network-stem id h in
    let there = bridge_for_network-stem id' h' in
    let same = drop_dashes-eq-undashed id in
    let same' = drop_dashes-eq-undashed id' in
    let dashless = take-Dashless 8 (drop_dashes id) (drop_dashes-Dashless id) in
    ((λ e. cc, λ e. cc), cc, rw same at dashless, omega (arith, length-take-le 8 (undashed id)))
