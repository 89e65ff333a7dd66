-- ===== src/Network/Stuck.antt =====
-- AllocateFloatingIP when the address that it proposes is stored for another organization.
use rymevisor.Common.{
  ℕ, zero, suc, ◌≡◌, refl, true, Option, none, some, List, String, str_eq, arith,
}
use rymevisor.Common.Effect.{pure, or_fail}
use rymevisor.Common.Triple.{
  Ends, Ends-ignore, Triple, triple->>=, triple->>, triple-given, triple-weaken, triple-fail_if,
}
use rymevisor.Common.Table.{select}
use rymevisor.Net.{Text, parse_cidr}
use rymevisor.Ipam.Floating.{Found, found, failed, find_available_ip}
use rymevisor.Network.{PrivateNetwork, FloatingIp}
use rymevisor.Control.Store.{
  World, Environment, Failure, network_id_required, network_not_found, new_id,
}
use rymevisor.Network.Tables.{network_key, holds_ip, held_in, find_network}
use rymevisor.Network.Service.{
  propose_ip, put_floating, floating_of, allocate_in, allocate_floating_ip,
}

abbrev address_of : Found → Option Text
address_of (found a) = some a
address_of (failed e) = none

-- The address that FindAvailableIP proposes for some rows.
unfoldable pub proposal : Environment → Text → String → List FloatingIp → Option Text
unfolding parse_cidr held_in find_available_ip
proposal env cidr organization rows = elim (parse_cidr env.canonical cidr) [
  | none ↦ none
  | some (x, n) ↦
      address_of (find_available_ip env.canonical cidr (held_in env n organization rows))
]

module _ (env : Environment) (networks : List PrivateNetwork) (rows : List FloatingIp) where
  abbrev Same : World → Type 0
  Same w = (w.networks ≡ networks) × (w.floating_ips ≡ rows)

  propose_ip-triple :
      (cidr : Text) (organization : String)
      → Triple Same
          (propose_ip env cidr organization)
          (λ a w. (proposal env cidr organization rows ≡ some a) × Same w)
          (λ _. Same)
  unfolding propose_ip proposal
  propose_ip-triple cidr organization = record { run = λ w p. ground (arith, p) }

  put_floating-never :
      (f : FloatingIp)
      → holds_ip f.ip_address rows ≡ true
      → Triple Same (put_floating env f) (λ _ _. ⊥) (λ _. Same)
  unfolding put_floating
  put_floating-never f held = record { run = λ w p. ground (arith, p, held) }

  module _ (id : String) (n : PrivateNetwork) (a : Text)
      (stored : select network_key id networks ≡ some n)
      (proposed : proposal env n.cidr n.organization_id rows ≡ some a)
      (held : holds_ip a rows ≡ true) where
    find_network-Same : Triple Same (find_network env id) (λ o w. (o ≡ some n) × Same w) (λ _. Same)
    unfolding find_network
    find_network-Same = record { run = λ w p. ground (arith, p, stored) }

    found-Same :
        (o : Option PrivateNetwork)
        → o ≡ some n
        → Triple Same (or_fail o network_not_found) (λ m w. (m ≡ n) × Same w) (λ _. Same)
    found-Same none e = absurd (ground (arith, e))
    found-Same (some m) e = record { run = λ w p. (ground (arith, e), p) }

    allocate_in-never :
        (vm : String) (m : PrivateNetwork)
        → m ≡ n
        → Triple Same (allocate_in env m id vm) (λ _ _. ⊥) (λ _. Same)
    unfolding allocate_in
    allocate_in-never vm m same = triple->>= _ _ (propose_ip-triple m.cidr m.organization_id) (λ b.
        triple-given (λ from. triple->>= _ _ new_id-Same (λ fresh.
          triple->> _ (pure (floating_of fresh b id vm m.organization_id))
            (put_floating-never (floating_of fresh b id vm m.organization_id) (taken b from))
            (record { run = λ w p. absurd p }))))
      where
        new_id-Same : Triple {E = Failure} Same (new_id env) (λ _. Same) (λ _. Same)
        new_id-Same = record { run = λ w p. p }

        taken :
            (b : Text)
            → proposal env m.cidr m.organization_id rows ≡ some b
            → holds_ip b rows ≡ true
        taken b from = ground (arith, held, proposed, from, same)

    allocate_floating_ip-never :
        (vm : String) → Triple Same (allocate_floating_ip env id vm) (λ _ _. ⊥) (λ _. Same)
    unfolding allocate_floating_ip
    allocate_floating_ip-never vm =
        triple->> _ _
          (triple-weaken (triple-fail_if (str_eq id "") network_id_required (λ w p. p))
            (λ _ w p. p.1) (λ _ w p. p))
          (triple->>= _ _ find_network-Same (λ o. triple-given (λ e.
            triple->>= _ _ (found-Same o e)
              (λ m. triple-given (λ same. allocate_in-never vm m same)))))

-- The state after some attempts to allocate an address in a network.
abbrev pub retried : Environment → String → String → ℕ → World → World
retried env id vm zero w = w
retried env id vm (suc k) w = (allocate_floating_ip env id vm (retried env id vm k w)).1

-- When the address that FindAvailableIP proposes for a network's organization is stored already,
-- AllocateFloatingIP in that network fails, at every repetition and whichever calls fail, and changes
-- neither the networks nor the floating addresses.
pub allocate_floating_ip_stuck :
    (env : Environment) (id vm : String) (n : PrivateNetwork) (a : Text) (w : World) (k : ℕ)
    → select network_key id w.networks ≡ some n
    → proposal env n.cidr n.organization_id w.floating_ips ≡ some a
    → holds_ip a w.floating_ips ≡ true
    → Ends
        (λ f w'. ⊥)
        (λ e w'. (w'.networks ≡ w.networks) × (w'.floating_ips ≡ w.floating_ips))
        (allocate_floating_ip env id vm (retried env id vm k w))
allocate_floating_ip_stuck env id vm n a w k stored proposed held =
    (never vm).run (retried env id vm k w) (still k)
  where
    never :
        (v : String)
        → Triple
            (Same env w.networks w.floating_ips)
            (allocate_floating_ip env id v)
            (λ _ _. ⊥)
            (λ _. Same env w.networks w.floating_ips)
    never = allocate_floating_ip-never env w.networks w.floating_ips id n a stored proposed held

    still : (j : ℕ) → Same env w.networks w.floating_ips (retried env id vm j w)
    still zero = (refl, refl)
    still (suc j) =
        Ends-ignore (Same env w.networks w.floating_ips) _
          ((triple-weaken (never vm) (λ f s p. absurd p) (λ e s p. p)).run _ (still j))
