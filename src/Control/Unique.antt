-- ===== src/Control/Unique.antt =====
-- The row of a new VM, with the unique addresses of migration 000003, and the loop of CreateVM that
-- tries again when they are taken.
use rymevisor.Common.{
  ℕ, zero, suc, ◌+◌, Bool, true, false, not, ◌&&◌, ◌||◌, ◌==◌, Option, none, some, List, [], ◌∷◌,
  ◌++◌, if◌then◌else◌, String, str_eq, head?,
}
use rymevisor.Common.Effect.{
  Result, ok, err, pure, fail, gets, modify, fail_if, attempt, caught, ◌>>=◌, ◌>>◌,
}
use rymevisor.Common.Numerals.{number}
use rymevisor.Common.Table.{select}
use rymevisor.Net.{Text, text_eq}
use rymevisor.Control.{VirtualMachine, NetworkInterface}
use rymevisor.Control.Store.{
  Environment, Failure, create_vm_failed, unique_violation, vm_key, Db, call,
}
use rymevisor.Control.Addresses.{generate_nic_mac, allocate_ip}
use Prim.Native.String.{◌++◌ as ◌<>◌}
use rymevisor.Control.Addresses.{generate_nic_mac, allocate_ip}

-- isUniqueViolation
abbrev pub is_unique_violation : Failure → Bool
is_unique_violation e = elim e [ unique_violation ↦ true | _ ↦ false ]

-- The two unique indexes of migration 000003, for two interfaces.
abbrev pub same_ip : Option Text → Option Text → Bool
same_ip none _ = false
same_ip (some a) none = false
same_ip (some a) (some b) = text_eq a b

abbrev pub nics_clash : NetworkInterface → NetworkInterface → Bool
nics_clash a b =
    not (str_eq a.network_id "")
      && str_eq a.network_id b.network_id
      && same_ip (head? a.ipv4_addresses) (head? b.ipv4_addresses)
    || not (str_eq a.mac_address "") && str_eq a.mac_address b.mac_address

unfoldable pub clashes_with : NetworkInterface → List NetworkInterface → Bool
clashes_with a [] = false
clashes_with a (b ∷ bs) = nics_clash a b || clashes_with a bs

-- Whether some interfaces, inserted in front of others one by one, break an index.
unfoldable pub any_clash : List NetworkInterface → List NetworkInterface → Bool
unfolding clashes_with
any_clash [] stored = false
any_clash (a ∷ rest) stored = clashes_with a stored || any_clash rest (a ∷ stored)

unfoldable pub stored_nics : List VirtualMachine → List NetworkInterface
stored_nics [] = []
stored_nics (vm ∷ vms) = vm.network_interfaces ++ stored_nics vms

-- Whether the row of a VM, or one of its interfaces, is there already.
unfoldable pub violates : VirtualMachine → List VirtualMachine → Bool
unfolding any_clash stored_nics
violates vm vms =
    elim (select vm_key vm.id vms) [ none ↦ false | some other ↦ true ]
    || any_clash vm.network_interfaces (stored_nics vms)

-- Whether an address is the empty text, which a column of addresses refuses.
unfoldable pub any_empty : List NetworkInterface → Bool
any_empty [] = false
any_empty (nic ∷ nics) =
    elim (head? nic.ipv4_addresses) [ none ↦ false | some a ↦ text_eq a [] ] || any_empty nics

module _ (env : Environment) where
  -- The rows that other creations commit while this one runs.
  abbrev commit_rivals : Db env (Unit {0})
  commit_rivals w = (ok tt, record w { vms = env.rivals w.calls ++ w.vms })

  -- vmRepo.Create: one transaction, which a clash undoes.
  unfoldable pub put_new_vm : VirtualMachine → Db env (Unit {0})
  unfolding violates any_empty
  put_new_vm vm = do
    commit_rivals
    call env create_vm_failed
    fail_if (any_empty vm.network_interfaces) create_vm_failed
    clash ← gets (λ w. violates vm w.vms)
    fail_if clash unique_violation
    modify (λ w. record w { vms = vm ∷ w.vms })

  -- The new addresses of an interface before another try: the IP address stays when none is allocated,
  -- and both stay without an allocator or a network.
  unfoldable pub readdress : String → String → NetworkInterface → Db env NetworkInterface
  unfolding generate_nic_mac allocate_ip
  readdress vm suffix nic =
      if env.has_ipam && not (str_eq nic.network_id "")
      then (do
        found ← attempt (allocate_ip env nic.network_id)
        pure (record nic {
          ipv4_addresses = elim found [ some a ↦ a ∷ [] | none ↦ nic.ipv4_addresses ];
          mac_address = generate_nic_mac env vm (nic.id <> suffix);
        }))
      else pure nic

  unfoldable pub readdress_all :
      String → String → List NetworkInterface → Db env (List NetworkInterface)
  unfolding readdress
  readdress_all vm suffix [] = pure []
  readdress_all vm suffix (nic ∷ nics) = do
    n ← readdress vm suffix nic
    rest ← readdress_all vm suffix nics
    pure (n ∷ rest)

  -- What follows a clash: new addresses, and the next try, unless this was the third.
  abbrev pub after_clash :
      (VirtualMachine → Db env VirtualMachine) → ℕ → VirtualMachine → Db env VirtualMachine
  after_clash next i vm = do
    nics ← readdress_all vm.id ("-" <> number i) vm.network_interfaces
    if i == 2 then fail create_vm_failed else next (record vm { network_interfaces = nics })

  abbrev pub saved :
      (VirtualMachine → Db env VirtualMachine)
      → ℕ
      → VirtualMachine
      → Result Failure (Unit {0})
      → Db env VirtualMachine
  saved next i vm (ok _) = pure vm
  saved next i vm (err e) =
      if is_unique_violation e then after_clash next i vm else fail create_vm_failed

  -- `for attempt := i; attempt < 3; attempt++`, on the tries that are left. The code after the loop is
  -- reached with the VM.
  unfoldable pub save_vm : ℕ → ℕ → VirtualMachine → Db env VirtualMachine
  unfolding put_new_vm readdress_all number
  save_vm zero i vm = pure vm
  save_vm (suc left) i vm = do r ← caught (put_new_vm vm); saved (save_vm left (i + 1)) i vm r
