-- ===== src/Control/Recovery.antt =====
-- reconcileVMs of services/controlplane/recovery.go, which runs once when the control plane starts.
use rymevisor.Common.{
  Bool, true, false, Option, none, some, List, [], ◌∷◌, if◌then◌else◌, String, str_eq, take,
}
use rymevisor.Common.Effect.{pure, gets, ignore, attempt, ◌>>=◌, ◌>>◌}
use rymevisor.Common.Table.{select}
use rymevisor.Control.{
  VmStatus, creating, running, stopped, rebooting, shutting_down, error, migrating, Disk,
  image_error, VirtualMachine, Node, paused, terminated, snapshottting,
}
use rymevisor.Control.Store.{
  Environment, update_status, get_image, list_vms, image_key, is_online, Db, call, put_status,
  find_node,
}
use rymevisor.Control.Lifecycle.{node_of}

module _ (env : Environment) where
  -- vmRepo.List with PerPage 1000: the newest rows
  abbrev pub list_page : Db env (List VirtualMachine)
  list_page = do call env list_vms; gets (λ w. take 1000 w.vms)

  -- imageRepo.GetByID, whose error is dropped
  abbrev pub image_failed : String → Db env Bool
  image_failed id = do
    found ← attempt (do call env get_image; gets (λ w. select image_key id w.images))
    pure (elim found [
      | some (some image) ↦ (elim image.status [ image_error ↦ true | _ ↦ false ])
      | _ ↦ false
    ])

  unfoldable pub mark : String → VmStatus → Db env (Unit {0})
  unfolding put_status
  mark id status = ignore (put_status env update_status id status)

  -- What GetByID of its node means for a VM that was running.
  unfoldable pub judge_node : String → Option (Option Node) → Db env (Unit {0})
  unfolding mark
  judge_node id none = mark id error
  judge_node id (some none) = mark id error
  judge_node id (some (some n)) = if is_online n then pure tt else mark id error

  -- The check of a VM that was running, rebooting or migrating, by its node.
  unfoldable pub check_node : String → Option String → Db env (Unit {0})
  unfolding find_node judge_node
  check_node id none = pure tt
  check_node id (some node) = attempt (find_node env node) >>= judge_node id

  -- The check of the images of a VM that was being created.
  unfoldable pub check_disks : String → List Disk → Db env (Unit {0})
  unfolding mark
  check_disks id [] = pure tt
  check_disks id (disk ∷ disks) = do
    bad ← (if str_eq disk.image_id "" then pure false else image_failed disk.image_id)
    (if bad then mark id error else pure tt)
    check_disks id disks

  unfoldable pub reconcile_as : VirtualMachine → VmStatus → Db env (Unit {0})
  unfolding check_node check_disks mark
  reconcile_as vm running = check_node vm.id (node_of vm)
  reconcile_as vm rebooting = check_node vm.id (node_of vm)
  reconcile_as vm migrating = check_node vm.id (node_of vm)
  reconcile_as vm creating = check_disks vm.id vm.disks
  reconcile_as vm shutting_down = mark vm.id stopped
  reconcile_as vm stopped = pure tt
  reconcile_as vm paused = pure tt
  reconcile_as vm terminated = pure tt
  reconcile_as vm error = pure tt
  reconcile_as vm snapshottting = pure tt

  abbrev pub reconcile_vm : VirtualMachine → Db env (Unit {0})
  unfolding reconcile_as
  reconcile_vm vm = reconcile_as vm vm.status

  unfoldable pub reconcile_all : List VirtualMachine → Db env (Unit {0})
  unfolding reconcile_as
  reconcile_all [] = pure tt
  reconcile_all (vm ∷ vms) = reconcile_vm vm >> reconcile_all vms

  unfoldable pub reconcile_vms : Db env (Unit {0})
  unfolding reconcile_all
  reconcile_vms = do vms ← list_page; reconcile_all vms
