-- ===== src/Lib.antt =====
-- Rymevisor: a control plane for virtual machines, in services that share PostgreSQL and NATS.
--
-- The parts and the files that model them:
-- Ipam: internal/ipam/ipam.go, the address arithmetic that the control plane and the networking
--   service use: NextAvailableIP is next_available_ip, and so on by name. Ipam/Floating is
--   FindAvailableIP of services/network/postgres/floating_ip_repository.go. Net models what these
--   use of Go's package net: the reading and writing of IPv4 addresses and of blocks, on texts as
--   lists of character codes. The canonical text of an IPv6 address is a parameter `canonical`.
-- Scheduler: services/scheduler. The constraints (Labels, Filter), the score (Score), the map of
--   jobs (Repository), the service and the paging of its handler (Service). The operations of
--   float64 and sort.Slice are parameters.
-- Control: services/controlplane. Store is the database, a table per repository, and the message
--   bus. Each call of the database has a number, and an environment says which calls fail, so that
--   a theorem over all environments holds for every schedule of failures; a failed call changes
--   nothing, and what earlier calls wrote stays. Lifecycle and Restore are the operations of
--   service.go, Recovery is reconcileVMs of recovery.go. Create, with Disks and Unique, is CreateVM,
--   in the steps of the source: the flavor, the key, the disks, the interfaces, and the row with the
--   unique indexes of the migration; Clone is Clone. Nodes and Offers are the operations on nodes, and
--   on flavors, keypairs, backups and images. Addresses is postgres/ipam_repository.go and
--   internal/mac, Images is image_puller.go. The environment also says what other creations commit
--   before a VM is inserted. Download is the transfer of an image, on its own: the answers of the
--   network, the disk and qemu-img are the record Transfer, made before it starts.
-- Catalog: services/controlplane/catalog, the official images and the requests for them.
-- Network: services/network. Tables are the repositories, with the references and the enumerations
--   of the migration, and Service is service.go. The tables stand in the state of Control.Store, since
--   the control plane reads and writes networks and subnets.
-- Storage: services/storage, by name: pools and volumes (Volumes) and their snapshots (Snapshots),
--   over failing calls of the database and of qemu-img, with sizes as int64.
-- Agent: services/nodeagent, with internal/qcow2. Host is the machine that the agent runs on, and a
--   platform says which system calls fail, which processes end when, and how programs and QEMU
--   answer; QEMU may remove its pid file on its way out, and a process ends after it is sent SIGKILL.
--   Qmp is the dialogue over a QMP socket, message by message; Qemu, Bridges and Disks are
--   qemu/manager.go, CloudInit is cloudinit/cloudinit.go, and Interfaces, Start and Service are
--   agent.go. The configuration that a start command carries is made by Control.StartConfig.
-- Http: internal/middleware/middleware.go, what stands between a request and its handler.
-- HostInfo: internal/hostinfo/hostinfo.go, the readers of the files of /proc, over bytes.
-- Common: the failing state monad (Effect), Hoare triples for it (Triple), tables by key (Table),
--   integers (Int), bits (Bits) and lists.
--
-- How they interact: the control plane picks the addresses of a VM by Ipam, stores a VM, and sends
-- commands to the node agents over NATS; the scheduler picks nodes among those of its registry.
--
-- Machine integers: addresses are 32-bit words, written `% 2 ^ 32`, and the start of a page and
-- the bytes of volumes are 64-bit ints. The scan for an address takes the block's size as fuel: as many steps as there are
-- candidates below the broadcast address. The insertion of a VM has the three tries of the source as
-- fuel, and the decimal digits of a number its value. The agent's waits are as long as the clock of the
-- platform allows. No other loop has fuel.
--
-- Not modelled: times, which the database sets; the encoding of messages in JSON; listings but those
-- that an operation reads; floating-point shares; the gateway, the HTTP handlers, the websockets, the
-- metrics collector, the configuration and the commands, which are input and output for the most part.
pub mod Common
pub mod Net
pub mod Ipam
pub mod Scheduler
pub mod Control
pub mod Storage
pub mod Network
pub mod Catalog
pub mod Agent
pub mod Http
pub mod HostInfo
