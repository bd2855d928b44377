-- ===== src/Qemu/Creation.antt =====
-- create.go and qemu.go of cli/infrastructure/qemu: the storage, the network and the machines.
pub mod Nodes
use delegatio.Common.{
  ℕ, zero, suc, String, Bool, true, false, List, [], ◌∷◌, ◌++◌, Option, none, some, ◌<>◌,
  if◌then◌else◌,
}
use delegatio.Common.GoMap.{GoMap}
use delegatio.Common.Outcome.{
  Result, ok, err, Outcome, returns, blocks, panics, Method, pure, gets, modify, on_ok, ◌>>=◌, ◌>>◌,
}
use delegatio.Store.{Bytes}
use delegatio.Bootstrap.{NodeInformation}
use delegatio.Qemu.{
  Libvirt, terminate_infrastructure, disk_pool_name, domain_prefix_master, domain_prefix_worker,
}
use delegatio.Qemu.Upload.{UploadError, UploadStream, Image, upload_base_image}
use delegatio.Qemu.Address.{
  DomainInterface, NodeError, NetworkEvent, AgentEvent, get_control_plane_ip,
  block_until_network_is_ready, block_until_agent_is_ready, get_worker_instance_ips,
}

pub data InfraError : Type 0 where
  of_termination : List ℕ → InfraError
  of_virt : ℕ → InfraError
  of_upload : UploadError → InfraError
  of_node : NodeError → InfraError

-- The calls that create. The XML documents are those of internal/config/definitions, as Marshal of
-- libvirtxml gives them; a volume and a domain take their name from the instance.
pub record Creator (V : Type 0) : Type 0 where
  pub pool_xml : Result ℕ String
  pub base_xml : Result ℕ String
  pub network_xml : Result ℕ String
  pub boot_xml : String → Result ℕ String
  pub domain_xml : String → Result ℕ String
  pub define_pool : String → Method V (Result ℕ ℕ)
  pub build_pool : ℕ → Method V (Result ℕ Unit)
  pub start_pool : ℕ → Method V (Result ℕ Unit)
  pub lookup_pool : String → Method V (Result ℕ ℕ)
  pub create_volume : ℕ → String → Method V (Result ℕ Unit)
  pub create_network : String → Method V (Result ℕ Unit)
  pub create_domain : String → Method V (Result ℕ Unit)

-- What the waits for the machines meet.
pub record Watch : Type 0 where
  pub itoa : ℕ → String
  pub lookup : String → Result NodeError ℕ
  pub interfaces : ℕ → Result NodeError (List DomainInterface)
  pub network_turns : ℕ → List NetworkEvent
  pub dial : String → Result NodeError Unit
  pub agent_turns : String → List AgentEvent

-- LibvirtInstance. `virt` is the service behind its connection.
pub record LibvirtInstance (V : Type 0) : Type 0 where
  pub virt : V
  pub master_node_num : ℕ
  pub worker_node_num : ℕ
  pub registered_pools : List String
  pub registered_disks : List String

unfoldable pub new_qemu : {V : Type 0} → V → ℕ → ℕ → LibvirtInstance V
new_qemu virt masters workers = record {
  virt = virt;
  master_node_num = masters;
  worker_node_num = workers;
  registered_pools = [];
  registered_disks = [];
}

abbrev pub to_infra : {E A : Type 0} → (E → InfraError) → Result E A → Result InfraError A
to_infra f (ok a) = ok a
to_infra f (err e) = err (f e)

-- A call on the service.
abbrev at_virt :
    {V E A : Type 0}
    → (E → InfraError)
    → Method V (Result E A)
    → Method (LibvirtInstance V) (Result InfraError A)
at_virt f call l = elim (call l.virt) [
  | returns r v ↦ returns (to_infra f r) (record l { virt = v })
  | blocks ↦ blocks
  | panics ↦ panics
]

-- A wait: without an answer it goes on.
abbrev pub settled :
    {V A : Type 0} → Option (Result NodeError A) → Method (LibvirtInstance V) (Result InfraError A)
settled none l = blocks
settled (some r) l = returns (to_infra of_node r) l

-- errgroup: every goroutine runs, one after the other in the order in which they end; the first error
-- is kept.
first_of : Result InfraError Unit → Result InfraError Unit → Result InfraError Unit
first_of (err e) later = err e
first_of (ok _) later = later

run_group :
    {V : Type 0}
    → List (Method (LibvirtInstance V) (Result InfraError Unit))
    → Method (LibvirtInstance V) (Result InfraError Unit)
unfolding first_of
run_group [] = pure (ok tt)
run_group (body ∷ bodies) = do first ← body; rest ← run_group bodies; pure (first_of first rest)

abbrev pub prefix_of : Bool → String
prefix_of control_plane = if control_plane then domain_prefix_master else domain_prefix_worker

-- One goroutine for each of the machines below `num`.
instances :
    {V : Type 0}
    → (ℕ → Method (LibvirtInstance V) (Result InfraError Unit))
    → ℕ
    → ℕ
    → List (Method (LibvirtInstance V) (Result InfraError Unit))
instances body i zero = []
instances body i (suc num) = body i ∷ instances body (suc i) num

module _ {V : Type 0} (virt : Libvirt V) (creator : Creator V) (stream : UploadStream V)
    (watch : Watch) where
  call : {A : Type 0} → Method V (Result ℕ A) → Method (LibvirtInstance V) (Result InfraError A)
  call m = at_virt of_virt m

  xml : Result ℕ String → Result InfraError String
  xml r = to_infra of_virt r

  unfoldable pub create_storage_pool : Method (LibvirtInstance V) (Result InfraError Unit)
  unfolding call xml
  create_storage_pool = on_ok (xml creator.pool_xml) λ text. (do
    defined ← call (creator.define_pool text)
    on_ok defined λ pool. (do
      built ← call (creator.build_pool pool)
      on_ok built λ _. (do
        started ← call (creator.start_pool pool)
        on_ok started λ _. (do
          modify (λ l. record l { registered_pools = l.registered_pools ++ disk_pool_name ∷ [] })
          pure (ok tt)))))

  -- A volume in the pool at the storage path, which is registered under its name.
  create_disk :
      Result InfraError String → String → Method (LibvirtInstance V) (Result InfraError Unit)
  unfolding call
  create_disk document name = on_ok document λ text. (do
    found ← call (creator.lookup_pool "/var/lib/libvirt/images/")
    on_ok found λ pool. (do
      created ← call (creator.create_volume pool text)
      on_ok created λ _. (do
        modify (λ l. record l { registered_disks = l.registered_disks ++ name ∷ [] })
        pure (ok tt))))

  unfoldable pub create_base_image :
      Image → Bytes → Method (LibvirtInstance V) (Result InfraError Unit)
  unfolding create_disk xml
  create_base_image image buffer = do
    created ← create_disk (xml creator.base_xml) "delegatio"
    on_ok created λ _. at_virt of_upload (upload_base_image stream image buffer)

  unfoldable pub create_boot_image : String → Method (LibvirtInstance V) (Result InfraError Unit)
  unfolding create_disk xml
  create_boot_image id = create_disk (xml (creator.boot_xml id)) id

  unfoldable pub create_network : Method (LibvirtInstance V) (Result InfraError Unit)
  unfolding call xml
  create_network = on_ok (xml creator.network_xml) λ text. call (creator.create_network text)

  unfoldable pub create_domain : String → Method (LibvirtInstance V) (Result InfraError Unit)
  unfolding call xml
  create_domain id = on_ok (xml (creator.domain_xml id)) λ text. call (creator.create_domain text)

  unfoldable pub create_instance : Bool → ℕ → Method (LibvirtInstance V) (Result InfraError Unit)
  create_instance control_plane number = do
    booted ← create_boot_image (prefix_of control_plane <> watch.itoa number)
    on_ok booted λ _. create_domain (prefix_of control_plane <> watch.itoa number)

  unfoldable pub block_until_instance_ready :
      Bool → ℕ → Method (LibvirtInstance V) (Result InfraError Unit)
  block_until_instance_ready control_plane number = do
    let name = prefix_of control_plane <> watch.itoa number
    network ← settled (block_until_network_is_ready watch.lookup watch.network_turns name)
    on_ok network λ _. settled (
        block_until_agent_is_ready watch.lookup watch.interfaces watch.dial (watch.agent_turns name)
          name)

  pub wait_for_worker : String → Option (Result NodeError String)
  wait_for_worker node = block_until_network_is_ready watch.lookup watch.network_turns node

  -- getNodeInformation
  unfoldable pub get_node_information :
      Method (LibvirtInstance V) (Result InfraError NodeInformation)
  unfolding wait_for_worker
  get_node_information =
      on_ok (to_infra of_node (get_control_plane_ip watch.lookup watch.interfaces)) λ ip. (do
        number ← gets (λ l. l.worker_node_num)
        workers ← settled (get_worker_instance_ips watch.itoa wait_for_worker number)
        on_ok workers
            λ found. pure (ok (record { masters = ("delegatio-0", ip) ∷ []; workers = found })))

  unfoldable pub wait_until_all_nodes_are_ready :
      Method (LibvirtInstance V) (Result InfraError NodeInformation)
  unfolding run_group instances
  wait_until_all_nodes_are_ready = do
    workers ← gets (λ l. l.worker_node_num)
    masters ← gets (λ l. l.master_node_num)
    ready ← run_group (
        instances (block_until_instance_ready false) 0 workers
        ++ instances (block_until_instance_ready true) 0 masters)
    on_ok ready λ _. get_node_information

  unfoldable pub initialize_infrastructure :
      Image → Bytes → Method (LibvirtInstance V) (Result InfraError NodeInformation)
  unfolding run_group instances
  initialize_infrastructure image buffer = do
    cleaned ← at_virt of_termination (terminate_infrastructure virt)
    on_ok cleaned λ _. (do
      pool ← create_storage_pool
      on_ok pool λ _. (do
        base ← create_base_image image buffer
        on_ok base λ _. (do
          network ← create_network
          on_ok network λ _. (do
            workers ← gets (λ l. l.worker_node_num)
            masters ← gets (λ l. l.master_node_num)
            created ← run_group (
                instances (create_instance false) 0 workers
                ++ instances (create_instance true) 0 masters)
            on_ok created λ _. wait_until_all_nodes_are_ready))))
