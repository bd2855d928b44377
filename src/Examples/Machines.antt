-- ===== src/Examples/Machines.antt =====
-- Runs of the infrastructure and of the bootstrap.
use delegatio.Common.{
  ◌≡◌, ◌≢◌, ◌<◌, ◌↔◌, ◌+◌, refl, ap, arith, ℕ, String, true, false, List, [], ◌∷◌, ◌++◌, Option,
  none, some, is_some, map, length, eqb, if◌then◌else◌,
}
use delegatio.Common.GoMap
use delegatio.Common.GoMap.{GoMap, one_if}
use delegatio.Common.Outcome.{Result, ok, err, returns}
use delegatio.Store.{Bytes}
use delegatio.Agent.{concat}
use delegatio.Agent.Exec.{output}
use delegatio.Bootstrap.{
  AgentClient, Bootstrapper, EtcdCredentials, JoinToken, received, new_bootstrapper,
  NodeInformation,
}
use delegatio.Bootstrap.Kubeadm.{
  install_kubernetes, wait_for_output, join_cluster_coordinator, join_cluster, wait_for_join,
}
use delegatio.Bootstrap.Credentials.{
  write_kubeconfig_to_disk, get_kubernetes_config, get_kubernetes_root_cert, get_join_token,
  get_etcd_credentials, generate_etcd_certificate,
}
use delegatio.Bootstrap.Credentials.Setup.{Wrote}
use delegatio.Bootstrap.Kubeadm.Joined.{AllJoined, join_cluster_coordinator_lem}
use delegatio.Bootstrap.Order.{bootstrap_kubernetes}
use delegatio.Bootstrap.Order.Established.{bootstrap_kubernetes_ok}
use delegatio.Qemu.{Libvirt, delete_domains, is_node}
use delegatio.Qemu.Deletion.{ObjectLaws, occurrences, unless, delete_domains_lem}
use delegatio.Qemu.Upload.{UploadStream, upload_base_image}
use delegatio.Qemu.Upload.Sent.{StreamLaws, image_of, upload_base_image_lem}
use delegatio.Qemu.Address.{
  DomainInterface, listed, poll_network, last_ipv4, executed, get_control_plane_ip,
  get_worker_instance_ips, block_until_network_is_ready,
}
use delegatio.Qemu.Address.Found.{AllUnready, candidates, last_or, poll_network_lem, worker}
use delegatio.Qemu.Creation.{Creator, Watch, LibvirtInstance, wait_for_worker, get_node_information}
use delegatio.Qemu.Creation.Nodes.{get_node_information_ok}
use delegatio.Examples.Installing.{tools}

-- Agents that answer, and on which kubeadm succeeds.
abbrev pub agents : AgentClient Unit
agents = record {
  join_host_port = λ host port. host;
  dial = λ address w. returns (ok tt) w;
  write_file = λ address request w. returns (ok tt) w;
  read_file = λ address request w. returns (ok (1 ∷ [])) w;
  exec_return_stream = λ address request w. returns (ok (received (output (2 ∷ [])) ∷ [])) w;
}

abbrev pub start : Bootstrapper Unit
start = record {
  client = false;
  admin_conf = [];
  control_plane_ip = "10.0.0.1";
  worker_ips = ("w", "10.0.0.2") ∷ [];
  k8s_config = [];
  kubeconfig = none;
  printed = [];
  world = tt;
}

abbrev token : JoinToken
token = record { token = "t"; api_server_endpoint = "10.0.0.1"; ca_cert_hashes = "hash" ∷ [] }

join_cluster_coordinator_lem_example :
    (join_cluster_coordinator agents token start ≡ returns (ok tt) start)
    ↔ AllJoined agents token start.worker_ips start start
join_cluster_coordinator_lem_example = join_cluster_coordinator_lem agents token start start

abbrev pub established : Bootstrapper Unit
established = record start { client = true; admin_conf = 1 ∷ []; kubeconfig = some "admin.conf" }

abbrev fresh_credentials : EtcdCredentials
fresh_credentials = record { peer_cert_data = 1 ∷ []; key_data = 1 ∷ []; ca_cert_data = 1 ∷ [] }

bootstrapped :
    bootstrap_kubernetes agents tools start ≡ returns (ok (some fresh_credentials)) established
unfolding bootstrap_kubernetes install_kubernetes wait_for_output write_kubeconfig_to_disk
    get_kubernetes_config get_kubernetes_root_cert get_join_token join_cluster_coordinator
    join_cluster wait_for_join get_etcd_credentials generate_etcd_certificate
bootstrapped = refl

bootstrap_kubernetes_ok_example :
    (name : String) × (config : Bytes) × (before read : Bootstrapper Unit) × (w w' : Unit)
    × (get_kubernetes_config agents tools before ≡ returns (ok config) read)
    × Wrote agents tools name config
    × (established.kubeconfig ≡ some name)
    × (tools.build_config name w ≡ returns (ok tt) w')
    × (established.client ≡ true)
bootstrap_kubernetes_ok_example =
    bootstrap_kubernetes_ok agents tools start established (some fresh_credentials) bootstrapped

-- At most two domains, at the handles 0 and 1.
pub record Domains : Type 0 where
  pub first : Option String
  pub second : Option String

abbrev domain_at : Domains → ℕ → Option String
domain_at v h = if eqb h 0 then v.first else if eqb h 1 then v.second else none

abbrev handle_if : ℕ → Option String → List ℕ → List ℕ
handle_if h none rest = rest
handle_if h (some n) rest = h ∷ rest

abbrev name_or : Option String → Result ℕ String
name_or none = err 1
name_or (some n) = ok n

abbrev without : ℕ → Domains → Domains
without h v = record {
  first = if eqb h 0 then none else v.first;
  second = if eqb h 1 then none else v.second;
}

abbrev two_domains_virt : Libvirt Domains
two_domains_virt = record {
  list_networks = λ v. returns (ok []) v;
  list_domains = λ v. returns (ok (handle_if 0 v.first (handle_if 1 v.second []))) v;
  list_pools = λ v. returns (ok []) v;
  network_name = λ h v. returns (err 1) v;
  domain_name = λ h v. returns (name_or (domain_at v h)) v;
  pool_name = λ h v. returns (err 1) v;
  network_destroy = λ h v. returns (ok tt) v;
  domain_destroy = λ h v. returns (ok tt) (without h v);
  pool_is_active = λ h v. returns (ok false) v;
  pool_volumes = λ h v. returns (ok []) v;
  volume_delete = λ h v. returns (ok tt) v;
  pool_destroy = λ h v. returns (ok tt) v;
  pool_delete = λ h v. returns (ok tt) v;
  pool_undefine = λ h v. returns (ok tt) v;
}

listed_once :
    (a b : Option String) (h : ℕ)
    → occurrences h (handle_if 0 a (handle_if 1 b []))
      ≡ one_if (is_some (if eqb h 0 then a else if eqb h 1 then b else none))
listed_once none none h = ground arith
listed_once none (some n) h = ground arith
listed_once (some m) none h = ground arith
listed_once (some m) (some n) h = ground arith

gone_at :
    (v : Domains) (h j : ℕ) → domain_at (without h v) j ≡ (if eqb h j then none else domain_at v j)
gone_at v h j = ground arith

abbrev two_domains_laws :
    ObjectLaws two_domains_virt.list_domains two_domains_virt.domain_name
      two_domains_virt.domain_destroy
two_domains_laws = record {
  present = domain_at;
  list_law =
      λ v. (handle_if 0 v.first (handle_if 1 v.second []), refl, listed_once v.first v.second);
  name_law = λ v h n there. ap (λ o. returns (name_or o) v) there;
  destroy_law = λ v h n there. (without h v, refl, gone_at v h);
}

abbrev two_domains : Domains
two_domains = record { first = some "delegatio-worker-0"; second = some "other" }

delete_domains_lem_example :
    (v' : Domains) × (delete_domains two_domains_virt two_domains ≡ returns (ok tt) v')
    × ((h : ℕ)
        → two_domains_laws.present v' h
          ≡ unless (is_node two_domains_virt) (two_domains_laws.present two_domains h))
delete_domains_lem_example = delete_domains_lem two_domains_virt two_domains_laws two_domains

-- A stream that keeps what it is given.
abbrev keeping : UploadStream Bytes
keeping = record {
  new_stream = λ v. returns (ok tt) v;
  upload = λ size v. returns (ok tt) v;
  send = λ bytes v. returns (ok (length bytes)) (v ++ bytes);
  abort = λ v. returns tt v;
  finish = λ v. returns (ok tt) v;
}

abbrev keeping_laws : StreamLaws keeping
keeping_laws = record {
  received = λ v. v;
  send_law = λ bytes v. (v ++ bytes, refl, refl);
  new_stream_law = λ v. (v, refl, refl);
  upload_law = λ size v. (v, refl, refl);
  finish_law = λ v. (v, refl, refl);
}

abbrev full_parts : List Bytes
full_parts = (1 ∷ 2 ∷ []) ∷ (3 ∷ 4 ∷ []) ∷ []

abbrev last_part : Bytes
last_part = 5 ∷ []

abbrev two_zeros : Bytes
two_zeros = 0 ∷ 0 ∷ []

upload_base_image_lem_example :
    (v' : Bytes) × (tail : Bytes) × (upload_base_image keeping
        (image_of keeping keeping_laws full_parts last_part)
        two_zeros
        []
      ≡ returns (ok tt) v')
    × (keeping_laws.received v'
        ≡ keeping_laws.received [] ++ ((concat full_parts ++ last_part) ++ tail))
    × (length tail + length last_part ≡ length two_zeros)
upload_base_image_lem_example =
    upload_base_image_lem keeping keeping_laws full_parts last_part two_zeros [] (refl, (refl, tt))
      (omega arith)

abbrev ethernet : DomainInterface
ethernet = record { name = "eth0"; addrs = (false, "fe80::1") ∷ (true, "10.0.0.7") ∷ [] }

abbrev loopback : DomainInterface
loopback = record { name = "lo"; addrs = (true, "127.0.0.1") ∷ [] }

abbrev unready_turns : List (List DomainInterface)
unready_turns = [] ∷ (loopback ∷ []) ∷ []

abbrev ready_turn : List DomainInterface
ready_turn = loopback ∷ ethernet ∷ []

turns_unready : AllUnready unready_turns
turns_unready = (refl, (refl, tt))

turn_ready : last_or "" (candidates ready_turn) ≢ ""
turn_ready e = cc

poll_network_lem_example :
    poll_network (map (λ t. listed (ok t)) unready_turns ++ listed (ok ready_turn) ∷ [])
    ≡ some (ok (last_or "" (candidates ready_turn)))
poll_network_lem_example = poll_network_lem unready_turns ready_turn [] turns_unready turn_ready

abbrev creator : Creator Bytes
creator = record {
  pool_xml = ok "pool";
  base_xml = ok "base";
  network_xml = ok "network";
  boot_xml = λ name. ok name;
  domain_xml = λ name. ok name;
  define_pool = λ text v. returns (ok 0) v;
  build_pool = λ pool v. returns (ok tt) v;
  start_pool = λ pool v. returns (ok tt) v;
  lookup_pool = λ path v. returns (ok 0) v;
  create_volume = λ pool text v. returns (ok tt) v;
  create_network = λ text v. returns (ok tt) v;
  create_domain = λ text v. returns (ok tt) v;
}

abbrev idle_virt : Libvirt Bytes
idle_virt = record {
  list_networks = λ v. returns (ok []) v;
  list_domains = λ v. returns (ok []) v;
  list_pools = λ v. returns (ok []) v;
  network_name = λ h v. returns (err 1) v;
  domain_name = λ h v. returns (err 1) v;
  pool_name = λ h v. returns (err 1) v;
  network_destroy = λ h v. returns (ok tt) v;
  domain_destroy = λ h v. returns (ok tt) v;
  pool_is_active = λ h v. returns (ok false) v;
  pool_volumes = λ h v. returns (ok []) v;
  volume_delete = λ h v. returns (ok tt) v;
  pool_destroy = λ h v. returns (ok tt) v;
  pool_delete = λ h v. returns (ok tt) v;
  pool_undefine = λ h v. returns (ok tt) v;
}

abbrev watch : Watch
watch = record {
  itoa = λ n. "0";
  lookup = λ name. ok 0;
  interfaces = λ domain. ok ready_turn;
  network_turns = λ domain. listed (ok ready_turn) ∷ [];
  dial = λ ip. ok tt;
  agent_turns = λ name. executed true ∷ [];
}

abbrev instance_two : LibvirtInstance Bytes
instance_two = record {
  virt = [];
  master_node_num = 1;
  worker_node_num = 1;
  registered_pools = [];
  registered_disks = [];
}

abbrev nodes : NodeInformation
nodes = record {
  masters = ("delegatio-0", "10.0.0.7") ∷ [];
  workers = ("delegatio-worker-0", "10.0.0.7") ∷ [];
}

nodes_found :
    get_node_information idle_virt creator keeping watch instance_two
    ≡ returns (ok nodes) instance_two
unfolding get_node_information get_control_plane_ip last_ipv4 get_worker_instance_ips
    block_until_network_is_ready GoMap.insert
nodes_found = refl

get_node_information_ok_example :
    (get_control_plane_ip watch.lookup watch.interfaces
      ≡ ok (new_bootstrapper tt nodes [] none).control_plane_ip)
    × ((k : ℕ)
        → k < instance_two.worker_node_num
        → is_some
            (GoMap.lookup (worker watch.itoa k) (new_bootstrapper tt nodes [] none).worker_ips)
          ≡ true)
    × ((node ip : String)
        → GoMap.lookup node (new_bootstrapper tt nodes [] none).worker_ips ≡ some ip
        → wait_for_worker idle_virt creator keeping watch node ≡ some (ok ip))
get_node_information_ok_example =
    get_node_information_ok idle_virt creator keeping watch instance_two instance_two nodes tt []
      none nodes_found
