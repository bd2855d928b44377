-- ===== src/Qemu/Creation/Nodes.antt =====
-- The nodes that the infrastructure hands to the bootstrap.
use delegatio.Common.{ℕ, ◌<◌, ◌≡◌, ap, String, true, [], ◌∷◌, Option, none, some, is_some}
use mathlib.Core.Path.{subst}
use delegatio.Common.GoMap
use delegatio.Common.GoMap.{GoMap}
use delegatio.Common.Outcome.{
  Result, ok, err, returns, chain_ok, on_ok_returns, outcome_of, result_of,
}
use delegatio.Store.{Bytes}
use delegatio.Bootstrap.{NodeInformation, new_bootstrapper}
use delegatio.Qemu.{Libvirt}
use delegatio.Qemu.Upload.{UploadStream}
use delegatio.Qemu.Address.{get_control_plane_ip, NodeError, get_worker_instance_ips}
use delegatio.Qemu.Address.Found.{worker, get_worker_instance_ips_lem}
use delegatio.Qemu.Creation.{
  Creator, Watch, LibvirtInstance, InfraError, of_node, to_infra, settled, wait_for_worker,
  get_node_information,
}

to_infra_ok :
    {E A : Type 0} (f : E → InfraError) (r : Result E A) (a : A) → to_infra f r ≡ ok a → r ≡ ok a
to_infra_ok f (ok b) a h = ap ok (result_of h)
to_infra_ok f (err e) a h = cc

settled_ok :
    {V A : Type 0} (o : Option (Result NodeError A)) (l l' : LibvirtInstance V) (a : A)
    → settled o l ≡ returns (ok a) l'
    → o ≡ some (ok a)
settled_ok none l l' a h = cc
settled_ok (some r) l l' a h = ap some (to_infra_ok of_node r a (outcome_of h).0)

module _ {V : Type 0} (virt : Libvirt V) (creator : Creator V) (stream : UploadStream V)
    (watch : Watch) where
  -- When getNodeInformation succeeds: a bootstrapper that is made of its answer calls the address of the
  -- control plane that libvirt lists, the bootstrapper's workers have an address for each machine, and
  -- each of these is the one that the wait for that machine's network ended with.
  pub get_node_information_ok :
      {W : Type 0} (l l' : LibvirtInstance V) (nodes : NodeInformation) (world : W) (config : Bytes)
      (kubeconfig : Option String)
      → get_node_information virt creator stream watch l ≡ returns (ok nodes) l'
      → (get_control_plane_ip watch.lookup watch.interfaces
          ≡ ok (new_bootstrapper world nodes config kubeconfig).control_plane_ip)
        × ((k : ℕ)
            → k < l.worker_node_num
            → is_some (
                GoMap.lookup
                  (worker watch.itoa k)
                  (new_bootstrapper world nodes config kubeconfig).worker_ips)
              ≡ true)
        × ((node ip : String)
            → GoMap.lookup node (new_bootstrapper world nodes config kubeconfig).worker_ips
              ≡ some ip
            → wait_for_worker virt creator stream watch node ≡ some (ok ip))
  unfolding get_node_information new_bootstrapper
  get_node_information_ok l l' nodes world config kubeconfig h =
      let (ip, listed, rest) =
        on_ok_returns (to_infra of_node (get_control_plane_ip watch.lookup watch.interfaces)) _ l
          h in
      let (found, l1, waited, last) =
        chain_ok
          (settled (
            get_worker_instance_ips watch.itoa (wait_for_worker virt creator stream watch)
              l.worker_node_num))
          _ l rest in
      let same : record { masters = ("delegatio-0", ip) ∷ []; workers = found } ≡ nodes =
        result_of (outcome_of last).0 in
      let (all, each) =
        get_worker_instance_ips_lem watch.itoa (wait_for_worker virt creator stream watch)
          l.worker_node_num found (settled_ok _ l l1 found waited) in
      subst
        (λ n.
          (get_control_plane_ip watch.lookup watch.interfaces
            ≡ ok (new_bootstrapper world n config kubeconfig).control_plane_ip)
          × ((k : ℕ)
              → k < l.worker_node_num
              → is_some (
                  GoMap.lookup (worker watch.itoa k)
                    (new_bootstrapper world n config kubeconfig).worker_ips)
                ≡ true)
          × ((node address : String)
              → GoMap.lookup node (new_bootstrapper world n config kubeconfig).worker_ips
                ≡ some address
              → wait_for_worker virt creator stream watch node ≡ some (ok address)))
        same
        (
          to_infra_ok of_node (get_control_plane_ip watch.lookup watch.interfaces) ip listed,
          each,
          all,
        )
