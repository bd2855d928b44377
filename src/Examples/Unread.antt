-- ===== src/Examples/Unread.antt =====
-- A bootstrap on a control plane whose certificate of etcd's authority cannot be read.
use delegatio.Common.{◌≡◌, refl, [], ◌∷◌, none, ◌==◌, if◌then◌else◌}
use delegatio.Common.Outcome.{ok, err, returns, panics}
use delegatio.Store.Std.{std_ops}
use delegatio.Bootstrap.{AgentClient, JoinToken, call_failed}
use delegatio.Bootstrap.Kubeadm.{
  install_kubernetes, wait_for_output, join_cluster_coordinator, join_cluster, wait_for_join,
}
use delegatio.Bootstrap.Credentials.{
  write_kubeconfig_to_disk, get_kubernetes_config, get_kubernetes_root_cert, get_join_token,
  etcd_file,
}
use delegatio.Bootstrap.Order.{configure_kubernetes, bootstrap_kubernetes}
use delegatio.Installer.Applications.{install_kubernetes_applications}
use delegatio.Installer.Wiring.{MissesEtcdFile, certificate_unread, unread_credentials_panic}
use delegatio.Examples.Kube.{server}
use delegatio.Examples.Installing.{tools, around, encodings, course, blank}
use delegatio.Examples.Machines.{agents, start, established}

abbrev without_cert : AgentClient Unit
without_cert = record agents {
  read_file = λ address request w.
      if request.filename == "ca.crt"
      then returns (err (call_failed 13)) w
      else returns (ok (1 ∷ [])) w;
}

abbrev token : JoinToken
token = record { token = "token"; api_server_endpoint = "10.0.0.1"; ca_cert_hashes = "hash" ∷ [] }

installed : install_kubernetes without_cert start.k8s_config start ≡ returns (ok tt) start
unfolding install_kubernetes wait_for_output
installed = refl

configured : configure_kubernetes without_cert tools start ≡ returns (ok token) established
unfolding configure_kubernetes write_kubeconfig_to_disk get_kubernetes_config
    get_kubernetes_root_cert get_join_token
configured = refl

joined : join_cluster_coordinator without_cert token established ≡ returns (ok tt) established
unfolding join_cluster_coordinator join_cluster wait_for_join
joined = refl

cert_missing : MissesEtcdFile without_cert tools established tt
unfolding etcd_file
cert_missing = certificate_unread (1 ∷ []) (call_failed 13) tt tt refl refl refl

unread_credentials_panic_example :
    (bootstrap_kubernetes without_cert tools start
      ≡ returns (ok none) (record established { world = tt }))
    × (install_kubernetes_applications server std_ops around encodings none course blank ≡ panics)
unread_credentials_panic_example =
    unread_credentials_panic server std_ops around encodings without_cert tools course blank "api"
      token start start established established tt refl installed configured joined cert_missing
