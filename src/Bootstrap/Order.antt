-- ===== src/Bootstrap/Order.antt =====
-- cli/bootstrapper/kubernetes/kubernetes.go: the steps of a bootstrap in their order.
pub mod Established
use delegatio.Common.{ℕ, ◌≡◌, refl, String, Bool, true, false, List, [], ◌∷◌, Option, none, some}
use delegatio.Common.Outcome.{
  Result, ok, err, returns, blocks, panics, Method, pure, gets, modify, on_ok, ◌>>=◌, ◌>>◌,
}
use delegatio.Store.{Bytes}
use delegatio.Bootstrap.{
  JoinToken, BootstrapError, kubeconfig_unset, AgentClient, Tools, Bootstrapper, outside,
  EtcdCredentials,
}
use delegatio.Bootstrap.Kubeadm.{install_kubernetes, join_cluster_coordinator}
use delegatio.Bootstrap.Credentials.{
  write_kubeconfig_to_disk, get_kubernetes_root_cert, get_join_token, get_etcd_credentials,
}

module _ {W : Type 0} (agents : AgentClient W) (tools : Tools W) where
  -- The clientset at the file that KUBECONFIG names; NewForConfig is part of `build_config`.
  connect_with : Option String → Method (Bootstrapper W) (Result BootstrapError Unit)
  connect_with none = pure (err kubeconfig_unset)
  connect_with (some file) = do
    built ← outside (tools.build_config file)
    on_ok built λ _. (do modify (λ b. record b { client = true }); pure (ok tt))

  unfoldable pub establish_client_go_connection :
      Method (Bootstrapper W) (Result BootstrapError Unit)
  unfolding connect_with
  establish_client_go_connection = do variable ← gets (λ b. b.kubeconfig); connect_with variable

  unfoldable pub configure_kubernetes : Method (Bootstrapper W) (Result BootstrapError JoinToken)
  unfolding establish_client_go_connection
  configure_kubernetes = do
    wrote ← write_kubeconfig_to_disk agents tools
    on_ok wrote λ _. (do
      connected ← establish_client_go_connection
      on_ok connected λ _. (do
        cert ← get_kubernetes_root_cert agents tools
        on_ok cert λ ca_file. get_join_token agents tools ca_file))

  unfoldable pub bootstrap_kubernetes :
      Method (Bootstrapper W) (Result BootstrapError (Option EtcdCredentials))
  unfolding configure_kubernetes
  bootstrap_kubernetes = do
    config ← gets (λ b. b.k8s_config)
    installed ← install_kubernetes agents config
    on_ok installed λ _. (do
      configured ← configure_kubernetes
      on_ok configured λ token. (do
        joined ← join_cluster_coordinator agents token
        on_ok joined λ _. get_etcd_credentials agents tools))
