-- ===== src/Bootstrap/Order/Established.antt =====
-- What holds after a bootstrap that succeeded.
use delegatio.Common.{◌≡◌, refl, sym, ap, ◌∙◌, String, true, Option, none, some}
use delegatio.Common.Outcome.{ok, returns, outcome_of, chain_ok}
use mathlib.Core.Path.{subst}
use delegatio.Store.{Bytes}
use delegatio.Bootstrap.{AgentClient, Tools, Bootstrapper, outside, EtcdCredentials}
use delegatio.Bootstrap.Setup.{setup, outside-Keeps, outside_returns}
use delegatio.Bootstrap.Kubeadm.{install_kubernetes, join_cluster_coordinator}
use delegatio.Bootstrap.Kubeadm.Setup.{join_cluster_coordinator-Keeps}
use delegatio.Bootstrap.Credentials.{
  write_kubeconfig_to_disk, get_kubernetes_config, get_kubernetes_root_cert,
}
use delegatio.Bootstrap.Credentials.Setup.{
  get_kubernetes_root_cert-Keeps, get_join_token-Keeps, get_etcd_credentials-Keeps, Wrote,
  write_kubeconfig_to_disk_ok,
}
use delegatio.Bootstrap.Order.{
  connect_with, configure_kubernetes, bootstrap_kubernetes, establish_client_go_connection,
}

some_of : {a b : String} → some a ≡ some b → a ≡ b
some_of h = cc

module _ {W : Type 0} (agents : AgentClient W) (tools : Tools W) where
  connect_with_ok :
      (file : Option String) (b b' : Bootstrapper W)
      → connect_with agents tools file b ≡ returns (ok tt) b'
      → (b'.client ≡ true)
        × (b'.kubeconfig ≡ b.kubeconfig)
        × (name : String) × (w w' : W) × (file ≡ some name)
        × (tools.build_config name w ≡ returns (ok tt) w')
  unfolding connect_with
  connect_with_ok none b b' h = cc
  connect_with_ok (some file) b b' h =
      let (built, b1, h1, rest1) = chain_ok (outside (tools.build_config file)) _ b h in
      let kept = (outside-Keeps (tools.build_config file)).related b b1 (ok built) h1 in
      let (w, ran, _) = outside_returns (tools.build_config file) b b1 (ok built) h1 in
      let ends = (outcome_of rest1).1 in
      (
        sym (ap (λ t. t.client) ends),
        sym (ap (λ t. t.kubeconfig) ends) ∙ kept.kubeconfig,
        file,
        b.world,
        w,
        refl,
        ran,
      )

  -- A bootstrap that returns without an error, with credentials or with the nil pointer, has created a
  -- file, written the configuration to it that it read from the control plane, and closed it; the
  -- variable KUBECONFIG names this file, and the client is set, built from the file of this name.
  pub bootstrap_kubernetes_ok :
      (b b' : Bootstrapper W) (creds : Option EtcdCredentials)
      → bootstrap_kubernetes agents tools b ≡ returns (ok creds) b'
      → (name : String) × (config : Bytes) × (before read : Bootstrapper W) × (w w' : W)
        × (get_kubernetes_config agents tools before ≡ returns (ok config) read)
        × Wrote agents tools name config
        × (b'.kubeconfig ≡ some name)
        × (tools.build_config name w ≡ returns (ok tt) w')
        × (b'.client ≡ true)
  unfolding bootstrap_kubernetes configure_kubernetes establish_client_go_connection
  bootstrap_kubernetes_ok b b' creds h =
      let (_, b1, _, rest1) = chain_ok (install_kubernetes agents b.k8s_config) _ b h in
      let (token, b2, configured, rest2) =
        chain_ok (configure_kubernetes agents tools) _ b1 rest1 in
      let (_, b3, joined, rest3) = chain_ok (join_cluster_coordinator agents token) _ b2 rest2 in
      let (_, c1, wrote, next1) =
        chain_ok (write_kubeconfig_to_disk agents tools) _ b1 configured in
      let (_, c2, connected, next2) =
        chain_ok (establish_client_go_connection agents tools) _ c1 next1 in
      let (cert, c3, got, next3) = chain_ok (get_kubernetes_root_cert agents tools) _ c2 next2 in
      let (config, read, asked, named, written) =
        write_kubeconfig_to_disk_ok agents tools b1 c1 wrote in
      let (client, same, file, w, w', file_is, built) =
        connect_with_ok c1.kubeconfig c1 c2 connected in
      let k1 = (get_kubernetes_root_cert-Keeps agents tools).related c2 c3 (ok cert) got in
      let k2 = (get_join_token-Keeps agents tools cert).related c3 b2 (ok token) next3 in
      let k3 = (join_cluster_coordinator-Keeps agents token).related b2 b3 (ok tt) joined in
      let k4 = (get_etcd_credentials-Keeps agents tools).related b3 b' (ok creds) rest3 in
      let kept = (setup W).chain k1 ((setup W).chain k2 ((setup W).chain k3 k4)) in
      let same_name : some file ≡ some "admin.conf" = sym file_is ∙ named in
      (
        "admin.conf",
        config,
        b1,
        read,
        w,
        w',
        asked,
        written,
        kept.kubeconfig ∙ same ∙ named,
        subst (λ n. tools.build_config n w ≡ returns (ok tt) w') (some_of same_name) built,
        kept.client ∙ client,
      )
