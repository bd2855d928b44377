-- ===== src/Installer/Applications.antt =====
-- The applications of cli/installer/installer.go and SaveState of cli/terminate/terminate.go.
use delegatio.Common.{Option, none, some, []}
use delegatio.Common.Outcome.{Result, ok, err, Method, pure, gets, on_ok, ◌>>=◌}
use delegatio.Store.{Bytes, StoreOps}
use delegatio.StoreWrapper.{get_all_challenges, get_all_public_keys, put_priv_key}
use delegatio.Bootstrap.{EtcdCredentials}
use delegatio.Cluster.{
  ClientGo, create_namespace, create_service_account, create_cluster_role_binding,
  create_ssh_deployment, create_grader_deployment, create_service_load_balancer,
  create_service_cluster_ip, create_ingress,
}
use delegatio.Installer.{
  InstallError, not_connected, UserConfiguration, Surroundings, Encodings, Installer, on_cluster,
  on_store, connect_to_etcd, install_cilium, initialize_challenges, create_config_map_and_put_data,
  upload_ssh_server_priv_key,
}

module _ {K S : Type 0} (api : ClientGo K) (store : StoreOps S) (around : Surroundings K S)
    (json : Encodings) where
  unfoldable pub initialize_ssh : Method (Installer K S) (Result InstallError Unit)
  initialize_ssh = do
    ns ← on_cluster (create_namespace api "ssh")
    on_ok ns λ _. (do
      data' ← gets (λ i. i.ssh_data)
      put ← create_config_map_and_put_data api store around json "ssh" "etcd-credentials" data'
      on_ok put λ _. on_ok around.read_server_key λ privkey. (do
        uploaded ← upload_ssh_server_priv_key api store around json privkey
        on_ok uploaded λ _. (do
          account ← on_cluster (create_service_account api "ssh" "development-ssh")
          on_ok account λ _. (do
            bound ← on_cluster (create_cluster_role_binding api "ssh" "development-ssh")
            on_ok bound λ _. (do
              deployed ←
                  on_cluster (create_ssh_deployment api "ssh" "ssh-relay" around.number_of_workers)
              on_ok deployed λ _. (do
                balanced ← on_cluster (create_service_load_balancer api "ssh" "ssh-relay" 2200)
                on_ok balanced λ _. on_cluster (create_ingress api "ssh")))))))

  unfoldable pub initialize_grader : Method (Installer K S) (Result InstallError Unit)
  initialize_grader = do
    ns ← on_cluster (create_namespace api "grader")
    on_ok ns λ _. (do
      data' ← gets (λ i. i.ssh_data)
      put ← create_config_map_and_put_data api store around json "grader" "etcd-credentials" data'
      on_ok put λ _. (do
        account ← on_cluster (create_service_account api "grader" "development-grader")
        on_ok account λ _. (do
          bound ← on_cluster (create_cluster_role_binding api "grader" "development-grader")
          on_ok bound λ _. (do
            deployed ←
                on_cluster (create_grader_deployment api "grader" "grader" around.number_of_workers)
            on_ok deployed
                λ _. on_cluster (create_service_cluster_ip api "grader" "grader" 9027)))))

  unfoldable pub install_kubernetes_applications :
      Option EtcdCredentials → UserConfiguration → Method (Installer K S) (Result InstallError Unit)
  unfolding initialize_ssh initialize_grader
  install_kubernetes_applications creds config = do
    connected ← connect_to_etcd api store around json creds
    on_ok connected λ _. (do
      charts ← install_cilium api store around json
      on_ok charts λ _. (do
        challenges ← initialize_challenges api store around json config
        on_ok challenges λ _. (do ssh ← initialize_ssh; on_ok ssh λ _. initialize_grader)))

  unfoldable pub user_data_of :
      Option S → Method (Installer K S) (Result InstallError UserConfiguration)
  user_data_of none = pure (err not_connected)
  user_data_of (some s) = do
    challenges ← on_store (get_all_challenges store json.challenges)
    on_ok challenges λ containers. (do
      users ← on_store (get_all_public_keys store json.users)
      on_ok users λ found.
          pure
            (ok (record { uuid_to_user = found; pub_key_to_user = []; containers = containers })))

  -- GetStoreUserData, the data that SaveState writes.
  unfoldable pub get_store_user_data :
      Method (Installer K S) (Result InstallError UserConfiguration)
  unfolding user_data_of
  get_store_user_data = do shared ← gets (λ i. i.shared_store); user_data_of shared

  -- DownloadSSHServerPrivKey
  download_to : Option S → Bytes → Method (Installer K S) (Result InstallError Unit)
  download_to none privkey = pure (err not_connected)
  download_to (some s) privkey = on_store (put_priv_key store privkey)

  unfoldable pub download_ssh_server_priv_key :
      Bytes → Method (Installer K S) (Result InstallError Unit)
  unfolding download_to
  download_ssh_server_priv_key privkey = do
    shared ← gets (λ i. i.shared_store)
    download_to shared privkey
