-- ===== src/Installer.antt =====
-- cli/installer/installer.go, cli/terminate/terminate.go and the store of internal/k8sapi/k8sapi.go:
-- what is put into a new cluster, and what is saved of it. The API server is a state `K`, the store a
-- state `S`; net/url, helm, the file system and etcd's client are the parameter `Surroundings`.
pub mod Applications
pub mod Users
pub mod Saved
pub mod Configured
pub mod Wiring
use delegatio.Common.{ℕ, String, Bool, true, false, List, [], ◌∷◌, Option, none, some}
use delegatio.Common.GoMap.{GoMap}
use delegatio.Common.Outcome.{
  Result, ok, err, returns, blocks, panics, Method, pure, gets, modify, on_ok, ◌>>=◌, ◌>>◌,
}
use delegatio.Config.{UserInformation, ContainerInformation, user_namespace}
use delegatio.Store.{Bytes, StoreError, StoreOps}
use delegatio.StoreWrapper.{
  Codec, put_challenge_data, put_data_idx_by_uuid, put_data_idx_by_pub_key, put_priv_key,
  get_all_challenges, get_all_public_keys,
}
use delegatio.Ssh.Kubernetes.{EtcdEndpoint}
use delegatio.Bootstrap.{EtcdCredentials}
use delegatio.Cluster.{
  KubeError, ClientGo, create_namespace, create_config_map, add_data_to_config_map,
  create_storage_class, create_service_account, create_cluster_role_binding, create_ssh_deployment,
  create_grader_deployment, create_service_load_balancer, create_service_cluster_ip, create_ingress,
}

pub data InstallError : Type 0 where
  of_cluster : KubeError → InstallError
  of_store : StoreError → InstallError
  not_connected : InstallError
  other : ℕ → InstallError

-- config.UserConfiguration
pub record UserConfiguration : Type 0 where
  pub uuid_to_user : GoMap UserInformation
  pub pub_key_to_user : GoMap UserInformation
  pub containers : GoMap ContainerInformation

-- `api_host` is the host of the client's configuration, parsed; `text_of` converts bytes to a string.
pub record Surroundings (K S : Type 0) : Type 0 where
  pub join_host_port : String → String → String
  pub text_of : Bytes → String
  pub api_host : Result InstallError String
  pub new_etcd_store : EtcdEndpoint → Result InstallError S
  pub install_chart : String → Method K (Result KubeError Unit)
  pub read_server_key : Result InstallError Bytes
  pub number_of_workers : ℕ

-- How the values are encoded; nil is the value of the challenges.
pub record Encodings : Type 0 where
  pub users : Codec UserInformation
  pub challenges : Codec ContainerInformation
  pub null : Codec Unit

-- installer with its k8sapi.Client: `shared_store` is nil before the connection.
pub record Installer (K S : Type 0) : Type 0 where
  pub cluster : K
  pub shared_store : Option S
  pub ssh_data : GoMap String

abbrev to_install : {E A : Type 0} → (E → InstallError) → Result E A → Result InstallError A
to_install f (ok a) = ok a
to_install f (err e) = err (f e)

module _ {K S : Type 0} where
  abbrev pub on_cluster :
      {A : Type 0} → Method K (Result KubeError A) → Method (Installer K S) (Result InstallError A)
  on_cluster call i = elim (call i.cluster) [
    | returns r k ↦ returns (to_install of_cluster r) (record i { cluster = k })
    | blocks ↦ blocks
    | panics ↦ panics
  ]

  store_call :
      {A : Type 0}
      → Option S
      → Method S (Result StoreError A)
      → Method (Installer K S) (Result InstallError A)
  store_call none call i = panics
  store_call (some s) call i = elim (call s) [
    | returns r t ↦ returns (to_install of_store r) (record i { shared_store = some t })
    | blocks ↦ blocks
    | panics ↦ panics
  ]

  -- A method of the StoreWrapper, which panics on a nil store.
  unfoldable pub on_store :
      {A : Type 0} → Method S (Result StoreError A) → Method (Installer K S) (Result InstallError A)
  unfolding store_call
  on_store call i = store_call i.shared_store call i

  -- for key, value := range m { if err := put(key, value); err != nil { return err } }
  unfoldable pub put_all :
      {A : Type 0}
      → (String → A → Method (Installer K S) (Result InstallError Unit))
      → GoMap A
      → Method (Installer K S) (Result InstallError Unit)
  put_all put [] = pure (ok tt)
  put_all put ((key, value) ∷ rest) = do r ← put key value; on_ok r λ _. put_all put rest

module _ {K S : Type 0} (api : ClientGo K) (store : StoreOps S) (around : Surroundings K S)
    (json : Encodings) where
  pub endpoint_of : String → EtcdCredentials → EtcdEndpoint
  endpoint_of host creds = record {
    endpoint = around.join_host_port host "2379";
    ca_cert = around.text_of creds.ca_cert_data;
    cert = around.text_of creds.peer_cert_data;
    key = around.text_of creds.key_data;
  }

  -- ConnectToStore, which takes the fields of the credentials: a nil pointer panics.
  unfoldable pub connect_to_store :
      Option EtcdCredentials → String → Method (Installer K S) (Result InstallError Unit)
  unfolding endpoint_of
  connect_to_store none host = λ _. panics
  connect_to_store (some creds) host =
      on_ok (around.new_etcd_store (endpoint_of host creds))
        λ s. (do modify (λ i. record i { shared_store = some s }); pure (ok tt))

  ssh_data_of : String → EtcdCredentials → GoMap String
  ssh_data_of host creds =
      ("key", around.text_of creds.key_data)
      ∷ ("cert", around.text_of creds.peer_cert_data)
      ∷ ("caCert", around.text_of creds.ca_cert_data)
      ∷ ("advertiseAddr", host)
      ∷ []

  remember : Option EtcdCredentials → String → Method (Installer K S) (Result InstallError Unit)
  unfolding ssh_data_of
  remember none host = λ _. panics
  remember (some creds) host = do
    modify (λ i. record i { ssh_data = ssh_data_of host creds })
    pure (ok tt)

  unfoldable pub connect_to_etcd :
      Option EtcdCredentials → Method (Installer K S) (Result InstallError Unit)
  unfolding connect_to_store remember
  connect_to_etcd creds =
      on_ok around.api_host λ host. (do
        connected ← connect_to_store creds host
        on_ok connected λ _. remember creds host)

  unfoldable pub install_cilium : Method (Installer K S) (Result InstallError Unit)
  install_cilium = on_ok around.api_host λ host. on_cluster (around.install_chart host)

  -- The three loops of initalizeChallenges.
  unfoldable pub put_users : UserConfiguration → Method (Installer K S) (Result InstallError Unit)
  put_users config = do
    challenges ←
        put_all (λ name _. on_store (put_challenge_data store json.null name tt)) config.containers
    on_ok challenges λ _. (do
      uuids ←
          put_all (λ uuid user. on_store (put_data_idx_by_uuid store json.users uuid user))
            config.uuid_to_user
      on_ok uuids λ _.
          put_all (λ pubkey user. on_store (put_data_idx_by_pub_key store json.users pubkey user))
            config.pub_key_to_user)

  unfoldable pub initialize_challenges :
      UserConfiguration → Method (Installer K S) (Result InstallError Unit)
  unfolding put_users
  initialize_challenges config = do
    class ← on_cluster (create_storage_class api "nfs" "Retain")
    on_ok class λ _. (do
      ns ← on_cluster (create_namespace api user_namespace)
      on_ok ns λ _. put_users config)

  unfoldable pub create_config_map_and_put_data :
      String → String → GoMap String → Method (Installer K S) (Result InstallError Unit)
  create_config_map_and_put_data ns name data' = do
    created ← on_cluster (create_config_map api ns name)
    on_ok created
        λ _. put_all (λ key value. on_cluster (add_data_to_config_map api ns name key value)) data'

  -- UploadSSHServerPrivKey
  upload_to : Option S → Bytes → Method (Installer K S) (Result InstallError Unit)
  upload_to none privkey = pure (err not_connected)
  upload_to (some s) privkey = on_store (put_priv_key store privkey)

  unfoldable pub upload_ssh_server_priv_key :
      Bytes → Method (Installer K S) (Result InstallError Unit)
  unfolding upload_to
  upload_ssh_server_priv_key privkey = do
    shared ← gets (λ i. i.shared_store)
    upload_to shared privkey
