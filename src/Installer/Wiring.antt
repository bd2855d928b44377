-- ===== src/Installer/Wiring.antt =====
-- The credentials on their way: from the bootstrap to the installer, and from the installer's config
-- map to the servers that read it.
use delegatio.Common.{◌≡◌, refl, ◌∙◌, String, none, some}
use delegatio.Common.GoMap
use delegatio.Common.GoMap.{GoMap, IsDistinct, insert-IsDistinct, IsDistinct-empty}
use delegatio.Common.Outcome.{ok, err, returns, panics, ◌>>=◌, on_ok, bind_step}
use delegatio.Store.{Bytes, StoreOps}
use delegatio.Ssh.Kubernetes.{etcd_endpoint, credential}
use delegatio.Bootstrap.{
  AgentClient, Tools, Bootstrapper, EtcdCredentials, BootstrapError, JoinToken, outside,
}
use delegatio.Bootstrap.Kubeadm.{install_kubernetes, join_cluster_coordinator}
use delegatio.Bootstrap.Order.{configure_kubernetes, bootstrap_kubernetes}
use delegatio.Bootstrap.Setup.{outside-step}
use delegatio.Bootstrap.Credentials.{get_etcd_credentials, etcd_file}
use delegatio.Cluster.{ClientGo, get_config_map_data}
use delegatio.Installer.{
  Surroundings, Encodings, Installer, UserConfiguration, connect_to_etcd, connect_to_store,
  create_config_map_and_put_data, endpoint_of, ssh_data_of, remember,
}
use delegatio.Installer.Applications.{install_kubernetes_applications}
use delegatio.Installer.Configured.{ConfigMapLaws, get_config_map_data-put}

credential-same :
    (key : String) (m data' : GoMap String)
    → ((j : String) → GoMap.lookup j m ≡ GoMap.lookup j data')
    → credential key m ≡ credential key data'
credential-same key m data' reads = rw (reads key, credential) refl

etcd_endpoint-same :
    (join : String → String → String) (m data' : GoMap String)
    → ((j : String) → GoMap.lookup j m ≡ GoMap.lookup j data')
    → etcd_endpoint join m ≡ etcd_endpoint join data'
unfolding etcd_endpoint
etcd_endpoint-same join m data' reads =
    rw
      (
        credential-same "advertiseAddr" m data' reads,
        credential-same "caCert" m data' reads,
        credential-same "cert" m data' reads,
        credential-same "key" m data' reads,
      )
      refl

module _ {W : Type 0} (agents : AgentClient W) (tools : Tools W) where
  abbrev address_of : Bootstrapper W → String
  address_of b = agents.join_host_port b.control_plane_ip "9000"

  -- The agent of the control plane answers, but one of the two files of etcd's authority cannot be
  -- read: the key, or, after the key, the certificate.
  pub data MissesEtcdFile (b : Bootstrapper W) (w : W) : Type 0 where
    key_unread :
        (e : BootstrapError) (w1 : W)
        → agents.dial (address_of b) b.world ≡ returns (ok tt) w1
        → agents.read_file (address_of b) (etcd_file agents tools "ca.key") w1 ≡ returns (err e) w
        → MissesEtcdFile b w
    certificate_unread :
        (key : Bytes) (e : BootstrapError) (w1 w2 : W)
        → agents.dial (address_of b) b.world ≡ returns (ok tt) w1
        → agents.read_file (address_of b) (etcd_file agents tools "ca.key") w1 ≡ returns (ok key) w2
        → agents.read_file (address_of b) (etcd_file agents tools "ca.crt") w2 ≡ returns (err e) w
        → MissesEtcdFile b w

  unread_credentials_nil :
      (b : Bootstrapper W) (w : W)
      → MissesEtcdFile b w
      → get_etcd_credentials agents tools b ≡ returns (ok none) (record b { world = w })
  unfolding get_etcd_credentials etcd_file
  unread_credentials_nil b w (key_unread e w1 dialled failed) =
      let address = agents.join_host_port b.control_plane_ip "9000" in
      bind_step (outside (agents.dial address)) _ (outside-step (agents.dial address) b dialled)
      ∙ bind_step (outside (agents.read_file address (etcd_file agents tools "ca.key"))) _ (
          outside-step (agents.read_file address (etcd_file agents tools "ca.key"))
            (record b { world = w1 }) failed)
  unread_credentials_nil b w (certificate_unread key e w1 w2 dialled read failed) =
      let address = agents.join_host_port b.control_plane_ip "9000" in
      bind_step (outside (agents.dial address)) _ (outside-step (agents.dial address) b dialled)
      ∙ bind_step (outside (agents.read_file address (etcd_file agents tools "ca.key"))) _ (
          outside-step (agents.read_file address (etcd_file agents tools "ca.key"))
            (record b { world = w1 }) read)
      ∙ bind_step (outside (agents.read_file address (etcd_file agents tools "ca.crt"))) _ (
          outside-step (agents.read_file address (etcd_file agents tools "ca.crt"))
            (record b { world = w2 }) failed)

module _ {K S : Type 0} (api : ClientGo K) (store : StoreOps S) (around : Surroundings K S)
    (json : Encodings) where
  ssh_data-IsDistinct :
      (host : String) (creds : EtcdCredentials)
      → IsDistinct (ssh_data_of api store around json host creds)
  unfolding ssh_data_of GoMap.insert
  ssh_data-IsDistinct host creds = insert-IsDistinct "advertiseAddr" host (
      insert-IsDistinct "caCert" (around.text_of creds.ca_cert_data) (
        insert-IsDistinct "cert" (around.text_of creds.peer_cert_data)
          (insert-IsDistinct "key" (around.text_of creds.key_data) IsDistinct-empty)))

  module _ (laws : ConfigMapLaws api) where
    -- At an API server that answers: an installer that connects with some credentials to etcd, and then
    -- puts its data into a config map that was not there, makes the servers that read this map connect
    -- to the very endpoint, with the very certificates and key, that the installer connected to.
    pub credentials_arrive :
        (creds : EtcdCredentials) (host ns name : String) (s : S) (i : Installer K S) (k : K)
        → around.api_host ≡ ok host
        → around.new_etcd_store (endpoint_of api store around json host creds) ≡ ok s
        → laws.view k ns name ≡ none
        → (data' : GoMap String) × (k' : K) × (m : GoMap String) × (connect_to_etcd api store around
              json
              (some creds)
              (record i { cluster = k })
            ≡ returns (ok tt) (record { cluster = k; shared_store = some s; ssh_data = data' }))
          × (create_config_map_and_put_data api store around json ns name data'
                (record { cluster = k; shared_store = some s; ssh_data = data' })
              ≡ returns (ok tt) (record { cluster = k'; shared_store = some s; ssh_data = data' }))
          × (get_config_map_data api ns name k' ≡ returns (ok m) k')
          × (etcd_endpoint around.join_host_port m ≡ endpoint_of api store around json host creds)
    unfolding connect_to_etcd connect_to_store remember etcd_endpoint ssh_data_of endpoint_of
        GoMap.lookup
    credentials_arrive creds host ns name s i k parsed connected fresh =
        let data' = ssh_data_of api store around json host creds in
        let (k', m, put, got, reads) =
          get_config_map_data-put api laws store around json ns name data'
            (record { cluster = k; shared_store = some s; ssh_data = data' }) k
            (ssh_data-IsDistinct host creds) fresh in
        (
          data',
          k',
          m,
          rw (parsed, on_ok) (rw (connected, ◌>>=◌) refl),
          put,
          got,
          etcd_endpoint-same around.join_host_port m data' reads,
        )

  module _ {W : Type 0} (agents : AgentClient W) (tools : Tools W) where
    -- When kubeadm, the configuration and the joining of the workers succeed, and then one of the two
    -- files of etcd's authority, its key or its certificate, cannot be read, BootstrapKubernetes returns
    -- a nil pointer and no error, and the installer given this pointer panics at its first step.
    pub unread_credentials_panic :
        (config : UserConfiguration) (i : Installer K S) (host : String) (token : JoinToken)
        (b b1 b2 b3 : Bootstrapper W) (w : W)
        → around.api_host ≡ ok host
        → install_kubernetes agents b.k8s_config b ≡ returns (ok tt) b1
        → configure_kubernetes agents tools b1 ≡ returns (ok token) b2
        → join_cluster_coordinator agents token b2 ≡ returns (ok tt) b3
        → MissesEtcdFile agents tools b3 w
        → (bootstrap_kubernetes agents tools b ≡ returns (ok none) (record b3 { world = w }))
          × (install_kubernetes_applications api store around json none config i ≡ panics)
    unfolding bootstrap_kubernetes install_kubernetes_applications connect_to_etcd connect_to_store
    unread_credentials_panic config i host token b b1 b2 b3 w parsed installed configured joined
          unread =
        (
          bind_step (install_kubernetes agents b.k8s_config) _ installed
              ∙ bind_step (configure_kubernetes agents tools) _ configured
              ∙ bind_step (join_cluster_coordinator agents token) _ joined
              ∙ unread_credentials_nil agents tools b3 w unread,
          rw (parsed, on_ok, ◌>>=◌) refl,
        )
