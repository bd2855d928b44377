-- ===== src/Ssh/Kubernetes.antt =====
-- ssh/kubernetes/api.go. The cluster behind internal/k8sapi, the agent's gRPC, files and
-- strings.TrimSpace are parameters.
pub mod Ressources
use delegatio.Common.{
  ℕ, String, Bool, true, false, List, [], ◌∷◌, Option, none, some, ◌<>◌, ◌==◌, if◌then◌else◌,
}
use delegatio.Common.GoMap
use delegatio.Common.GoMap.{GoMap}
use delegatio.Common.Outcome.{Result, ok, err, Method, pure, bind_result, on_ok, ◌>>=◌, ◌>>◌}
use delegatio.Connection.{KubeRessourceIdentifier, KubeFileWriteConfig}

-- The calls of k8sapi.Client on a user's resources, at a cluster `K`.
pub record UserCluster (K : Type 0) : Type 0 where
  pub user_ressources_exist : String → String → Method K (Result ℕ Bool)
  pub create_user_ressources : KubeRessourceIdentifier → Method K (Result ℕ Unit)
  pub wait_for_pod_running : String → String → Method K (Result ℕ Unit)

module _ {K : Type 0} (client : UserCluster K) where
  -- The branch for resources that are not there.
  create_missing : Bool → KubeRessourceIdentifier → Method K (Result ℕ Unit)
  create_missing exists conf = if exists then pure (ok tt) else client.create_user_ressources conf

  unfoldable pub create_and_wait_for_ressources : KubeRessourceIdentifier → Method K (Result ℕ Unit)
  unfolding create_missing
  create_and_wait_for_ressources conf = do
    exists ← client.user_ressources_exist conf.namespace conf.user_identifier
    on_ok exists λ there. (do
      created ← create_missing there conf
      on_ok created λ _. client.wait_for_pod_running conf.namespace conf.user_identifier)

-- WriteFileInPod: the service and the pod are looked up, and the agent at the pod's address writes.
unfoldable pub write_file_in_pod :
    (String → String → Result ℕ Unit)
    → (String → String → Result ℕ String)
    → (String → KubeFileWriteConfig → Result ℕ Unit)
    → KubeFileWriteConfig
    → Result ℕ Unit
write_file_in_pod get_service get_pod write_grpc conf =
    bind_result (get_service conf.namespace (conf.user_identifier <> "-service")) λ _.
      bind_result (get_pod conf.namespace (conf.user_identifier <> "-statefulset-0"))
        λ ip. write_grpc ip conf

-- What os.ReadFile returns.
pub data FileRead : Type 0 where
  not_exist : FileRead
  read_error : ℕ → FileRead
  content : String → FileRead

pub data MountError : Type 0 where
  context_ended : MountError
  file_error : ℕ → MountError
  no_file : MountError
  cluster_error : ℕ → MountError

-- What the select of waitForNamespaceMount receives: a tick, with what the file then is, or the end of
-- the context.
pub data MountEvent : Type 0 where
  tick : FileRead → MountEvent
  context_done : MountEvent

module _ (trim_space : String → String) where
  -- A file that is not there leaves the data nil.
  found : FileRead → Result MountError String
  found not_exist = ok (trim_space "")
  found (read_error e) = err (file_error e)
  found (content data') = ok (trim_space data')

  -- With no further event the loop waits.
  unfoldable pub wait_for_namespace_mount : List MountEvent → Option (Result MountError String)
  unfolding found
  wait_for_namespace_mount [] = none
  wait_for_namespace_mount (context_done ∷ events) = some (err context_ended)
  wait_for_namespace_mount (tick file ∷ events) =
      let rest = wait_for_namespace_mount events in
      elim (found file) [ err e ↦ some (err e) | ok ns ↦ if ns == "" then rest else some (ok ns) ]

  -- The namespace that GetStore reads: `stat_missing` is whether os.Stat finds no file.
  namespace_of : Bool → FileRead → List MountEvent → Option (Result MountError String)
  unfolding found wait_for_namespace_mount
  namespace_of true file events = wait_for_namespace_mount events
  namespace_of false not_exist events = some (err no_file)
  namespace_of false (read_error e) events = some (err (file_error e))
  namespace_of false (content data') events = some (ok (trim_space data'))

-- configData[key]: the empty string when it is missing.
abbrev pub credential : String → GoMap String → String
credential key config_data = elim (GoMap.lookup key config_data) [ none ↦ "" | some v ↦ v ]

-- The arguments of NewEtcdStore.
pub record EtcdEndpoint : Type 0 where
  pub endpoint : String
  pub ca_cert : String
  pub cert : String
  pub key : String

-- `join_host_port` is net.JoinHostPort.
unfoldable pub etcd_endpoint : (String → String → String) → GoMap String → EtcdEndpoint
etcd_endpoint join_host_port config_data = record {
  endpoint = join_host_port (credential "advertiseAddr" config_data) "2379";
  ca_cert = credential "caCert" config_data;
  cert = credential "cert" config_data;
  key = credential "key" config_data;
}
