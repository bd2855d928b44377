-- ===== src/Cluster.antt =====
-- internal/k8sapi: the helpers around client-go. The API server is a state `K` with the parameter
-- `ClientGo`; an object is created from the arguments of its template.
pub mod Bound
use delegatio.Common.{
  ℕ, String, Bool, true, false, List, [], ◌∷◌, ◌++◌, Option, none, some, ◌<>◌, if◌then◌else◌,
}
use delegatio.Common.GoMap
use delegatio.Common.GoMap.{GoMap}
use delegatio.Common.Outcome.{Result, ok, err, Method, pure, on_ok, ◌>>=◌, ◌>>◌}
use delegatio.Connection.{KubeRessourceIdentifier}

-- What errors.IsNotFound tells apart.
pub data KubeError : Type 0 where
  not_found pod_completed : KubeError
  other : ℕ → KubeError

-- The objects that are created, with what their template takes.
pub data KubeObject : Type 0 where
  namespace secret ingress ingress_class : String → KubeObject
  config_map service_account cluster_role_binding storage_class : String → String → KubeObject
  ssh_deployment grader_deployment load_balancer cluster_ip : String → String → ℕ → KubeObject
  headless_service stateful_set persistent_volume persistent_volume_claim :
      KubeRessourceIdentifier → KubeObject

pub data PodPhase : Type 0 where
  pending running succeeded failed unknown : PodPhase

-- A subject of a binding: the namespace and the name of a service account.
abbrev pub Subject : Type 0
Subject = String × String

pub record ClientGo (K : Type 0) : Type 0 where
  pub create : KubeObject → Method K (Result KubeError Unit)
  pub get_config_map : String → String → Method K (Result KubeError (GoMap String))
  pub update_config_map : String → String → GoMap String → Method K (Result KubeError Unit)
  pub get_binding : Method K (Result KubeError (List Subject))
  pub update_binding : List Subject → Method K (Result KubeError Unit)
  pub get_namespace : String → Method K (Result KubeError Unit)
  pub get_stateful_set : String → String → Method K (Result KubeError Unit)
  pub get_pod : String → String → Method K (Result KubeError PodPhase)
  -- wait.PollImmediate and wait.PollWithContext every second, for so many seconds
  pub poll_immediate : ℕ → Method K (Result KubeError Bool) → Method K (Result KubeError Unit)
  pub poll : ℕ → Method K (Result KubeError Bool) → Method K (Result KubeError Unit)

module _ {K : Type 0} (api : ClientGo K) where
  unfoldable pub create_namespace : String → Method K (Result KubeError Unit)
  create_namespace name = api.create (namespace name)

  -- The answer of the Exists methods.
  found : Result KubeError Unit → Result KubeError Bool
  found (ok _) = ok true
  found (err not_found) = ok false
  found (err pod_completed) = err pod_completed
  found (err (other e)) = err (other e)

  unfoldable pub namespace_exists : String → Method K (Result KubeError Bool)
  unfolding found
  namespace_exists name = do r ← api.get_namespace name; pure (found r)

  unfoldable pub create_config_map : String → String → Method K (Result KubeError Unit)
  create_config_map ns name = api.create (config_map ns name)

  -- A map without data is replaced by a new one.
  unfoldable pub put_data : String → String → GoMap String → GoMap String
  put_data key value [] = (key, value) ∷ []
  put_data key value ((own, old) ∷ rest) = GoMap.insert key value ((own, old) ∷ rest)

  unfoldable pub add_data_to_config_map :
      String → String → String → String → Method K (Result KubeError Unit)
  unfolding put_data
  add_data_to_config_map ns name key value = do
    m ← api.get_config_map ns name
    on_ok m λ data'. api.update_config_map ns name (put_data key value data')

  unfoldable pub get_config_map_data : String → String → Method K (Result KubeError (GoMap String))
  get_config_map_data ns name = api.get_config_map ns name

  unfoldable pub create_storage_class : String → String → Method K (Result KubeError Unit)
  create_storage_class name policy = api.create (storage_class name policy)

  unfoldable pub create_service_account : String → String → Method K (Result KubeError Unit)
  create_service_account ns name = api.create (service_account ns name)

  -- Whatever error Get reports, the binding is created; else the account becomes a further subject.
  bind_subject :
      String → String → Result KubeError (List Subject) → Method K (Result KubeError Unit)
  bind_subject ns name (err e) = api.create (cluster_role_binding ns name)
  bind_subject ns name (ok subjects) = api.update_binding (subjects ++ (ns, name) ∷ [])

  unfoldable pub create_cluster_role_binding : String → String → Method K (Result KubeError Unit)
  unfolding bind_subject
  create_cluster_role_binding ns name = do r ← api.get_binding; bind_subject ns name r

  unfoldable pub create_ssh_deployment : String → String → ℕ → Method K (Result KubeError Unit)
  create_ssh_deployment ns name replicas = api.create (ssh_deployment ns name replicas)

  unfoldable pub create_grader_deployment : String → String → ℕ → Method K (Result KubeError Unit)
  create_grader_deployment ns name replicas = api.create (grader_deployment ns name replicas)

  unfoldable pub create_service_load_balancer :
      String → String → ℕ → Method K (Result KubeError Unit)
  create_service_load_balancer ns name port = api.create (load_balancer ns name port)

  unfoldable pub create_service_cluster_ip : String → String → ℕ → Method K (Result KubeError Unit)
  create_service_cluster_ip ns name port = api.create (cluster_ip ns name port)

  unfoldable pub create_ingress : String → Method K (Result KubeError Unit)
  create_ingress ns = do
    created ← create_config_map "default" "my-tcpservices-configmap"
    on_ok created λ _. (do
      added ←
          add_data_to_config_map "default" "my-tcpservices-configmap" "22"
            "ssh/ssh-relay-service:2200"
      on_ok added
          λ _. (do class ← api.create (ingress_class ns); on_ok class λ _. api.create (ingress ns)))

  unfoldable pub create_headless_service :
      KubeRessourceIdentifier → Method K (Result KubeError Unit)
  create_headless_service identifier = api.create (headless_service identifier)

  unfoldable pub create_user_stateful_set :
      KubeRessourceIdentifier → Method K (Result KubeError Unit)
  create_user_stateful_set identifier = do
    service ← create_headless_service identifier
    on_ok service λ _. api.create (stateful_set identifier)

  unfoldable pub create_persistent_volume_claim :
      KubeRessourceIdentifier → Method K (Result KubeError Unit)
  create_persistent_volume_claim identifier = api.create (persistent_volume_claim identifier)

  unfoldable pub create_persistent_volume :
      KubeRessourceIdentifier → Method K (Result KubeError Unit)
  create_persistent_volume identifier = api.create (persistent_volume identifier)

  unfoldable pub is_stateful_set_active : String → String → Method K (Result KubeError Bool)
  unfolding found
  is_stateful_set_active name ns = do
    r ← api.get_stateful_set ns (name <> "-statefulset")
    pure (found r)

  -- Whether a pod has come up; one that has ended never will.
  phase_is_running : Result KubeError PodPhase → Result KubeError Bool
  phase_is_running (err not_found) = ok false
  phase_is_running (err pod_completed) = err pod_completed
  phase_is_running (err (other e)) = err (other e)
  phase_is_running (ok running) = ok true
  phase_is_running (ok failed) = err pod_completed
  phase_is_running (ok succeeded) = err pod_completed
  phase_is_running (ok pending) = ok false
  phase_is_running (ok unknown) = ok false

  unfoldable pub is_pod_running : String → String → Method K (Result KubeError Bool)
  unfolding phase_is_running
  is_pod_running name ns = do
    r ← api.get_pod ns (name <> "-statefulset-0")
    pure (phase_is_running r)

  unfoldable pub wait_for_stateful_set : String → String → ℕ → Method K (Result KubeError Unit)
  unfolding is_stateful_set_active
  wait_for_stateful_set ns name timeout =
      api.poll_immediate timeout (is_stateful_set_active name ns)

  unfoldable pub user_ressources_exist : String → String → Method K (Result KubeError Bool)
  user_ressources_exist ns name = is_stateful_set_active name ns

  unfoldable pub wait_for_pod_running : String → String → ℕ → Method K (Result KubeError Unit)
  wait_for_pod_running ns name timeout = api.poll timeout (is_pod_running name ns)

  -- The namespace, when it is not there.
  ensure_namespace : Bool → String → Method K (Result KubeError Unit)
  ensure_namespace exists name = if exists then pure (ok tt) else create_namespace name

  -- CreateUserRessources, the last two calls of which wait for twenty seconds and four minutes.
  unfoldable pub create_user_ressources : KubeRessourceIdentifier → Method K (Result KubeError Unit)
  unfolding ensure_namespace
  create_user_ressources given = do
    exists ← namespace_exists given.namespace
    on_ok exists λ there. (do
      ensured ← ensure_namespace there given.namespace
      on_ok ensured λ _. (do
        let identifier = record given { storage_class = "nfs" }
        created ← create_user_stateful_set identifier
        on_ok created λ _. (do
          active ← wait_for_stateful_set given.namespace given.user_identifier 20
          on_ok active λ _. (do
            claimed ← create_persistent_volume_claim identifier
            on_ok claimed λ _. (do
              volume ← create_persistent_volume identifier
              on_ok volume λ _. wait_for_pod_running given.namespace given.user_identifier 240)))))
