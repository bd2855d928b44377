-- ===== src/Bootstrap.antt =====
-- cli/bootstrapper/kubernetes: kubeadm on the nodes, through the agents in them. The machines behind
-- the agents' gRPC are a state `W` with the parameter `AgentClient`; client-go, kubeadm's packages and
-- the file system of the caller are the parameter `Tools`.
pub mod Kubeadm
pub mod Output
pub mod Credentials
pub mod Setup
pub mod Order
use delegatio.Common.{
  ℕ, String, Bool, true, false, List, [], ◌∷◌, ◌++◌, Option, none, some, ◌<>◌, if◌then◌else◌,
}
use delegatio.Common.GoMap.{GoMap}
use delegatio.Common.Outcome.{
  Result, ok, err, returns, blocks, panics, Method, pure, gets, modify, on_ok, ◌>>=◌, ◌>>◌,
}
use delegatio.Store.{Bytes}
use delegatio.Agent.{ExecCommandRequest}
use delegatio.Agent.Exec.{ReturnResponse}

-- config.NodeInformation
pub record NodeInformation : Type 0 where
  pub masters : GoMap String
  pub workers : GoMap String

-- config.EtcdCredentials
pub record EtcdCredentials : Type 0 where
  pub peer_cert_data : Bytes
  pub key_data : Bytes
  pub ca_cert_data : Bytes

-- The fields that are set of kubeadm's BootstrapTokenDiscovery.
pub record JoinToken : Type 0 where
  pub token : String
  pub api_server_endpoint : String
  pub ca_cert_hashes : List String

pub record ReadFileRequest : Type 0 where
  pub filepath : String
  pub filename : String

pub record WriteFileRequest : Type 0 where
  pub filepath : String
  pub filename : String
  pub content : Bytes

-- What a turn of a loop over ExecCommandReturnStream meets: a message, an error of Recv (the end of
-- the stream among them), or the end of the context with its error.
pub data StreamEvent : Type 0 where
  received : ReturnResponse → StreamEvent
  recv_failed : ℕ → StreamEvent
  stream_context_done : ℕ → StreamEvent

pub data BootstrapError : Type 0 where
  call_failed : ℕ → BootstrapError
  kubeconfig_unset no_pem_in_cert no_pem_in_key key_unparsable : BootstrapError

-- The agents at their addresses: net.JoinHostPort, grpc.DialContext and the methods of the generated client.
pub record AgentClient (W : Type 0) : Type 0 where
  pub join_host_port : String → String → String
  pub dial : String → Method W (Result BootstrapError Unit)
  pub write_file : String → WriteFileRequest → Method W (Result BootstrapError Unit)
  pub read_file : String → ReadFileRequest → Method W (Result BootstrapError Bytes)
  pub exec_return_stream :
      String → ExecCommandRequest → Method W (Result BootstrapError (List StreamEvent))

-- What os, clientcmd, kubeadm and the crypto packages do. `close_file` is the error of Close.
pub record Tools (W : Type 0) : Type 0 where
  pub create_file : String → Method W (Result BootstrapError Unit)
  pub write_bytes : Bytes → Method W (Result BootstrapError Unit)
  pub close_file : Method W (Result BootstrapError Unit)
  pub build_config : String → Method W (Result BootstrapError Unit)
  pub new_bootstrap_token : Method W (Result BootstrapError String)
  pub create_token : String → Method W (Result BootstrapError Unit)
  pub pem_decode : Bytes → Option Bytes
  pub parse_certificate : Bytes → Result BootstrapError Bytes
  pub parse_private_key : Bytes → Result BootstrapError Bytes
  pub pin_hash : Bytes → String
  pub generate_key : Method W (Result BootstrapError Bytes)
  pub encode_key : Bytes → Bytes
  pub create_certificate : Bytes → Bytes → Bytes → Method W (Result BootstrapError Bytes)
  pub encode_certificate : Bytes → Bytes

-- Bootstrapper, with the lines that it prints, the variable KUBECONFIG and the world around it.
-- `client` is whether the field is set.
pub record Bootstrapper (W : Type 0) : Type 0 where
  pub client : Bool
  pub admin_conf : Bytes
  pub control_plane_ip : String
  pub worker_ips : GoMap String
  pub k8s_config : Bytes
  pub kubeconfig : Option String
  pub printed : List Bytes
  pub world : W

last_address : String → GoMap String → String
last_address ip [] = ip
last_address ip ((name, next) ∷ masters) = last_address next masters

-- NewBootstrapper: the range over the masters keeps the last address that it meets.
unfoldable pub new_bootstrapper :
    {W : Type 0} → W → NodeInformation → Bytes → Option String → Bootstrapper W
unfolding last_address
new_bootstrapper world nodes config kubeconfig = record {
  client = false;
  admin_conf = [];
  control_plane_ip = last_address "" nodes.masters;
  worker_ips = nodes.workers;
  k8s_config = config;
  kubeconfig = kubeconfig;
  printed = [];
  world = world;
}

-- A call on the world.
abbrev pub outside : {W A : Type 0} → Method W A → Method (Bootstrapper W) A
outside call b = elim (call b.world) [
  | returns a w ↦ returns a (record b { world = w })
  | blocks ↦ blocks
  | panics ↦ panics
]

-- fmt.Println of a log line that is not empty.
abbrev pub print_line : {W : Type 0} → Bytes → Method (Bootstrapper W) Unit
print_line [] b = returns tt b
print_line (c ∷ line) b = returns tt (record b { printed = b.printed ++ (c ∷ line) ∷ [] })
