-- ===== src/Bootstrap/Credentials.antt =====
-- cli/bootstrapper/kubernetes/get.go, generate.go and write.go: what is read from the control plane
-- and what is made of it.
pub mod Setup
use delegatio.Common.{
  ℕ, ◌≡◌, refl, sym, ◌∙◌, String, Bool, true, false, List, [], ◌∷◌, Option, none, some, ◌<>◌,
}
use delegatio.Common.Outcome.{
  Result, ok, err, returns, blocks, panics, Method, pure, gets, modify, on_ok, ◌>>=◌, ◌>>◌,
}
use delegatio.Store.{Bytes}
use delegatio.Bootstrap.{
  JoinToken, ReadFileRequest, BootstrapError, no_pem_in_cert, no_pem_in_key, key_unparsable,
  kubeconfig_unset, AgentClient, Tools, Bootstrapper, outside, EtcdCredentials,
}

module _ {W : Type 0} (agents : AgentClient W) (tools : Tools W) where
  -- A dial and a ReadFile at the control plane.
  read_control_plane : ReadFileRequest → Method (Bootstrapper W) (Result BootstrapError Bytes)
  read_control_plane request = do
    address ← gets (λ b. agents.join_host_port b.control_plane_ip "9000")
    dialled ← outside (agents.dial address)
    on_ok dialled λ _. outside (agents.read_file address request)

  unfoldable pub get_kubernetes_config : Method (Bootstrapper W) (Result BootstrapError Bytes)
  unfolding read_control_plane
  get_kubernetes_config = do
    file ← read_control_plane (record { filepath = "/etc/kubernetes"; filename = "/admin.conf" })
    on_ok file λ data'. (do modify (λ b. record b { admin_conf = data' }); pure (ok data'))

  unfoldable pub get_kubernetes_root_cert : Method (Bootstrapper W) (Result BootstrapError Bytes)
  unfolding read_control_plane
  get_kubernetes_root_cert =
      read_control_plane (record { filepath = "/etc/kubernetes/pki/"; filename = "/ca.crt" })

  -- The hash of the certificate in a CA file.
  pinned : Option Bytes → Result BootstrapError String
  pinned none = err no_pem_in_cert
  pinned (some block) = elim (tools.parse_certificate block) [
    | err e ↦ err e
    | ok cert ↦ ok (tools.pin_hash cert)
  ]

  unfoldable pub get_join_token : Bytes → Method (Bootstrapper W) (Result BootstrapError JoinToken)
  unfolding pinned
  get_join_token ca_file = do
    raw ← outside tools.new_bootstrap_token
    on_ok raw λ token. (do
      created ← outside (tools.create_token token)
      on_ok created λ _. on_ok (pinned (tools.pem_decode ca_file)) λ hash. (do
        ip ← gets (λ b. b.control_plane_ip)
        pure (
            ok (record {
              token = token;
              api_server_endpoint = agents.join_host_port ip "6443";
              ca_cert_hashes = hash ∷ [];
            }))))

  parsed_cert : Option Bytes → Result BootstrapError Bytes
  parsed_cert none = err no_pem_in_cert
  parsed_cert (some block) = tools.parse_certificate block

  parsed_key : Option Bytes → Result BootstrapError Bytes
  parsed_key none = err no_pem_in_key
  parsed_key (some block) = elim (tools.parse_private_key block) [
    | err e ↦ err key_unparsable
    | ok key ↦ ok key
  ]

  unfoldable pub generate_etcd_certificate :
      Bytes → Bytes → Method (Bootstrapper W) (Result BootstrapError (Option EtcdCredentials))
  unfolding parsed_cert parsed_key
  generate_etcd_certificate ca_cert ca_key =
      on_ok (parsed_cert (tools.pem_decode ca_cert)) λ parent.
        on_ok (parsed_key (tools.pem_decode ca_key)) λ signer. (do
          generated ← outside tools.generate_key
          on_ok generated λ key. (do
            created ← outside (tools.create_certificate parent key signer)
            on_ok created λ cert. pure (
                ok (
                  some (record {
                    peer_cert_data = tools.encode_certificate cert;
                    key_data = tools.encode_key key;
                    ca_cert_data = ca_cert;
                  })))))

  -- `if err != nil { return nil, nil }`
  nil_on_error :
      Result BootstrapError Bytes
      → (Bytes → Method (Bootstrapper W) (Result BootstrapError (Option EtcdCredentials)))
      → Method (Bootstrapper W) (Result BootstrapError (Option EtcdCredentials))
  nil_on_error (err e) rest = pure (ok none)
  nil_on_error (ok content) rest = rest content

  unfoldable pub etcd_file : String → ReadFileRequest
  etcd_file name = record { filepath = "/etc/kubernetes/pki/etcd/"; filename = name }

  -- getEtcdCredentials; `none` is a nil pointer.
  unfoldable pub get_etcd_credentials :
      Method (Bootstrapper W) (Result BootstrapError (Option EtcdCredentials))
  unfolding nil_on_error etcd_file
  get_etcd_credentials = do
    address ← gets (λ b. agents.join_host_port b.control_plane_ip "9000")
    dialled ← outside (agents.dial address)
    on_ok dialled λ _. (do
      read_key ← outside (agents.read_file address (etcd_file "ca.key"))
      nil_on_error read_key λ ca_key. (do
        read_cert ← outside (agents.read_file address (etcd_file "ca.crt"))
        nil_on_error read_cert λ ca_cert. generate_etcd_certificate ca_cert ca_key))

  -- errors.Join(err, adminConfigFile.Close()), in the deferred function: an error of either remains.
  joined : Result BootstrapError Unit → Result BootstrapError Unit → Result BootstrapError Unit
  joined (err e) closed = err e
  joined (ok _) closed = closed

  set_kubeconfig : Result BootstrapError Unit → Method (Bootstrapper W) (Result BootstrapError Unit)
  set_kubeconfig (err e) = pure (err e)
  set_kubeconfig (ok _) = do modify (λ b. record b { kubeconfig = some "admin.conf" }); pure (ok tt)

  -- After os.Create: the error's text takes the name of a nil file, which panics.
  write_created :
      Result BootstrapError Unit → Bytes → Method (Bootstrapper W) (Result BootstrapError Unit)
  unfolding joined set_kubeconfig
  write_created (err e) file = λ _. panics
  write_created (ok _) file = do
    wrote ← outside (tools.write_bytes file)
    result ← set_kubeconfig wrote
    closed ← outside tools.close_file
    pure (joined result closed)

  unfoldable pub write_kubeconfig_to_disk : Method (Bootstrapper W) (Result BootstrapError Unit)
  unfolding write_created
  write_kubeconfig_to_disk = do
    config ← get_kubernetes_config
    on_ok config
        λ file. (do created ← outside (tools.create_file "admin.conf"); write_created created file)
