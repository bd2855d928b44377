-- ===== src/Bootstrap/Credentials/Setup.antt =====
-- What reading the certificates leaves of the setup of the Bootstrapper, and what writing the
-- configuration does to it.
use delegatio.Common.{◌≡◌, refl, String, sym, ap, ◌∙◌, Option, some}
use delegatio.Common.Outcome.{
  Result, ok, err, returns, Method, gets, bind_returns, chain_ok, outcome_of,
}
use delegatio.Common.Keeps.{Keeps, pure-Keeps, gets-Keeps, bind-Keeps, on_ok-Keeps}
use delegatio.Store.{Bytes}
use delegatio.Bootstrap.{
  ReadFileRequest, BootstrapError, AgentClient, Tools, Bootstrapper, outside, EtcdCredentials,
}
use delegatio.Bootstrap.Setup.{setup, outside-Keeps, outside_returns}
use delegatio.Bootstrap.Credentials.{
  read_control_plane, get_kubernetes_config, get_kubernetes_root_cert, pinned, get_join_token,
  parsed_cert, parsed_key, generate_etcd_certificate, nil_on_error, etcd_file, get_etcd_credentials,
  joined, set_kubeconfig, write_created, write_kubeconfig_to_disk,
}

module _ {W : Type 0} (agents : AgentClient W) (tools : Tools W) where
  read_control_plane-Keeps :
      (request : ReadFileRequest) → Keeps (setup W) (read_control_plane agents tools request)
  unfolding read_control_plane
  read_control_plane-Keeps request =
      bind-Keeps _ (gets (λ b. agents.join_host_port b.control_plane_ip "9000")) _ (gets-Keeps _ _)
        (λ address. bind-Keeps _ (outside (agents.dial address)) _ (outside-Keeps _) (λ dialled.
          on_ok-Keeps _ dialled _ (λ _. outside-Keeps (agents.read_file address request))))

  pub get_kubernetes_root_cert-Keeps : Keeps (setup W) (get_kubernetes_root_cert agents tools)
  unfolding get_kubernetes_root_cert
  get_kubernetes_root_cert-Keeps = read_control_plane-Keeps _

  pub get_join_token-Keeps :
      (ca_file : Bytes) → Keeps (setup W) (get_join_token agents tools ca_file)
  unfolding get_join_token
  get_join_token-Keeps ca_file =
      bind-Keeps _ (outside tools.new_bootstrap_token) _ (outside-Keeps _) (λ raw.
        on_ok-Keeps _ raw _ (λ token.
          bind-Keeps _ (outside (tools.create_token token)) _ (outside-Keeps _) (λ created.
            on_ok-Keeps _ created _ (λ _.
              on_ok-Keeps _ (pinned agents tools (tools.pem_decode ca_file)) _ (λ hash.
                bind-Keeps _ (gets (λ b. b.control_plane_ip)) _ (gets-Keeps _ _)
                  (λ ip. pure-Keeps _ _))))))

  generate_etcd_certificate-Keeps :
      (cert key : Bytes) → Keeps (setup W) (generate_etcd_certificate agents tools cert key)
  unfolding generate_etcd_certificate
  generate_etcd_certificate-Keeps cert key =
      on_ok-Keeps _ (parsed_cert agents tools (tools.pem_decode cert)) _ (λ parent.
        on_ok-Keeps _ (parsed_key agents tools (tools.pem_decode key)) _ (λ signer.
          bind-Keeps _ (outside tools.generate_key) _ (outside-Keeps _) (λ generated.
            on_ok-Keeps _ generated _ (λ k.
              bind-Keeps _ (outside (tools.create_certificate parent k signer)) _ (outside-Keeps _)
                (λ created. on_ok-Keeps _ created _ (λ c. pure-Keeps _ _))))))

  nil_on_error-Keeps :
      (r : Result BootstrapError Bytes)
      (f : Bytes → Method (Bootstrapper W) (Result BootstrapError (Option EtcdCredentials)))
      → ((a : Bytes) → Keeps (setup W) (f a))
      → Keeps (setup W) (nil_on_error agents tools r f)
  unfolding nil_on_error
  nil_on_error-Keeps (err e) f h = pure-Keeps _ _
  nil_on_error-Keeps (ok a) f h = h a

  pub get_etcd_credentials-Keeps : Keeps (setup W) (get_etcd_credentials agents tools)
  unfolding get_etcd_credentials
  get_etcd_credentials-Keeps =
      bind-Keeps _ (gets (λ b. agents.join_host_port b.control_plane_ip "9000")) _ (gets-Keeps _ _)
        (λ address. bind-Keeps _ (outside (agents.dial address)) _ (outside-Keeps _) (λ dialled.
          on_ok-Keeps _ dialled _ (λ _.
            bind-Keeps _ (outside (agents.read_file address (etcd_file agents tools "ca.key"))) _
              (outside-Keeps _)
              (λ read_key. nil_on_error-Keeps read_key _ (λ ca_key.
                bind-Keeps _ (outside (agents.read_file address (etcd_file agents tools "ca.crt")))
                  _ (outside-Keeps _)
                  (λ read_cert.
                    nil_on_error-Keeps read_cert _
                      (λ ca_cert. generate_etcd_certificate-Keeps ca_cert ca_key)))))))

  -- A file of the name was created, the text written to it and the file closed, all without an error.
  pub record Wrote (name : String) (text : Bytes) : Type 0 where
    pub before : W
    pub created : W
    pub written : W
    pub closed : W
    pub creates : tools.create_file name before ≡ returns (ok tt) created
    pub writes : tools.write_bytes text created ≡ returns (ok tt) written
    pub closes : tools.close_file written ≡ returns (ok tt) closed

  set_kubeconfig_ok :
      (r : Result BootstrapError Unit) (b b' : Bootstrapper W)
      (q closed : Result BootstrapError Unit)
      → set_kubeconfig agents tools r b ≡ returns q b'
      → joined agents tools q closed ≡ ok tt
      → (b'.kubeconfig ≡ some "admin.conf") × (r ≡ ok tt) × (closed ≡ ok tt) × (b'.world ≡ b.world)
  unfolding set_kubeconfig joined
  set_kubeconfig_ok (err e) b b' q closed h j =
      let failed : err e ≡ ok tt = ap (λ t. joined agents tools t closed) (outcome_of h).0 ∙ j in cc
  set_kubeconfig_ok (ok _) b b' q closed h j = (
    sym (ap (λ t. t.kubeconfig) (outcome_of h).1),
    refl,
    ap (λ t. joined agents tools t closed) (outcome_of h).0 ∙ j,
    sym (ap (λ t. t.world) (outcome_of h).1),
  )

  write_created_ok :
      (r : Result BootstrapError Unit) (file : Bytes) (b b' : Bootstrapper W) (w : W)
      → write_created agents tools r file b ≡ returns (ok tt) b'
      → tools.create_file "admin.conf" w ≡ returns r b.world
      → (b'.kubeconfig ≡ some "admin.conf") × Wrote "admin.conf" file
  unfolding write_created
  write_created_ok (err e) file b b' w h made = cc
  write_created_ok (ok _) file b b' w h made =
      let (wrote, b1, h1, rest1) = bind_returns (outside (tools.write_bytes file)) _ b h in
      let (result, b2, h2, rest2) = bind_returns (set_kubeconfig agents tools wrote) _ b1 rest1 in
      let (closed, b3, h3, rest3) = bind_returns (outside tools.close_file) _ b2 rest2 in
      let closing = (outside-Keeps tools.close_file).related b2 b3 closed h3 in
      let ends = outcome_of rest3 in
      let (set, good, shut, same) = set_kubeconfig_ok wrote b1 b2 result closed h2 ends.0 in
      let (w1, written, at1) = outside_returns (tools.write_bytes file) b b1 wrote h1 in
      let (w2, done, at2) = outside_returns tools.close_file b2 b3 closed h3 in
      (
        sym (ap (λ t. t.kubeconfig) ends.1) ∙ closing.kubeconfig ∙ set,
        record {
          before = w;
          created = b.world;
          written = w1;
          closed = w2;
          creates = made;
          writes = written ∙ ap (λ x. returns x w1) good;
          closes =
              ap tools.close_file (ap (λ t. t.world) at1 ∙ sym same)
              ∙ done
              ∙ ap (λ x. returns x w2) shut;
        },
      )

  -- After a success the variable KUBECONFIG names the file that was written.
  pub write_kubeconfig_to_disk_ok :
      (b b' : Bootstrapper W)
      → write_kubeconfig_to_disk agents tools b ≡ returns (ok tt) b'
      → (file : Bytes) × (mid : Bootstrapper W) × (get_kubernetes_config agents tools b
          ≡ returns (ok file) mid)
        × (b'.kubeconfig ≡ some "admin.conf")
        × Wrote "admin.conf" file
  unfolding write_kubeconfig_to_disk
  write_kubeconfig_to_disk_ok b b' h =
      let (file, b1, h1, rest1) = chain_ok (get_kubernetes_config agents tools) _ b h in
      let (created, b2, h2, rest2) =
        bind_returns (outside (tools.create_file "admin.conf")) _ b1 rest1 in
      let (w, made, at) = outside_returns (tools.create_file "admin.conf") b1 b2 created h2 in
      let (set, wrote) =
        write_created_ok created file b2 b' b1.world rest2
          (made ∙ ap (returns created) (ap (λ t. t.world) at)) in
      (file, b1, h1, set, wrote)
