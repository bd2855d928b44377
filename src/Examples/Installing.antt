-- ===== src/Examples/Installing.antt =====
-- Runs of the installer and of the credentials at an API server and a store in memory.
use delegatio.Common.{
  ◌≡◌, refl, sym, ap, ◌∙◌, ◌==◌, Bool-cases, inl, inr, has_prefix, trim_prefix, String, true, [],
  ◌∷◌, ◌++◌, none, some, is_some, ◌<>◌, arith,
}
use delegatio.Common.GoMap
use delegatio.Common.GoMap.{GoMap, IsDistinct, IsDistinct-empty, insert-IsDistinct}
use delegatio.Common.Outcome.{ok, err, returns}
use delegatio.Config.{UserInformation, ContainerInformation, zero_user, zero_container}
use delegatio.Store.{get_next, has_next}
use delegatio.Store.Std.{StdStore, std_ops, get, iterator}
use delegatio.Store.Std.Contract.{std_laws}
use delegatio.StoreWrapper.{
  Codec, collect, get_all_challenges, get_all_public_keys, get_challenge_data, get_public_key_data,
  get_public_key_uuid, challenge_location_prefix, public_key_prefix,
}
use delegatio.Ssh.Kubernetes.{etcd_endpoint}
use delegatio.Bootstrap.{AgentClient, Tools, EtcdCredentials, call_failed}
use delegatio.StoreWrapper.Loops.{decoded}
use delegatio.Ssh.Auth.{AuthError, public_key_callback}
use delegatio.Store.Std.Contract.{IsReady}
use delegatio.Cluster.{create_cluster_role_binding, get_config_map_data}
use delegatio.Cluster.Bound.{subjects_of, binding-create}
use delegatio.Installer.{
  Surroundings, Encodings, Installer, UserConfiguration, put_users, connect_to_etcd, on_store,
  endpoint_of, create_config_map_and_put_data,
}
use delegatio.Installer.Applications.{get_store_user_data}
use delegatio.Installer.Users.{Encodes}
use delegatio.Installer.Users.All.{put_users_lem}
use delegatio.Installer.Saved.{saved_users_moved}
use delegatio.Installer.Wiring.{credentials_arrive}
use delegatio.Examples.Kube.{Kube, server, server_laws, binding_laws, fresh_kube}
use delegatio.Examples.Stores.{small, small-IsReady, one}

abbrev pub bea : UserInformation
bea = record zero_user { username = "bea"; uuid = "u"; pub_key = "PUB" }

-- The user comes back from any bytes.
abbrev bea_json : Codec UserInformation
bea_json = record { marshal = λ u. ok one; unmarshal = λ d target. ok bea }

abbrev go_json : Codec ContainerInformation
go_json = record { marshal = λ c. ok one; unmarshal = λ d target. ok zero_container }

abbrev null_json : Codec Unit
null_json = record { marshal = λ u. ok one; unmarshal = λ d target. ok tt }

abbrev pub encodings : Encodings
encodings = record { users = bea_json; challenges = go_json; null = null_json }

abbrev bea_encodes : Encodes bea_json
bea_encodes = record {
  bytes_of = λ u. one;
  marshals = λ u. refl;
  IsEncodable = λ u. bea ≡ u;
  reads = λ u target same. ap ok same;
}

abbrev null_encodes : Encodes null_json
null_encodes = record {
  bytes_of = λ u. one;
  marshals = λ u. refl;
  IsEncodable = λ u. Unit;
  reads = λ u target same. refl;
}

abbrev pub around : Surroundings Kube StdStore
around = record {
  join_host_port = λ host port. host <> port;
  text_of = λ bytes. "text";
  api_host = ok "api";
  new_etcd_store = λ endpoint. ok small;
  install_chart = λ host k. returns (ok tt) k;
  read_server_key = ok one;
  number_of_workers = 2;
}

abbrev pub blank : Installer Kube StdStore
blank = record { cluster = fresh_kube; shared_store = none; ssh_data = [] }

abbrev pub course : UserConfiguration
course = record {
  uuid_to_user = ("u", bea) ∷ [];
  pub_key_to_user = ("PUB", bea) ∷ [];
  containers = ("go", zero_container) ∷ [];
}

one_user : {A : Type 0} (k : String) (x : A) → IsDistinct ((k, x) ∷ [])
unfolding GoMap.insert
one_user k x = insert-IsDistinct k x IsDistinct-empty

only_bea :
    (key k : String) (x : UserInformation) → GoMap.lookup k ((key, bea) ∷ []) ≡ some x → bea ≡ x
unfolding GoMap.lookup
only_bea key k x found = elim (Bool-cases (key == k)) [
  | inl e ↦ let read : some bea ≡ some x = sym (rw e refl) ∙ found in cc
  | inr e ↦ let missing : none ≡ some x = sym (rw e refl) ∙ found in cc
]

put_users_lem_example :
    (s' : StdStore) × (put_users server std_ops around encodings course
        (record blank { shared_store = some small })
      ≡ returns (ok tt) (record blank { shared_store = some s' }))
    × std_laws.IsReady s'
    × ((uuid : String) (x : UserInformation)
        → GoMap.lookup uuid course.uuid_to_user ≡ some x
        → get_public_key_uuid std_ops encodings.users uuid zero_user s' ≡ returns (ok x) s')
    × ((key : String) (x : UserInformation)
        → GoMap.lookup key course.pub_key_to_user ≡ some x
        → get_public_key_data std_ops encodings.users key zero_user s' ≡ returns (ok x) s')
    × ((name : String)
        → is_some (GoMap.lookup name course.containers) ≡ true
        → is_some (std_laws.view s' (challenge_location_prefix <> name)) ≡ true)
    × ((key : String)
        → GoMap.lookup key course.pub_key_to_user ≡ none
        → std_laws.view s' (public_key_prefix <> key)
          ≡ std_laws.view small (public_key_prefix <> key))
put_users_lem_example =
    put_users_lem server std_ops std_laws around encodings bea_encodes null_encodes course blank
      small (one_user "u" bea) (one_user "PUB" bea) (one_user "go" zero_container) (only_bea "u")
      (only_bea "PUB") small-IsReady

-- A store that holds the public key of a user.
abbrev keyed : StdStore
keyed = record small { maps = λ _. GoMap.insert "publickey-PUB" one [] }

abbrev connected : Installer Kube StdStore
connected = record blank { shared_store = some keyed }

abbrev saved : UserConfiguration
saved = record { uuid_to_user = ("PUB", bea) ∷ []; pub_key_to_user = []; containers = [] }

saved_run :
    get_store_user_data server std_ops around encodings connected ≡ returns (ok saved) connected
unfolding get_store_user_data on_store get_all_challenges get_all_public_keys get_challenge_data
    get_public_key_data collect get iterator get_next has_next has_prefix trim_prefix GoMap.keys
    GoMap.insert GoMap.lookup
saved_run = refl

keyed-IsReady : IsReady keyed
keyed-IsReady = record {
  mut_free = refl;
  txmut_free = refl;
  allocated = omega arith;
  distinct = insert-IsDistinct "publickey-PUB" one IsDistinct-empty;
}

saved_users_moved_example :
    (s' : StdStore) × (put_users server std_ops around encodings saved
        (record blank { shared_store = some small })
      ≡ returns (ok tt) (record blank { shared_store = some s' }))
    × ((key : String) (x : UserInformation)
        → decoded encodings.users zero_user (std_laws.view keyed (public_key_prefix <> key))
          ≡ some x
        → get_public_key_uuid std_ops encodings.users key zero_user s' ≡ returns (ok x) s')
    × ((key : String)
        → std_laws.view s' (public_key_prefix <> key)
          ≡ std_laws.view small (public_key_prefix <> key))
    × ((key : String)
        → std_laws.view small (public_key_prefix <> key) ≡ none
        → (x : AuthError) × (public_key_callback std_ops encodings.users key s'
            ≡ returns (err x) s'))
saved_users_moved_example =
    saved_users_moved server std_ops around encodings std_laws bea_encodes null_encodes saved blank
      connected blank keyed small keyed-IsReady (λ t d there. (zero_container, refl))
      (λ t d there. (bea, refl)) saved_run (one_user "PUB" bea) IsDistinct-empty (only_bea "PUB")
      small-IsReady

abbrev creds : EtcdCredentials
creds = record { peer_cert_data = one; key_data = one; ca_cert_data = one }

credentials_arrive_example :
    (data' : GoMap String) × (k' : Kube) × (m : GoMap String) × (connect_to_etcd server std_ops
        around encodings
        (some creds)
        (record blank { cluster = fresh_kube })
      ≡ returns
          (ok tt)
          (record { cluster = fresh_kube; shared_store = some small; ssh_data = data' }))
    × (create_config_map_and_put_data server std_ops around encodings "ssh" "etcd-credentials" data'
          (record { cluster = fresh_kube; shared_store = some small; ssh_data = data' })
        ≡ returns (ok tt) (record { cluster = k'; shared_store = some small; ssh_data = data' }))
    × (get_config_map_data server "ssh" "etcd-credentials" k' ≡ returns (ok m) k')
    × (etcd_endpoint around.join_host_port m
        ≡ endpoint_of server std_ops around encodings "api" creds)
credentials_arrive_example =
    credentials_arrive server std_ops around encodings server_laws creds "api" "ssh"
      "etcd-credentials" small blank fresh_kube refl refl refl

-- Agents that answer, but that cannot read a file.
abbrev agents : AgentClient Unit
agents = record {
  join_host_port = λ host port. host <> port;
  dial = λ address w. returns (ok tt) w;
  write_file = λ address request w. returns (ok tt) w;
  read_file = λ address request w. returns (err (call_failed 13)) w;
  exec_return_stream = λ address request w. returns (ok []) w;
}

abbrev pub tools : Tools Unit
tools = record {
  create_file = λ name w. returns (ok tt) w;
  write_bytes = λ bytes w. returns (ok tt) w;
  close_file = λ w. returns (ok tt) w;
  build_config = λ file w. returns (ok tt) w;
  new_bootstrap_token = λ w. returns (ok "token") w;
  create_token = λ token w. returns (ok tt) w;
  pem_decode = λ bytes. some bytes;
  parse_certificate = λ bytes. ok bytes;
  parse_private_key = λ bytes. ok bytes;
  pin_hash = λ bytes. "hash";
  generate_key = λ w. returns (ok one) w;
  encode_key = λ key. key;
  create_certificate = λ parent key signer w. returns (ok one) w;
  encode_certificate = λ cert. cert;
}

abbrev bound : Kube
bound = record fresh_kube { binding = some (("ssh", "development-ssh") ∷ []) }

binding-create_example :
    (k' : Kube) × (create_cluster_role_binding server "grader" "development-grader" bound
      ≡ returns (ok tt) k')
    × (binding_laws.binding k'
        ≡ some (subjects_of (binding_laws.binding bound) ++ ("grader", "development-grader") ∷ []))
binding-create_example = binding-create server binding_laws "grader" "development-grader" bound
