-- ===== src/Connection.antt =====
-- ssh/connection/connection.go and builder.go: one SSH connection after its handshake. A queue, a
-- logger and an API that only have to be there are numbered handles.
pub mod KeepAlive
pub mod Drain
pub mod Handling
use delegatio.Common.{
  ℕ, ◌+◌, String, Bool, true, false, List, [], ◌∷◌, ◌++◌, Option, none, some, is_some, not, ◌||◌,
  ltb, ◌==◌, if◌then◌else◌,
}
use delegatio.Common.GoMap
use delegatio.Common.GoMap.{GoMap}
use delegatio.Common.Outcome.{Result, ok, err, returns, blocks, Method, pure, modify, ◌>>=◌, ◌>>◌}
use delegatio.Config.{
  authenticated_user_id, authentication_type, authenticated_priv_key, user_namespace,
}
use delegatio.Store.{Bytes}
use delegatio.Channels.Data.{Wire, ForwardTcpChannelOpen}
use delegatio.Channels.Builder.{Handler}
use delegatio.Channels.Session.{new_session, new_direct_tcpip}

-- ssh.ServerConn: the permissions may be nil, and so may their extensions.
pub record ServerConn : Type 0 where
  pub user : String
  pub permissions : Option (Option (GoMap String))

pub data BuildError : Type 0 where
  field_is_nil permissions_malformed no_user_id no_k8s_helper no_logger : BuildError

pub record Builder : Type 0 where
  pub global_requests : Option ℕ
  pub channel : Option ℕ
  pub connection : Option ServerConn
  pub log : Option ℕ
  pub k8s_helper : Option ℕ

-- config.KubeRessourceIdentifier
pub record KubeRessourceIdentifier : Type 0 where
  pub namespace : String
  pub user_identifier : String
  pub container_identifier : String
  pub node_name : String
  pub storage_class : String

-- config.KubeFileWriteConfig
pub record KubeFileWriteConfig : Type 0 where
  pub namespace : String
  pub user_identifier : String
  pub file_name : String
  pub file_path : String
  -- A []byte made from a string.
  pub file_data : String

pub record ConnHandler : Type 0 where
  pub extensions : GoMap String
  pub max_keep_alive_retries : ℕ
  pub user_information : KubeRessourceIdentifier

-- `conn.Permissions.Extensions`, when both are there.
abbrev pub extensions_of : ServerConn → Option (GoMap String)
extensions_of conn = elim conn.permissions [ none ↦ none | some extensions ↦ extensions ]

unfoldable pub new_builder : Builder
new_builder = record {
  global_requests = none;
  channel = none;
  connection = none;
  log = none;
  k8s_helper = none;
}

abbrev pub set_k8s_helper : ℕ → Builder → Builder
set_k8s_helper x s = record s { k8s_helper = some x }

abbrev pub set_connection : ServerConn → Builder → Builder
set_connection x s = record s { connection = some x }

abbrev pub set_channel : ℕ → Builder → Builder
set_channel x s = record s { channel = some x }

abbrev pub set_global_requests : ℕ → Builder → Builder
set_global_requests x s = record s { global_requests = some x }

abbrev pub set_logger : ℕ → Builder → Builder
set_logger x s = record s { log = some x }

-- Build, whose checks are in this order.
unfoldable pub build : Builder → Result BuildError ConnHandler
build s = elim s.connection [
  | none ↦ err field_is_nil
  | some conn ↦
      if not (is_some s.channel) || not (is_some s.global_requests)
      then err field_is_nil
      else elim (extensions_of conn) [
        | none ↦ err permissions_malformed
        | some extensions ↦ elim (GoMap.lookup authenticated_user_id extensions) [
          | none ↦ err no_user_id
          | some user_id ↦
              if not (is_some s.k8s_helper)
              then err no_k8s_helper
              else if not (is_some s.log)
              then err no_logger
              else ok (record {
                extensions = extensions;
                max_keep_alive_retries = 3;
                user_information = record {
                  namespace = user_namespace;
                  user_identifier = user_id;
                  container_identifier = conn.user;
                  node_name = "";
                  storage_class = "";
                };
              })
        ]
      ]
]

-- `extensions[key]`: the empty string when it is missing.
abbrev pub extension : String → GoMap String → String
extension key extensions = elim (GoMap.lookup key extensions) [ none ↦ "" | some v ↦ v ]

-- What a handler asks of the API and of its client, oldest first.
pub data Act : Type 0 where
  create_and_wait : KubeRessourceIdentifier → Act
  write_file : KubeFileWriteConfig → Act
  handle_channels : Act
  close_connection : Act

-- writeFileToContainer
unfoldable pub write_file_to_container : GoMap String → List Act
write_file_to_container extensions =
    if extension authentication_type extensions == "pw"
    then write_file (record {
      namespace = user_namespace;
      user_identifier = extension authenticated_user_id extensions;
      file_name = "delegatio_priv_key";
      file_path = "/root/.ssh";
      file_data = extension authenticated_priv_key extensions;
    })
      ∷ []
    else []

-- HandleGlobalConnection on a node: `ready` is whether CreateAndWaitForRessources succeeds. The
-- deferred close comes last on every path.
unfoldable pub handle_global_connection : ConnHandler → String → Bool → List Act
unfolding write_file_to_container
handle_global_connection c node ready =
    create_and_wait (record {
      namespace = c.user_information.namespace;
      user_identifier = c.user_information.user_identifier;
      container_identifier = "";
      node_name = node;
      storage_class = "";
    })
      ∷ (if ready then write_file_to_container c.extensions ++ handle_channels ∷ [] else [])
    ++ close_connection ∷ []

-- What the select of keepAlive receives: the ticker, with whether SendRequest then fails, or the end
-- of the context.
pub data KeepAliveEvent : Type 0 where
  tick : Bool → KeepAliveEvent
  context_done : KeepAliveEvent

-- How the goroutine stops, if it does.
pub data KeepAliveEnd : Type 0 where
  cancelled stopped : KeepAliveEnd

-- With no further event the loop waits.
unfoldable pub keep_alive_loop : ℕ → ℕ → List KeepAliveEvent → Option KeepAliveEnd
keep_alive_loop max_retries retries [] = none
keep_alive_loop max_retries retries (context_done ∷ events) = some stopped
keep_alive_loop max_retries retries (tick true ∷ events) =
    let rest = keep_alive_loop max_retries (retries + 1) events in
    if ltb max_retries (retries + 1) then some cancelled else rest
keep_alive_loop max_retries retries (tick false ∷ events) =
    let rest = keep_alive_loop max_retries 0 events in
    if ltb max_retries 0 then some cancelled else rest

unfoldable pub keep_alive : ConnHandler → List KeepAliveEvent → Option KeepAliveEnd
keep_alive c events = keep_alive_loop c.max_keep_alive_retries 0 events

-- handleGlobalRequests: the replies to the requests (each with its WantReply) until the queue is
-- closed.
unfoldable pub handle_global_requests : List Bool → List Bool
handle_global_requests [] = []
handle_global_requests (want_reply ∷ requests) =
    (if want_reply then false ∷ [] else []) ++ handle_global_requests requests

-- ssh.NewChannel: its type, its data, and whether Accept succeeds and with which handles.
pub record NewChannel : Type 0 where
  pub channel_type : String
  pub extra_data : Bytes
  pub accept : Option (ℕ × ℕ)

pub data RejectionReason : Type 0 where
  unknown_channel_type connection_failed : RejectionReason

-- What becomes of a new channel.
pub data Handled : Type 0 where
  rejected : RejectionReason → Handled
  not_accepted accepted_only : Handled
  served : Handler → Handled

module _ (wire : Wire) (tcpip_open : Bytes → Option ForwardTcpChannelOpen) (log api : ℕ) where
  unfoldable pub handle_channel_type_session : NewChannel → Handled
  handle_channel_type_session new_channel = elim new_channel.accept [
    | none ↦ not_accepted
    | some pair ↦ elim (new_session wire log pair.0 pair.1 api) [
      | err e ↦ accepted_only
      | ok handler ↦ served handler
    ]
  ]

  unfoldable pub handle_channel_type_direct_tcpip : NewChannel → Handled
  handle_channel_type_direct_tcpip new_channel = elim (tcpip_open new_channel.extra_data) [
    | none ↦ rejected connection_failed
    | some tcpip_data ↦ elim new_channel.accept [
      | none ↦ not_accepted
      | some pair ↦ elim (new_direct_tcpip log pair.0 pair.1 api (some tcpip_data)) [
        | err e ↦ accepted_only
        | ok handler ↦ served handler
      ]
    ]
  ]

  unfoldable pub handle_channel : NewChannel → Handled
  handle_channel new_channel =
      if new_channel.channel_type == "session"
      then handle_channel_type_session new_channel
      else if new_channel.channel_type == "direct-tcpip"
      then handle_channel_type_direct_tcpip new_channel
      else rejected unknown_channel_type
