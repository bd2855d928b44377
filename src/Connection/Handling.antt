-- ===== src/Connection/Handling.antt =====
-- What a connection's handler does for its user and with its channels.
use delegatio.Common.{
  ℕ, String, true, false, [], ◌∷◌, Option, none, some, ◌≡◌, ◌≢◌, refl, ◌==◌, arith,
}
use delegatio.Common.GoMap
use delegatio.Common.Outcome.{ok}
use delegatio.Config.{user_namespace}
use delegatio.Store.{Bytes}
use delegatio.Channels.Data.{Wire, ForwardTcpChannelOpen}
use delegatio.Channels.Builder
use delegatio.Channels.Session.{
  new_session, new_direct_tcpip, session_builder_skeleton, direct_tcpip_builder_skeleton,
}
use delegatio.Ssh.Auth.{Permissions, pk_permissions, pw_permissions}
use delegatio.Connection.{
  Builder, build, ConnHandler, Act, create_and_wait, write_file, handle_channels, close_connection,
  write_file_to_container, handle_global_connection, NewChannel, rejected, accepted_only,
  unknown_channel_type, connection_failed, handle_channel, handle_channel_type_session,
  handle_channel_type_direct_tcpip,
}

-- The builder of a connection whose permissions are those of a login.
abbrev pub logged_in : String → Permissions → Builder
logged_in user permissions = record {
  global_requests = some 0;
  channel = some 1;
  connection = some (record { user = user; permissions = some (some permissions.extensions) });
  log = some 2;
  k8s_helper = some 3;
}

-- The resources that a user's handler waits for.
abbrev pub ressources : String → String → Act
ressources uuid node = create_and_wait (record {
  namespace = user_namespace;
  user_identifier = uuid;
  container_identifier = "";
  node_name = node;
  storage_class = "";
})

-- The file with a user's private key.
abbrev pub key_file : String → String → Act
key_file priv_key uuid = write_file (record {
  namespace = user_namespace;
  user_identifier = uuid;
  file_name = "delegatio_priv_key";
  file_path = "/root/.ssh";
  file_data = priv_key;
})

-- Build makes a handler from the permissions of a login. That of a password login waits for the
-- user's resources, puts the private key of the login into the user's container, and only then
-- handles channels; that of a public-key login writes no file; and without the resources either
-- closes the connection with neither.
pub login_handled :
    (user priv_key uuid node : String)
    → (c k : ConnHandler) × (build (logged_in user (pw_permissions priv_key uuid)) ≡ ok c)
      × (build (logged_in user (pk_permissions uuid)) ≡ ok k)
      × (handle_global_connection c node true
          ≡ ressources uuid node ∷ key_file priv_key uuid ∷ handle_channels ∷ close_connection ∷ [])
      × (handle_global_connection k node true
          ≡ ressources uuid node ∷ handle_channels ∷ close_connection ∷ [])
      × (handle_global_connection c node false ≡ ressources uuid node ∷ close_connection ∷ [])
      × (handle_global_connection k node false ≡ ressources uuid node ∷ close_connection ∷ [])
unfolding build handle_global_connection write_file_to_container GoMap.lookup
login_handled user priv_key uuid node = (
  record {
    extensions = (pw_permissions priv_key uuid).extensions;
    max_keep_alive_retries = 3;
    user_information = record {
      namespace = user_namespace;
      user_identifier = uuid;
      container_identifier = user;
      node_name = "";
      storage_class = "";
    };
  },
  record {
    extensions = (pk_permissions uuid).extensions;
    max_keep_alive_retries = 3;
    user_information = record {
      namespace = user_namespace;
      user_identifier = uuid;
      container_identifier = user;
      node_name = "";
      storage_class = "";
    };
  },
  refl,
  refl,
  refl,
  refl,
  refl,
  refl,
)

module _ (wire : Wire) (tcpip_open : Bytes → Option ForwardTcpChannelOpen) (log api : ℕ)
    (ch : NewChannel) where
  -- No accepted channel is left without a handler. A channel is rejected when its type is neither
  -- session nor direct-tcpip or when it is direct-tcpip and its data does not decode, and only then.
  pub channel_handled :
      (handle_channel wire tcpip_open log api ch ≢ accepted_only)
      × (handle_channel wire tcpip_open log api ch ≡ rejected unknown_channel_type
          → ((ch.channel_type == "session") ≡ false)
            × ((ch.channel_type == "direct-tcpip") ≡ false))
      × (handle_channel wire tcpip_open log api ch ≡ rejected connection_failed
          → ((ch.channel_type == "session") ≡ false) × (tcpip_open ch.extra_data ≡ none))
  unfolding handle_channel handle_channel_type_session handle_channel_type_direct_tcpip new_session
      new_direct_tcpip session_builder_skeleton direct_tcpip_builder_skeleton Builder.build
  channel_handled =
      (λ e. ground arith, λ e. (ground arith, ground arith), λ e. (ground arith, ground arith))
