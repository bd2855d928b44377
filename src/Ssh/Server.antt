-- ===== src/Ssh/Server.antt =====
-- The accept loop of Server.Start and validateAndProcessConnection in ssh/server.go. The handshake of
-- the ssh library is a parameter: its result is nil or a connection.
pub mod Connections
use delegatio.Common.{
  ℕ, ◌+◌, ◌-◌, ◌≡◌, String, Bool, true, false, List, [], ◌∷◌, ◌++◌, Option, none, some,
  if◌then◌else◌,
}
use delegatio.Common.Outcome.{Result, ok, err}
use delegatio.Connection.{
  ServerConn, extensions_of, build, new_builder, set_logger, set_connection, set_global_requests,
  set_channel, set_k8s_helper, Act, handle_global_connection,
}

-- What one accepted connection comes to, but for the counters: nothing after a failed handshake, without
-- permissions or when Build refuses.
unfoldable pub validate_and_process_connection : Option ServerConn → String → Bool → List Act
unfolding new_builder
validate_and_process_connection none node ready = []
validate_and_process_connection (some ssh_conn) node ready = elim (extensions_of ssh_conn) [
  | none ↦ []
  | some extensions ↦
      elim (build (
        set_logger 3 (
          set_connection ssh_conn
            (set_global_requests 2 (set_channel 1 (set_k8s_helper 0 new_builder)))))) [
              | err e ↦ []
              | ok handler ↦ handle_global_connection handler node ready
            ]
]

-- Where the accept goroutine is: in Accept, or after it returned a connection, after handleConnWG.Add
-- or after the increment of currentConnections.
pub data AcceptPoint : Type 0 where
  in_accept returned added counted : AcceptPoint

-- `live` goroutines of connections are before their Done, and `leaving` ones between it and the
-- decrement; then the counters, and whether the listener is closed and Start has returned.
pub record ServerState : Type 0 where
  pub point : AcceptPoint
  pub live : ℕ
  pub leaving : ℕ
  pub handle_conn_wg : ℕ
  pub current_connections : ℕ
  pub listening : Bool
  pub stopped : Bool

-- The statements of the accept goroutine, of the goroutines of the connections and of the end of Start.
pub data ServerStep : ServerState → ServerState → Type 0 where
  accepts :
      (s : ServerState)
      → s.listening ≡ true
      → s.point ≡ in_accept
      → ServerStep s (record s { point = returned })
  adds :
      (s : ServerState)
      → s.point ≡ returned
      → ServerStep s (record s { point = added; handle_conn_wg = s.handle_conn_wg + 1 })
  counts :
      (s : ServerState)
      → s.point ≡ added
      → ServerStep s (record s { point = counted; current_connections = s.current_connections + 1 })
  starts :
      (s : ServerState)
      → s.point ≡ counted
      → ServerStep s (record s { point = in_accept; live = s.live + 1 })
  dones :
      (s : ServerState) (others : ℕ)
      → s.live ≡ others + 1
      → ServerStep s (record s {
        live = others;
        leaving = s.leaving + 1;
        handle_conn_wg = s.handle_conn_wg - 1;
      })
  leaves :
      (s : ServerState) (others : ℕ)
      → s.leaving ≡ others + 1
      → ServerStep s
          (record s { leaving = others; current_connections = s.current_connections - 1 })
  closes : (s : ServerState) → ServerStep s (record s { listening = false })
  stops :
      (s : ServerState)
      → s.listening ≡ false
      → s.handle_conn_wg ≡ 0
      → ServerStep s (record s { stopped = true })
