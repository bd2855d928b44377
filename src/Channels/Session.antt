-- ===== src/Channels/Session.antt =====
-- ssh/connection/channels/session.go and directtcpip.go: the callbacks of the two kinds of channel.
pub mod Replies
pub mod Serving
use delegatio.Common.{
  ℕ, ◌+◌, ◌%◌, ◌^◌, String, Bool, true, false, List, [], ◌∷◌, ◌++◌, Option, none, some,
}
use delegatio.Common.Outcome.{Result, returns, blocks, panics, Method, pure, modify, ◌>>=◌, ◌>>◌}
use delegatio.Channels.TerminalSize.{TerminalSize, fill}
use delegatio.Channels.Data.{
  PtyRequest, WindowChangeRequest, SubsystemRequest, Wire, Request, Task, shell_task,
  subsystem_task, port_forward_task, CallbackData, Callback, ForwardTcpChannelOpen,
}
use delegatio.Channels.Builder.{
  Builder, BuildError, Handler, new_builder, build, with_channel_type, set_channel, set_requests,
  set_log, set_k8s_user_api, set_direct_tcpip_data, set_on_startup, set_on_request,
  set_on_req_shell, set_on_req_pty, set_on_req_win_ch, set_on_req_sub_sys, set_on_req_default,
}

-- uint16(x)
abbrev pub u16 : ℕ → ℕ
u16 n = n % 2 ^ 16

-- req.Reply(answer, nil); its error is only logged.
reply : Bool → Method CallbackData Unit
reply answer = modify λ rd. record rd { replies = rd.replies ++ answer ∷ [] }

-- rd.wg.Add(1) and the go statement.
start : Task → Method CallbackData Unit
start task = modify λ rd. record rd { wg = rd.wg + 1; started = rd.started ++ task ∷ [] }

-- rd.terminalResizer.Fill; its error is only logged.
pub fill_resizer : TerminalSize → Method CallbackData Unit
fill_resizer size rd = elim (fill size rd.terminal_resizer) [
  | returns _ w ↦ returns tt (record rd { terminal_resizer = w })
  | blocks ↦ blocks
  | panics ↦ panics
]

-- A callback that only logs.
log_only : Callback
log_only req = pure tt

default_request : Callback
unfolding reply
default_request req = reply false

shell_request : Callback
unfolding start reply
shell_request req = do start shell_task; reply true

module _ (wire : Wire) where
  subsystem_request : Callback
  unfolding start reply
  subsystem_request req = elim (wire.subsystem_request req.payload) [
    | none ↦ pure tt
    | some sub_sys ↦ (do start (subsystem_task sub_sys.subsystem); reply true)
  ]

  window_change_request : Callback
  unfolding fill_resizer
  window_change_request req = elim (wire.window_change_request req.payload) [
    | none ↦ pure tt
    | some change ↦
        fill_resizer (record { width = u16 change.width_columns; height = u16 change.height_rows })
  ]

  pty_request : Callback
  unfolding reply
  pty_request req = elim (wire.pty_request req.payload) [
    | none ↦ pure tt
    | some pty_req ↦ (do modify (λ rd. record rd { pty_req_data = some pty_req }); reply true)
  ]

  unfoldable pub session_builder_skeleton : Builder
  unfolding new_builder log_only default_request shell_request subsystem_request
      window_change_request pty_request
  session_builder_skeleton = set_on_request log_only (
      set_on_req_pty pty_request (
        set_on_req_win_ch window_change_request (
          set_on_req_sub_sys subsystem_request (
            set_on_req_shell shell_request (
              set_on_req_default default_request
                (set_on_startup (pure tt) (with_channel_type "session" new_builder)))))))

unfoldable pub direct_tcpip_builder_skeleton : Builder
unfolding new_builder log_only default_request start
direct_tcpip_builder_skeleton = set_on_startup (start port_forward_task) (
    set_on_request log_only
      (set_on_req_default default_request (with_channel_type "direct-tcpip" new_builder)))

-- newSession of ssh/connection/builder.go, with the handles that it is given.
unfoldable pub new_session : Wire → ℕ → ℕ → ℕ → ℕ → Result BuildError Handler
unfolding session_builder_skeleton
new_session wire log channel requests api = build (
    set_k8s_user_api api
      (set_log log (set_channel channel (set_requests requests (session_builder_skeleton wire)))))

-- newDirectTCPIP of ssh/connection/builder.go.
unfoldable pub new_direct_tcpip :
    ℕ → ℕ → ℕ → ℕ → Option ForwardTcpChannelOpen → Result BuildError Handler
unfolding direct_tcpip_builder_skeleton
new_direct_tcpip log channel requests api data_open = build (
    set_direct_tcpip_data data_open (
      set_k8s_user_api api
        (set_log log (set_channel channel (set_requests requests direct_tcpip_builder_skeleton)))))
