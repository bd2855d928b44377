-- ===== src/Channels/Data.antt =====
-- ssh/connection/payload/payload.go, the requests of a channel, and callbackData of callback.go.
use delegatio.Common.{ℕ, String, Bool, List, Option}
use delegatio.Common.Outcome.{Method}
use delegatio.Store.{Bytes}
use delegatio.Channels.TerminalSize.{TerminalSizeHandler}

pub record PtyRequest : Type 0 where
  pub term : String
  pub width_columns : ℕ
  pub height_rows : ℕ
  pub width_pixels : ℕ
  pub height_pixels : ℕ
  pub mode_list : Bytes

pub record WindowChangeRequest : Type 0 where
  pub width_columns : ℕ
  pub height_rows : ℕ
  pub width_pixels : ℕ
  pub height_pixels : ℕ

pub record SubsystemRequest : Type 0 where
  pub subsystem : String

pub record ForwardTcpChannelOpen : Type 0 where
  pub host_to_connect : String
  pub port_to_connect : ℕ
  pub originator_address : String
  pub originator_port : ℕ

-- ssh.Unmarshal at the payloads, which is not under the repository; `none` is an error.
pub record Wire : Type 0 where
  pub pty_request : Bytes → Option PtyRequest
  pub window_change_request : Bytes → Option WindowChangeRequest
  pub subsystem_request : Bytes → Option SubsystemRequest

-- ssh.Request
pub record Request : Type 0 where
  pub req_type : String
  pub payload : Bytes

-- The goroutines that callbacks start.
pub data Task : Type 0 where
  shell_task : Task
  subsystem_task : String → Task
  port_forward_task : Task

-- What callbacks change: callbackData, the calls of req.Reply and the goroutines, oldest first.
pub record CallbackData : Type 0 where
  pub wg : ℕ
  pub pty_req_data : Option PtyRequest
  pub direct_tcpip_data : Option ForwardTcpChannelOpen
  pub terminal_resizer : TerminalSizeHandler
  pub replies : List Bool
  pub started : List Task

abbrev pub Callback : Type 0
Callback = Request → Method CallbackData Unit

abbrev pub StartupCallback : Type 0
StartupCallback = Method CallbackData Unit
