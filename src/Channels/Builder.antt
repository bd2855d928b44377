-- ===== src/Channels/Builder.antt =====
-- ssh/connection/channels/builder.go and the loop of channel.go. A channel, a request queue, a logger
-- and an API that only have to be there are numbered handles.
use delegatio.Common.{
  ℕ, String, List, [], ◌∷◌, ◌++◌, Option, none, some, is_some, not, ◌&&◌, ◌==◌, if◌then◌else◌,
}
use delegatio.Common.GoMap
use delegatio.Common.GoMap.{GoMap}
use delegatio.Common.Outcome.{Result, ok, err, blocks, Method, pure, ◌>>◌}
use delegatio.Channels.TerminalSize.{new_terminal_size_handler}
use delegatio.Channels.Data.{
  ForwardTcpChannelOpen, Request, CallbackData, Callback, StartupCallback,
}

pub data BuildError : Type 0 where
  channel_is_nil requests_is_nil logger_is_nil k8s_api_user_is_nil direct_tcpip_data_is_nil :
      BuildError

pub record Builder : Type 0 where
  pub channel_type : String
  pub channel : Option ℕ
  pub requests : Option ℕ
  pub logger : Option ℕ
  pub direct_tcpip_data : Option ForwardTcpChannelOpen
  pub k8s_api_user : Option ℕ
  pub on_startup : List StartupCallback
  pub on_request : List Callback
  pub on_req_shell : List Callback
  pub on_req_pty : List Callback
  pub on_req_win_ch : List Callback
  pub on_req_sub_sys : List Callback
  pub on_req_default : List Callback

pub record Handler : Type 0 where
  pub requests : ℕ
  pub req_data : CallbackData
  pub func_map : GoMap (List Callback)
  pub on_every_req_callback : List Callback
  pub on_default_callback : List Callback
  pub on_startup_callback : List StartupCallback

unfoldable pub new_builder : Builder
new_builder = record {
  channel_type = "";
  channel = none;
  requests = none;
  logger = none;
  direct_tcpip_data = none;
  k8s_api_user = none;
  on_startup = [];
  on_request = [];
  on_req_shell = [];
  on_req_pty = [];
  on_req_win_ch = [];
  on_req_sub_sys = [];
  on_req_default = [];
}

abbrev pub with_channel_type : String → Builder → Builder
with_channel_type x b = record b { channel_type = x }

abbrev pub set_channel : ℕ → Builder → Builder
set_channel x b = record b { channel = some x }

abbrev pub set_requests : ℕ → Builder → Builder
set_requests x b = record b { requests = some x }

abbrev pub set_log : ℕ → Builder → Builder
set_log x b = record b { logger = some x }

abbrev pub set_k8s_user_api : ℕ → Builder → Builder
set_k8s_user_api x b = record b { k8s_api_user = some x }

abbrev pub set_direct_tcpip_data : Option ForwardTcpChannelOpen → Builder → Builder
set_direct_tcpip_data x b = record b { direct_tcpip_data = x }

abbrev pub set_on_startup : StartupCallback → Builder → Builder
set_on_startup x b = record b { on_startup = b.on_startup ++ x ∷ [] }

abbrev pub set_on_request : Callback → Builder → Builder
set_on_request x b = record b { on_request = b.on_request ++ x ∷ [] }

abbrev pub set_on_req_shell : Callback → Builder → Builder
set_on_req_shell x b = record b { on_req_shell = b.on_req_shell ++ x ∷ [] }

abbrev pub set_on_req_pty : Callback → Builder → Builder
set_on_req_pty x b = record b { on_req_pty = b.on_req_pty ++ x ∷ [] }

abbrev pub set_on_req_win_ch : Callback → Builder → Builder
set_on_req_win_ch x b = record b { on_req_win_ch = b.on_req_win_ch ++ x ∷ [] }

abbrev pub set_on_req_sub_sys : Callback → Builder → Builder
set_on_req_sub_sys x b = record b { on_req_sub_sys = b.on_req_sub_sys ++ x ∷ [] }

abbrev pub set_on_req_default : Callback → Builder → Builder
set_on_req_default x b = record b { on_req_default = b.on_req_default ++ x ∷ [] }

unfoldable pub built : Builder → ℕ → Handler
unfolding new_terminal_size_handler
built b reqs = record {
  requests = reqs;
  req_data = record {
    wg = 0;
    pty_req_data = none;
    direct_tcpip_data = b.direct_tcpip_data;
    terminal_resizer = new_terminal_size_handler 10;
    replies = [];
    started = [];
  };
  func_map =
      ("shell", b.on_req_shell)
      ∷ ("pty-req", b.on_req_pty)
      ∷ ("window-change", b.on_req_win_ch)
      ∷ ("subsystem", b.on_req_sub_sys)
      ∷ [];
  on_every_req_callback = b.on_request;
  on_default_callback = b.on_req_default;
  on_startup_callback = b.on_startup;
}

unfoldable pub build : Builder → Result BuildError Handler
unfolding built
build b = if not (is_some b.channel) then err channel_is_nil else elim b.requests [
  | none ↦ err requests_is_nil
  | some reqs ↦
      if not (is_some b.logger)
      then err logger_is_nil
      else if not (is_some b.k8s_api_user)
      then err k8s_api_user_is_nil
      else if b.channel_type == "direct-tcpip" && not (is_some b.direct_tcpip_data)
      then err direct_tcpip_data_is_nil
      else ok (built b reqs)
]

-- What the select of Serve receives.
pub data Event : Type 0 where
  request : Request → Event
  requests_closed context_done : Event

unfoldable pub run_callbacks : List Callback → Request → Method CallbackData Unit
run_callbacks [] req = pure tt
run_callbacks (callback ∷ callbacks) req = do callback req; run_callbacks callbacks req

run_startup : List StartupCallback → Method CallbackData Unit
run_startup [] = pure tt
run_startup (callback ∷ callbacks) = do callback; run_startup callbacks

-- The callbacks of the request's type, or the default ones, and then those of every request.
unfoldable pub dispatch : Handler → Request → Method CallbackData Unit
unfolding run_callbacks
dispatch h req = do
  run_callbacks
      (elim (GoMap.lookup req.req_type h.func_map) [
        | some callbacks ↦ callbacks
        | none ↦ h.on_default_callback
      ])
      req
  run_callbacks h.on_every_req_callback req

-- With no further event the loop waits.
unfoldable pub serve_loop : Handler → List Event → Method CallbackData Unit
serve_loop h [] = λ _. blocks
serve_loop h (context_done ∷ events) = pure tt
serve_loop h (requests_closed ∷ events) = pure tt
serve_loop h (request req ∷ events) = do dispatch h req; serve_loop h events

unfoldable pub serve : Handler → List Event → Method CallbackData Unit
unfolding run_startup
serve h events = do run_startup h.on_startup_callback; serve_loop h events
