-- ===== src/Examples/Connections.antt =====
-- Runs of channels and connections.
use delegatio.Common.{
  ◌≡◌, ◌≢◌, refl, Bool, true, false, List, [], ◌∷◌, none, some, length, map, is_some, ◌<>◌, ◌==◌,
  arith, if◌then◌else◌,
}
use delegatio.Common.Outcome.{ok, err, returns}
use delegatio.Common.GoMap
use delegatio.Channels.TerminalSize.{TerminalSize, TerminalSizeHandler}
use delegatio.Channels.TerminalSize.Queue.{
  Call, fills, takes, closes, start, run, IsFifo, run-start-IsFifo,
}
use delegatio.Channels.Data.{Wire, Request, CallbackData, ForwardTcpChannelOpen, port_forward_task}
use delegatio.Channels.Builder.{Handler, serve, direct_tcpip_data_is_nil}
use delegatio.Channels.Session.{new_session, new_direct_tcpip}
use delegatio.Channels.Session.Serving.{
  arriving, all_answers, all_tasks, tcpip_answers, session_served, tcpip_served,
}
use delegatio.Ssh.Auth.{pk_permissions, pw_permissions}
use delegatio.Connection.{
  ConnHandler, build, keep_alive, tick, cancelled, handle_global_connection, handle_channels,
  close_connection, NewChannel,
}
use delegatio.Agent.Client.{ExecError, errno, receiver_error}
use delegatio.Channels.Tasks.{
  PodClient, TaskAct, asked_service, asked_pod, executed, wrote_reason, of_exec, ExecRun,
  execute_command_in_pod, ending, handle_shell, handle_subsystem,
}
use delegatio.Channels.Tasks.Pods.{HasPod, RunsTo, shell_runs, sftp_asks_wrong_service}
use delegatio.Connection.KeepAlive.{has_failures, keep_alive_lem}
use delegatio.Connection.Drain
use delegatio.Connection.Drain.{ChannelsState, Step, Steps, returned_drained}
use delegatio.Connection.Handling.{logged_in, ressources, key_file, login_handled}

abbrev size : TerminalSize
size = record { width = 80; height = 24 }

abbrev full_handler : TerminalSizeHandler
full_handler = record { queue = size ∷ []; closed = false; capacity = 1 }

abbrev calls : List Call
calls = fills size ∷ fills size ∷ takes ∷ closes ∷ fills size ∷ takes ∷ []

-- Every payload is read as the same value.
abbrev wire : Wire
wire = record {
  pty_request = λ payload. none;
  window_change_request = λ payload.
      some (record { width_columns = 80; height_rows = 24; width_pixels = 0; height_pixels = 0 });
  subsystem_request = λ payload. some (record { subsystem = "sftp" });
}

abbrev requests : List Request
requests =
    record { req_type = "pty-req"; payload = [] }
    ∷ record { req_type = "shell"; payload = [] }
    ∷ record { req_type = "subsystem"; payload = [] }
    ∷ record { req_type = "x11-req"; payload = [] }
    ∷ []

abbrev forward : ForwardTcpChannelOpen
forward = record {
  host_to_connect = "h";
  port_to_connect = 80;
  originator_address = "o";
  originator_port = 1;
}

abbrev ticks : List Bool
ticks = true ∷ true ∷ false ∷ true ∷ true ∷ true ∷ true ∷ []

abbrev forward_channel : NewChannel
forward_channel = record { channel_type = "direct-tcpip"; extra_data = []; accept = some (1, 2) }

-- The handler of a connection by public key.
abbrev ann_handler : ConnHandler
ann_handler = record {
  extensions = (pk_permissions "ann").extensions;
  max_keep_alive_retries = 3;
  user_information = record {
    namespace = "users";
    user_identifier = "ann";
    container_identifier = "go";
    node_name = "";
    storage_class = "";
  };
}

-- One channel arrives and is handled, and then the loop ends.
abbrev after_one : ChannelsState
after_one = record {
  wg = 0;
  running = [];
  arrived = 1;
  handled = 1;
  accepting = false;
  returned = true;
}

one_channel : Steps Drain.start after_one
one_channel =
    Steps.then
      (Steps.then
        (Steps.then
          (Steps.then (Steps.here Drain.start) (Step.receives Drain.start forward_channel refl))
          (Step.done
            (record {
              wg = 1;
              running = forward_channel ∷ [];
              arrived = 1;
              handled = 0;
              accepting = true;
              returned = false;
            })
            [] forward_channel [] refl))
        (Step.leaves_loop
          (record {
            wg = 0;
            running = [];
            arrived = 1;
            handled = 1;
            accepting = true;
            returned = false;
          })
          refl))
      (Step.waits
        (record {
          wg = 0;
          running = [];
          arrived = 1;
          handled = 1;
          accepting = false;
          returned = false;
        })
        refl refl)

run-start-IsFifo_example : IsFifo (run (start 1) calls)
run-start-IsFifo_example = run-start-IsFifo 1 calls

session_served_example :
    (h : Handler) × (new_session wire 0 1 2 3 ≡ ok h)
    × (rd' : CallbackData) × (serve h (arriving requests) h.req_data ≡ returns tt rd')
    × (rd'.replies ≡ all_answers wire requests)
    × (rd'.started ≡ all_tasks wire requests)
    × (rd'.wg ≡ length (all_tasks wire requests))
session_served_example = session_served wire 0 1 2 3 requests

tcpip_served_example :
    (new_direct_tcpip 0 1 2 3 none ≡ err direct_tcpip_data_is_nil)
    × (h : Handler) × (new_direct_tcpip 0 1 2 3 (some forward) ≡ ok h)
    × (rd' : CallbackData) × (serve h (arriving requests) h.req_data ≡ returns tt rd')
    × (rd'.replies ≡ tcpip_answers requests)
    × (rd'.started ≡ port_forward_task ∷ [])
    × (rd'.wg ≡ 1)
tcpip_served_example = tcpip_served 0 1 2 3 forward requests

keep_alive_lem_example :
    keep_alive ann_handler (map tick ticks)
    ≡ (if has_failures 4 ticks then some cancelled else none)
unfolding build GoMap.lookup
keep_alive_lem_example =
    keep_alive_lem (logged_in "go" (pk_permissions "ann")) ann_handler ticks refl

returned_drained_example : (length after_one.running ≡ 0) × (after_one.arrived ≡ after_one.handled)
returned_drained_example = returned_drained after_one one_channel refl

login_handled_example :
    (c k : ConnHandler) × (build (logged_in "go" (pw_permissions "PRIV" "ann")) ≡ ok c)
    × (build (logged_in "go" (pk_permissions "ann")) ≡ ok k)
    × (handle_global_connection c "n1" true
        ≡ ressources "ann" "n1" ∷ key_file "PRIV" "ann" ∷ handle_channels ∷ close_connection ∷ [])
    × (handle_global_connection k "n1" true
        ≡ ressources "ann" "n1" ∷ handle_channels ∷ close_connection ∷ [])
    × (handle_global_connection c "n1" false ≡ ressources "ann" "n1" ∷ close_connection ∷ [])
    × (handle_global_connection k "n1" false ≡ ressources "ann" "n1" ∷ close_connection ∷ [])
login_handled_example = login_handled "go" "PRIV" "ann" "n1"

-- Bash ends with 0, after the goroutine of the sizes.
abbrev shell_run : ExecRun
shell_run = record {
  dialled = true;
  opened = true;
  first_send = ok tt;
  ends = none ∷ receiver_error (errno 0) ∷ [];
}

abbrev pods : PodClient
pods = record {
  get_service = λ namespace name. if name == "ann-service" then ok tt else err 1;
  get_pod = λ namespace name. ok "10.0.0.1";
  exec_at = λ ip conf. shell_run;
  create_pod_port_forward = λ conf. ok tt;
}

ann-HasPod : HasPod pods "users" "ann" "10.0.0.1"
ann-HasPod = record { service_there = refl; pod_there = refl }

shell_run-RunsTo : RunsTo shell_run 0
shell_run-RunsTo = record {
  dialled = refl;
  opened = refl;
  sent = refl;
  before = none ∷ [];
  after = [];
  ends = refl;
}

abbrev with_pty : CallbackData
with_pty = record {
  wg = 1;
  pty_req_data = some (record {
    term = "xterm";
    width_columns = 80;
    height_rows = 24;
    width_pixels = 0;
    height_pixels = 0;
    mode_list = [];
  });
  direct_tcpip_data = none;
  terminal_resizer = full_handler;
  replies = [];
  started = [];
}

shell_runs_example :
    (rd' : CallbackData) × (e : ExecError) × (handle_shell pods "users" "ann" with_pty
      ≡ returns
          (asked_service "users" ("ann" <> "-service")
            ∷ asked_pod "users" ("ann" <> "-statefulset-0")
            ∷ executed "10.0.0.1" (record {
              namespace = "users";
              user_identifier = "ann";
              command = "bash";
              tty = is_some with_pty.pty_req_data;
            })
            ∷ wrote_reason (of_exec e)
            ∷ ending)
          rd')
shell_runs_example =
    shell_runs pods "users" "ann" "10.0.0.1" 0 with_pty ann-HasPod shell_run-RunsTo
      (record { fits = omega arith })

sftp_asks_wrong_service_example :
    (acts acts' : List TaskAct) × (handle_subsystem pods "users" "ann" "sftp"
      ≡ asked_service "users" (("ann" <> "-statefulset-0") <> "-service") ∷ acts)
    × ((execute_command_in_pod pods
          (record { namespace = "users"; user_identifier = "ann"; command = "bash"; tty = true })).0
        ≡ asked_service "users" ("ann" <> "-service") ∷ acts')
    × ((("ann" <> "-statefulset-0") <> "-service") ≢ ("ann" <> "-service"))
sftp_asks_wrong_service_example = sftp_asks_wrong_service pods "users" "ann" true
