-- ===== src/Channels/Tasks.antt =====
-- ssh/connection/channels/callback.go and the parts of ssh/kubernetes/api.go that it calls: the
-- goroutines of a channel. The cluster and the agent in the pod are the parameter `PodClient`.
pub mod Pods
use delegatio.Common.{
  ℕ, String, Bool, true, false, List, [], ◌∷◌, ◌++◌, Option, none, some, ◌<>◌, ◌==◌, is_some,
  if◌then◌else◌,
}
use delegatio.Common.GoMap
use delegatio.Common.GoMap.{GoMap}
use delegatio.Common.Outcome.{
  Result, ok, err, Outcome, returns, blocks, panics, Method, pure, gets, ◌>>=◌, ◌>>◌,
}
use delegatio.Agent.Client.{ExecError, exec_answer}
use delegatio.Channels.Data.{CallbackData, PtyRequest, ForwardTcpChannelOpen}
use delegatio.Channels.Session.{u16, fill_resizer}

-- config.KubeExecConfig and config.KubeForwardConfig, without the channel and the queue of sizes,
-- which are those of the callback's data.
pub record KubeExecConfig : Type 0 where
  pub namespace : String
  pub user_identifier : String
  pub command : String
  pub tty : Bool

pub record KubeForwardConfig : Type 0 where
  pub namespace : String
  pub pod_name : String
  pub port : ℕ

-- What an execution at an agent meets: whether the dial and the stream come about, the Send of the
-- command, and how the goroutines end, in the order in which they do.
pub record ExecRun : Type 0 where
  pub dialled : Bool
  pub opened : Bool
  pub first_send : Result ℕ Unit
  pub ends : List (Option ExecError)

-- What the cluster answers: a service or a pod's address by namespace and name, what an execution at an
-- address meets, and how a forwarding ends.
pub record PodClient : Type 0 where
  pub get_service : String → String → Result ℕ Unit
  pub get_pod : String → String → Result ℕ String
  pub exec_at : String → KubeExecConfig → ExecRun
  pub create_pod_port_forward : KubeForwardConfig → Result ℕ Unit

pub data TaskError : Type 0 where
  of_cluster : ℕ → TaskError
  of_exec : ExecError → TaskError

-- What a goroutine does, oldest first: calls of the cluster, writes to the channel, and its end.
pub data TaskAct : Type 0 where
  asked_service asked_pod : String → String → TaskAct
  executed : String → KubeExecConfig → TaskAct
  forwarded : KubeForwardConfig → TaskAct
  wrote_reason : TaskError → TaskAct
  wrote_graceful closed_channel wait_group_done : TaskAct

-- The deferred close of the channel and wg.Done.
abbrev pub ending : List TaskAct
ending = closed_channel ∷ wait_group_done ∷ []

-- CreateExecInPodgRPC of the agent's client, whose answer is nil or an error.
abbrev pub exec_result : Option ExecError → Result TaskError Unit
exec_result none = ok tt
exec_result (some e) = err (of_exec e)

unfoldable pub create_exec : ExecRun → Result TaskError Unit
create_exec run = exec_result (exec_answer run.dialled run.opened run.first_send run.ends)

module _ (client : PodClient) where
  -- ExecuteCommandInPod: what it asks, and how it ends.
  unfoldable pub execute_command_in_pod : KubeExecConfig → List TaskAct × Result TaskError Unit
  unfolding create_exec
  execute_command_in_pod conf =
      let service = conf.user_identifier <> "-service" in
      let pod = conf.user_identifier <> "-statefulset-0" in
      elim (client.get_service conf.namespace service) [
        | err e ↦ (asked_service conf.namespace service ∷ [], err (of_cluster e))
        | ok _ ↦ elim (client.get_pod conf.namespace pod) [
          | err e ↦ (
            asked_service conf.namespace service ∷ asked_pod conf.namespace pod ∷ [],
            err (of_cluster e),
          )
          | ok ip ↦ (
            asked_service conf.namespace service
                ∷ asked_pod conf.namespace pod
                ∷ executed ip conf
                ∷ [],
            create_exec (client.exec_at ip conf),
          )
        ]
      ]

  module _ (namespace user : String) where
    shell_config : Bool → KubeExecConfig
    shell_config tty = record {
      namespace = namespace;
      user_identifier = user;
      command = "bash";
      tty = tty;
    }

    after_shell : Result TaskError Unit → List TaskAct
    after_shell (err e) = wrote_reason e ∷ ending
    after_shell (ok _) = wrote_graceful ∷ ending

    -- Fill with the size of the pty request, when there is one.
    first_size : Option PtyRequest → Method CallbackData Bool
    first_size none = pure false
    first_size (some pty) = do
      fill_resizer (record { width = u16 pty.width_columns; height = u16 pty.height_rows })
      pure true

    unfoldable pub handle_shell : Method CallbackData (List TaskAct)
    unfolding shell_config after_shell first_size execute_command_in_pod
    handle_shell = do
      pty ← gets (λ rd. rd.pty_req_data)
      tty ← first_size pty
      let ran = execute_command_in_pod (shell_config tty)
      pure (ran.0 ++ after_shell ran.1)

    abbrev sub_sys_map : GoMap String
    sub_sys_map = ("sftp", "/usr/lib/ssh/sftp-server") ∷ []

    after_subsystem : Result TaskError Unit → List TaskAct
    after_subsystem (err e) = wrote_reason e ∷ ending
    after_subsystem (ok _) = ending

    unfoldable pub handle_subsystem : String → List TaskAct
    unfolding after_subsystem execute_command_in_pod
    handle_subsystem cmd = elim (GoMap.lookup cmd sub_sys_map) [
      | none ↦ ending
      | some parsed_subsystem ↦
          let ran = execute_command_in_pod (record {
            namespace = namespace;
            user_identifier = user <> "-statefulset-0";
            command = parsed_subsystem;
            tty = false;
          }) in
          ran.0 ++ after_subsystem ran.1
    ]

    unfoldable pub handle_port_forward : ForwardTcpChannelOpen → List TaskAct
    handle_port_forward direct_tcpip_data =
        forwarded (record {
          namespace = namespace;
          pod_name = user <> "-statefulset-0";
          port = direct_tcpip_data.port_to_connect;
        })
        ∷ ending
