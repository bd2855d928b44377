-- ===== src/Channels/Tasks/Pods.antt =====
-- The pods that the goroutines of a channel reach, and how they end.
use delegatio.Common.{
  ℕ, ◌≡◌, ◌≢◌, refl, sym, ap, ◌∙◌, String, Bool, true, false, List, ◌∷◌, ◌++◌, Option, none, some,
  ◌<>◌, is_some, Option-cases, inl, inr, append_differ, append_assoc_text, [],
}
use delegatio.Common.GoMap
use delegatio.Common.Outcome.{Result-cases, ok, err, returns, ◌>>=◌}
use delegatio.Agent.Client.{ExecError, errno, of_receiver, receiver_error, group_wait, exec_answer}
use delegatio.Channels.Data.{CallbackData}
use delegatio.Channels.TerminalSize.Queue.{IsBounded}
use delegatio.Channels.Session.{u16}
use delegatio.Channels.Session.Replies.{fill_resizer_lem}
use delegatio.Channels.Tasks.{
  KubeExecConfig, ExecRun, PodClient, TaskAct, asked_service, asked_pod, executed, wrote_reason,
  of_exec, ending, handle_shell, handle_subsystem, execute_command_in_pod, create_exec,
  shell_config, first_size, after_shell, after_subsystem,
}

-- The cluster has the service and the pod of the name.
pub record HasPod (client : PodClient) (namespace name ip : String) : Type 0 where
  pub service_there : client.get_service namespace (name <> "-service") ≡ ok tt
  pub pod_there : client.get_pod namespace (name <> "-statefulset-0") ≡ ok ip

-- The execution comes about, and the command's exit code reaches the client's receiver, before or after
-- its other goroutines end.
pub record RunsTo (run : ExecRun) (code : ℕ) : Type 0 where
  pub dialled : run.dialled ≡ true
  pub opened : run.opened ≡ true
  pub sent : run.first_send ≡ ok tt
  pub before : List (Option ExecError)
  pub after : List (Option ExecError)
  pub ends : run.ends ≡ before ++ receiver_error (errno code) ∷ after

group_wait_error :
    (code : ℕ) (before after : List (Option ExecError))
    → (e : ExecError) × (group_wait (before ++ receiver_error (errno code) ∷ after) ≡ some e)
unfolding group_wait
group_wait_error code [] after = (of_receiver (errno code), refl)
group_wait_error code (some e ∷ before) after = (e, refl)
group_wait_error code (none ∷ before) after = group_wait_error code before after

create_exec_fails :
    (run : ExecRun) (code : ℕ)
    → RunsTo run code
    → (e : ExecError) × (create_exec run ≡ err (of_exec e))
unfolding create_exec exec_answer
create_exec_fails run code h =
    let (e, waited) = group_wait_error code h.before h.after in
    (e, rw (h.dialled, h.opened, h.sent, h.ends, waited) refl)

module _ (client : PodClient) (namespace user : String) where
  abbrev bash : Bool → KubeExecConfig
  bash tty = record { namespace = namespace; user_identifier = user; command = "bash"; tty = tty }

  pub shell_runs :
      (ip : String) (code : ℕ) (rd : CallbackData)
      → HasPod client namespace user ip
      → RunsTo (client.exec_at ip (bash (is_some rd.pty_req_data))) code
      → IsBounded rd.terminal_resizer
      → (rd' : CallbackData) × (e : ExecError) × (handle_shell client namespace user rd
          ≡ returns
              (asked_service namespace (user <> "-service")
                ∷ asked_pod namespace (user <> "-statefulset-0")
                ∷ executed ip (bash (is_some rd.pty_req_data))
                ∷ wrote_reason (of_exec e)
                ∷ ending)
              rd')
  unfolding handle_shell first_size shell_config execute_command_in_pod after_shell
  shell_runs ip code rd h runs b = elim (Option-cases rd.pty_req_data) [
    | inl e ↦
        let (x, failed) = create_exec_fails (client.exec_at ip (bash false)) code (rw e at runs) in
        (rd, x, rw (e, execute_command_in_pod, h.service_there, h.pod_there, failed) refl)
    | inr (pty, e) ↦
        let (x, failed) = create_exec_fails (client.exec_at ip (bash true)) code (rw e at runs) in
        let (rd', filled, bounded, r, q, w) =
          fill_resizer_lem (record { width = u16 pty.width_columns; height = u16 pty.height_rows })
            rd b in
        (
          rd',
          x,
          simp e (
              rw (filled, ◌>>=◌, execute_command_in_pod, h.service_there, h.pod_there, failed)
                refl),
        )
  ]

  asks_service_first :
      (conf : KubeExecConfig)
      → (acts : List TaskAct) × ((execute_command_in_pod client conf).0
          ≡ asked_service conf.namespace (conf.user_identifier <> "-service") ∷ acts)
  unfolding execute_command_in_pod
  asks_service_first conf =
      let service = client.get_service conf.namespace (conf.user_identifier <> "-service") in
      let pod = client.get_pod conf.namespace (conf.user_identifier <> "-statefulset-0") in
      let asked = asked_pod conf.namespace (conf.user_identifier <> "-statefulset-0") in
      elim (Result-cases service) [
        | inl (e, q) ↦ ([], rw (execute_command_in_pod, q) refl)
        | inr (_, q) ↦ elim (Result-cases pod) [
          | inl (e, p) ↦ (asked ∷ [], rw (execute_command_in_pod, q, p) refl)
          | inr (ip, p) ↦ (asked ∷ executed ip conf ∷ [], rw (execute_command_in_pod, q, p) refl)
        ]
      ]

  -- Whatever the cluster answers, the sftp subsystem first asks for a service named after the user's
  -- pod, while ExecuteCommandInPod of the user, which a shell goes through, first asks for that of
  -- the user; the two names differ.
  pub sftp_asks_wrong_service :
      (tty : Bool)
      → (acts acts' : List TaskAct) × (handle_subsystem client namespace user "sftp"
          ≡ asked_service namespace ((user <> "-statefulset-0") <> "-service") ∷ acts)
        × ((execute_command_in_pod client (bash tty)).0
            ≡ asked_service namespace (user <> "-service") ∷ acts')
        × (((user <> "-statefulset-0") <> "-service") ≢ (user <> "-service"))
  unfolding handle_subsystem after_subsystem GoMap.lookup
  sftp_asks_wrong_service tty =
      let sftp : KubeExecConfig = record {
        namespace = namespace;
        user_identifier = user <> "-statefulset-0";
        command = "/usr/lib/ssh/sftp-server";
        tty = false;
      } in
      let rest = after_subsystem client namespace user (execute_command_in_pod client sftp).1 in
      let (acts, asked) = asks_service_first sftp in
      let (acts', asked') = asks_service_first (bash tty) in
      (
        acts ++ rest,
        acts',
        ap (λ l. l ++ rest) asked,
        asked',
        λ same.
            append_differ user ("-statefulset-0" <> "-service") "-service" refl
              (sym (append_assoc_text user "-statefulset-0" "-service") ∙ same),
      )
