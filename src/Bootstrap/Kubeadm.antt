-- ===== src/Bootstrap/Kubeadm.antt =====
-- cli/bootstrapper/kubernetes/exec.go: kubeadm init on the control plane and kubeadm join on the
-- workers.
pub mod Setup
pub mod Joined
use delegatio.Common.{
  ℕ, ◌≡◌, refl, sym, ap, ◌∙◌, append-nil, append_assoc, String, Bool, true, false, List, [], ◌∷◌,
  ◌++◌, map, map-append, Option, none, some,
}
use delegatio.Common.GoMap.{GoMap}
use delegatio.Common.Outcome.{
  Result, ok, err, Outcome, returns, blocks, panics, Method, pure, gets, on_ok, ◌>>=◌, ◌>>◌,
}
use delegatio.Store.{Bytes}
use delegatio.Agent.{ExecCommandRequest}
use delegatio.Agent.Exec.{
  ReturnResponse, log, output, Write, to_stdout, to_stderr, log_write, stdout_of, ProcessEnd,
  success, exited, wait_failed, Process, GrpcStatus, exec_command_return_stream, last_output,
}
use delegatio.Bootstrap.{
  JoinToken, StreamEvent, received, recv_failed, stream_context_done, BootstrapError, call_failed,
  AgentClient, Bootstrapper, outside, print_line,
}

-- The loop of executeKubeadm: the first output that is not empty; lines of the log are printed. With
-- no further event Recv waits.
unfoldable pub wait_for_output :
    {W : Type 0} → List StreamEvent → Method (Bootstrapper W) (Result BootstrapError Bytes)
wait_for_output [] = λ _. blocks
wait_for_output (stream_context_done e ∷ events) = pure (err (call_failed e))
wait_for_output (recv_failed e ∷ events) = pure (err (call_failed e))
wait_for_output (received (output []) ∷ events) = wait_for_output events
wait_for_output (received (output (c ∷ text)) ∷ events) = pure (ok (c ∷ text))
wait_for_output (received (log line) ∷ events) = do print_line line; wait_for_output events

-- The loop of joinCluster, which keeps no output.
unfoldable pub wait_for_join :
    {W : Type 0} → List StreamEvent → Method (Bootstrapper W) (Result BootstrapError Unit)
wait_for_join [] = λ _. blocks
wait_for_join (stream_context_done e ∷ events) = pure (err (call_failed e))
wait_for_join (recv_failed e ∷ events) = pure (err (call_failed e))
wait_for_join (received (output []) ∷ events) = wait_for_join events
wait_for_join (received (output (c ∷ text)) ∷ events) = pure (ok tt)
wait_for_join (received (log line) ∷ events) = do print_line line; wait_for_join events

module _ {W : Type 0} (agents : AgentClient W) where
  unfoldable pub execute_kubeadm : String → Method (Bootstrapper W) (Result BootstrapError Bytes)
  execute_kubeadm address = do
    events ← outside (
        agents.exec_return_stream address (record {
          command = "/usr/bin/kubeadm";
          args =
              "init" ∷ "--config" ∷ "/tmp/kubeadmconf.yaml" ∷ "--node-name" ∷ "delegatio-master-0"
              ∷ "--v=1" ∷ "--skip-certificate-key-print" ∷ [];
          tty = false;
        }))
    on_ok events wait_for_output

  unfoldable pub install_kubernetes : Bytes → Method (Bootstrapper W) (Result BootstrapError Unit)
  unfolding execute_kubeadm
  install_kubernetes configuration = do
    address ← gets (λ b. agents.join_host_port b.control_plane_ip "9000")
    dialled ← outside (agents.dial address)
    on_ok dialled λ _. (do
      wrote ← outside (
          agents.write_file address
            (record { filepath = "/tmp"; filename = "kubeadmconf.yaml"; content = configuration }))
      on_ok wrote λ _. (do out ← execute_kubeadm address; on_ok out λ _. pure (ok tt)))

  -- kubeadm join on one node; CACertHashes[0] panics when there is no hash.
  join_arguments : String → JoinToken → String → List String
  join_arguments id token hash =
      "join" ∷ token.api_server_endpoint ∷ "--token" ∷ token.token
      ∷ "--discovery-token-ca-cert-hash" ∷ hash ∷ "--node-name" ∷ id ∷ []

  join_with :
      List String
      → String
      → String
      → JoinToken
      → Method (Bootstrapper W) (Result BootstrapError Unit)
  unfolding join_arguments
  join_with [] id ip token = λ _. panics
  join_with (hash ∷ hashes) id ip token = do
    events ← outside (
        agents.exec_return_stream (agents.join_host_port ip "9000") (record {
          command = "/usr/bin/kubeadm";
          args = join_arguments id token hash;
          tty = false;
        }))
    on_ok events wait_for_join

  unfoldable pub join_cluster :
      String → String → JoinToken → Method (Bootstrapper W) (Result BootstrapError Unit)
  unfolding join_with
  join_cluster id ip token = do
    dialled ← outside (agents.dial (agents.join_host_port ip "9000"))
    on_ok dialled λ _. join_with token.ca_cert_hashes id ip token

  -- g.Wait: the error of the first goroutine that failed.
  first_error : Result BootstrapError Unit → Result BootstrapError Unit → Result BootstrapError Unit
  first_error (err e) later = err e
  first_error (ok _) later = later

  join_all : GoMap String → JoinToken → Method (Bootstrapper W) (Result BootstrapError Unit)
  unfolding first_error
  join_all [] token = pure (ok tt)
  join_all ((name, address) ∷ workers) token = do
    first ← join_cluster name address token
    rest ← join_all workers token
    pure (first_error first rest)

  -- JoinClusterCoordinator: every worker is joined, the goroutines one after the other in the order in
  -- which the scheduler ends them.
  unfoldable pub join_cluster_coordinator :
      JoinToken → Method (Bootstrapper W) (Result BootstrapError Unit)
  unfolding join_all
  join_cluster_coordinator token = do workers ← gets (λ b. b.worker_ips); join_all workers token
