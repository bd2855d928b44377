-- ===== src/Bootstrap/Kubeadm/Setup.antt =====
-- kubeadm join leaves the setup of the Bootstrapper.
use delegatio.Common.{String, false, List, [], ◌∷◌}
use delegatio.Common.GoMap.{GoMap}
use delegatio.Common.Outcome.{gets}
use delegatio.Common.Keeps.{
  Keeps, pure-Keeps, gets-Keeps, panics-Keeps, blocks-Keeps, bind-Keeps, on_ok-Keeps,
}
use delegatio.Agent.Exec.{log, output}
use delegatio.Bootstrap.{
  JoinToken, StreamEvent, received, recv_failed, stream_context_done, AgentClient, outside,
  print_line,
}
use delegatio.Bootstrap.Setup.{setup, outside-Keeps, print_line-Keeps}
use delegatio.Bootstrap.Kubeadm.{
  wait_for_join, join_arguments, join_with, join_cluster, join_all, join_cluster_coordinator,
}

wait_for_join-Keeps :
    {W : Type 0} (events : List StreamEvent) → Keeps (setup W) (wait_for_join events)
unfolding wait_for_join
wait_for_join-Keeps [] = blocks-Keeps _
wait_for_join-Keeps (stream_context_done e ∷ events) = pure-Keeps _ _
wait_for_join-Keeps (recv_failed e ∷ events) = pure-Keeps _ _
wait_for_join-Keeps (received (output []) ∷ events) = wait_for_join-Keeps events
wait_for_join-Keeps (received (output (c ∷ text)) ∷ events) = pure-Keeps _ _
wait_for_join-Keeps (received (log line) ∷ events) =
    bind-Keeps _ (print_line line) _ (print_line-Keeps line) (λ _. wait_for_join-Keeps events)

module _ {W : Type 0} (agents : AgentClient W) where
  join_with-Keeps :
      (hashes : List String) (id ip : String) (token : JoinToken)
      → Keeps (setup W) (join_with agents hashes id ip token)
  unfolding join_with
  join_with-Keeps [] id ip token = panics-Keeps _
  join_with-Keeps (hash ∷ hashes) id ip token =
      bind-Keeps _
        (outside (
          agents.exec_return_stream (agents.join_host_port ip "9000") (record {
            command = "/usr/bin/kubeadm";
            args = join_arguments agents id token hash;
            tty = false;
          })))
        _ (outside-Keeps _) (λ events. on_ok-Keeps _ events _ wait_for_join-Keeps)

  join_cluster-Keeps :
      (id ip : String) (token : JoinToken) → Keeps (setup W) (join_cluster agents id ip token)
  unfolding join_cluster
  join_cluster-Keeps id ip token =
      bind-Keeps _ (outside (agents.dial (agents.join_host_port ip "9000"))) _ (outside-Keeps _)
        (λ dialled. on_ok-Keeps _ dialled _ (λ _. join_with-Keeps token.ca_cert_hashes id ip token))

  join_all-Keeps :
      (workers : GoMap String) (token : JoinToken) → Keeps (setup W) (join_all agents workers token)
  unfolding join_all
  join_all-Keeps [] token = pure-Keeps _ _
  join_all-Keeps ((name, address) ∷ workers) token =
      bind-Keeps _ (join_cluster agents name address token) _
        (join_cluster-Keeps name address token)
        (λ first.
          bind-Keeps _ (join_all agents workers token) _ (join_all-Keeps workers token)
            (λ rest. pure-Keeps _ _))

  pub join_cluster_coordinator-Keeps :
      (token : JoinToken) → Keeps (setup W) (join_cluster_coordinator agents token)
  unfolding join_cluster_coordinator
  join_cluster_coordinator-Keeps token =
      bind-Keeps _ (gets (λ b. b.worker_ips)) _ (gets-Keeps _ _)
        (λ workers. join_all-Keeps workers token)
