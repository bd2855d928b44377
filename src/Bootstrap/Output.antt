-- ===== src/Bootstrap/Output.antt =====
-- What the callers of kubeadm make of the agent's streams: exec.go of cli/bootstrapper/kubernetes over
-- ExecCommandReturnStream of agent/vmapi/exec.go.
use delegatio.Common.{
  ℕ, ◌≡◌, refl, sym, ap, ◌∙◌, append-nil, append_assoc, List, [], ◌∷◌, ◌++◌, map, map-append, none,
}
use delegatio.Common.Outcome.{Result, ok, err, Outcome, returns, blocks, panics}
use delegatio.Store.{Bytes}
use delegatio.Agent.Exec.{
  ReturnResponse, log, output, Write, to_stdout, to_stderr, log_write, stdout_of, ProcessEnd,
  success, exited, wait_failed, Process, GrpcStatus, exec_command_return_stream, last_output,
}
use delegatio.Bootstrap.{
  StreamEvent, received, recv_failed, stream_context_done, BootstrapError, call_failed,
  Bootstrapper,
}
use delegatio.Bootstrap.Kubeadm.{wait_for_output, wait_for_join}

-- What the stream of ExecCommandReturnStream looks like to the caller: its messages, then the end of
-- the stream or the error of the call.
abbrev pub status_error : GrpcStatus → ℕ → ℕ → ℕ
status_error GrpcStatus.finished end_of_stream failure = end_of_stream
status_error GrpcStatus.invalid_argument end_of_stream failure = failure
status_error GrpcStatus.internal end_of_stream failure = failure

-- The lines printed of what a command writes, to either stream.
abbrev pub lines_of : List Write → List Bytes
lines_of [] = []
lines_of (to_stdout [] ∷ writes) = lines_of writes
lines_of (to_stderr [] ∷ writes) = lines_of writes
lines_of (to_stdout (c ∷ p) ∷ writes) = (c ∷ p) ∷ lines_of writes
lines_of (to_stderr (c ∷ p) ∷ writes) = (c ∷ p) ∷ lines_of writes

module _ (end_of_stream failure : ℕ) where
  abbrev pub events_of : List ReturnResponse × GrpcStatus → List StreamEvent
  events_of stream =
      map received stream.0 ++ recv_failed (status_error stream.1 end_of_stream failure) ∷ []

  -- The answer to a command that ended well: its output, unless that is empty.
  abbrev pub answer : ProcessEnd → Bytes → Result BootstrapError Bytes
  answer success [] = err (call_failed end_of_stream)
  answer success (c ∷ out) = ok (c ∷ out)
  answer (exited code) out = err (call_failed failure)
  answer (wait_failed e) out = err (call_failed failure)

module _ {W : Type 0} (end_of_stream failure : ℕ) where
  wait_for_output-lines :
      (writes : List Write) (tail : List StreamEvent) (b : Bootstrapper W)
      → wait_for_output (map received (map log_write writes) ++ tail) b
        ≡ wait_for_output tail (record b { printed = b.printed ++ lines_of writes })
  unfolding wait_for_output
  wait_for_output-lines [] tail b =
      ap (λ t. wait_for_output tail (record b { printed = t })) (sym (append-nil b.printed))
  wait_for_output-lines (to_stdout [] ∷ writes) tail b = wait_for_output-lines writes tail b
  wait_for_output-lines (to_stderr [] ∷ writes) tail b = wait_for_output-lines writes tail b
  wait_for_output-lines (to_stdout (c ∷ p) ∷ writes) tail b =
      wait_for_output-lines writes tail (record b { printed = b.printed ++ (c ∷ p) ∷ [] })
      ∙ ap (λ t. wait_for_output tail (record b { printed = t }))
          (append_assoc b.printed ((c ∷ p) ∷ []) (lines_of writes))
  wait_for_output-lines (to_stderr (c ∷ p) ∷ writes) tail b =
      wait_for_output-lines writes tail (record b { printed = b.printed ++ (c ∷ p) ∷ [] })
      ∙ ap (λ t. wait_for_output tail (record b { printed = t }))
          (append_assoc b.printed ((c ∷ p) ∷ []) (lines_of writes))

  wait_for_output-last :
      (ending : ProcessEnd) (buf : Bytes) (b : Bootstrapper W)
      → wait_for_output (events_of end_of_stream failure (last_output ending buf)) b
        ≡ returns (answer end_of_stream failure ending buf) b
  unfolding wait_for_output
  wait_for_output-last success [] b = refl
  wait_for_output-last success (c ∷ out) b = refl
  wait_for_output-last (exited code) buf b = refl
  wait_for_output-last (wait_failed e) buf b = refl

  -- A command that starts under ExecCommandReturnStream: the caller's loop always comes to an end, has
  -- then printed every line that is not empty that the command wrote, to either stream and in order,
  -- and returns the command's whole standard output if the command succeeded with one that is not
  -- empty, the end of the stream as an error if it succeeded without output, and else the call's error.
  pub wait_for_output-exec :
      (process : Process) (b : Bootstrapper W)
      → process.start_error ≡ none
      → wait_for_output (events_of end_of_stream failure (exec_command_return_stream process)) b
        ≡ returns
            (answer end_of_stream failure process.ending (stdout_of process.writes))
            (record b { printed = b.printed ++ lines_of process.writes })
  unfolding exec_command_return_stream
  wait_for_output-exec process b started =
      let last = last_output process.ending (stdout_of process.writes) in
      let after = record b { printed = b.printed ++ lines_of process.writes } in
      let ending = recv_failed (status_error last.1 end_of_stream failure) ∷ [] in
      rw started (
        ap (λ t. wait_for_output (t ++ ending) b)
          (map-append received (map log_write process.writes) last.0)
        ∙ ap (λ t. wait_for_output t b)
            (append_assoc (map received (map log_write process.writes)) (map received last.0)
              ending)
        ∙ wait_for_output-lines process.writes (map received last.0 ++ ending) b
        ∙ wait_for_output-last process.ending (stdout_of process.writes) after)

-- The loop of kubeadm join ends as that of kubeadm init does on the same stream, with its output
-- dropped, and prints the same lines.
abbrev pub without_output :
    {W : Type 0}
    → Outcome (Bootstrapper W) (Result BootstrapError Bytes)
    → Outcome (Bootstrapper W) (Result BootstrapError Unit)
without_output (returns (ok out) b) = returns (ok tt) b
without_output (returns (err e) b) = returns (err e) b
without_output blocks = blocks
without_output panics = panics

pub wait_for_join_lem :
    {W : Type 0} (events : List StreamEvent) (b : Bootstrapper W)
    → wait_for_join events b ≡ without_output (wait_for_output events b)
unfolding wait_for_join wait_for_output
wait_for_join_lem [] b = refl
wait_for_join_lem (stream_context_done e ∷ events) b = refl
wait_for_join_lem (recv_failed e ∷ events) b = refl
wait_for_join_lem (received (output []) ∷ events) b = wait_for_join_lem events b
wait_for_join_lem (received (output (c ∷ text)) ∷ events) b = refl
wait_for_join_lem (received (log []) ∷ events) b = wait_for_join_lem events b
wait_for_join_lem (received (log (c ∷ line)) ∷ events) b =
    wait_for_join_lem events (record b { printed = b.printed ++ (c ∷ line) ∷ [] })
