-- ===== src/Examples/Agents.antt =====
-- Runs of executions and of the agent's files.
use delegatio.Common.{
  ◌≡◌, ◌≢◌, refl, arith, String, Bool, true, false, List, [], ◌∷◌, ◌++◌, Option, none, some, map,
  drop, ◌==◌, ℕ, ◌<>◌, eq_refl, if◌then◌else◌,
}
use delegatio.Common.Outcome.{Outcome, Result, ok, err, returns}
use delegatio.Store.{Bytes}
use delegatio.Agent.{ExecCommandRequest, StreamRequest, command, concat}
use delegatio.Agent.Decimal.{pos}
use delegatio.Agent.Exec.{
  to_stdout, to_stderr, exited, success, Process, exit_code, exec_command_stream, AgentInput,
  receive_input, exec_command_return_stream, stdout_of,
}
use delegatio.Agent.Client.{Stream, read, read_eof, copy_stdin, eof, response, Shown, receiver}
use delegatio.Agent.Session.{
  input_end, after_writes, stdin_arrives, output_is_shown, end_of, bytes_of, shown_writes,
}
use delegatio.Agent.Files.{FileSystem, FileLaws, write_file_in_pod_grpc, read_file, read_file-write}
use delegatio.Bootstrap.{Bootstrapper}
use delegatio.Bootstrap.Kubeadm.{wait_for_output}
use delegatio.Bootstrap.Output.{events_of, answer, lines_of, wait_for_output-exec}

abbrev open_stream : Stream
open_stream = record { sent = []; left = 5; send_error = 9 }

abbrev typed : List Bytes
typed = (b'l' ∷ b's' ∷ []) ∷ (b'p' ∷ b'w' ∷ b'd' ∷ []) ∷ []

-- A command that takes one write and then closes its input.
abbrev agent_input : AgentInput
agent_input = record {
  written = [];
  reads_left = 1;
  after_reads = some 32;
  size_handler = record { queue = []; closed = false; capacity = 10 };
  closed_with = none;
}

stdin_arrives_example :
    (s' : Stream) × (messages : List StreamRequest) × (copy_stdin
        (map read typed ++ read_eof ∷ [])
        open_stream
      ≡ returns eof s')
    × (s'.sent ≡ open_stream.sent ++ messages)
    × (receive_input (map ok messages ++ err 7 ∷ []) agent_input
        ≡ input_end (drop agent_input.reads_left typed) 7 (after_writes typed agent_input))
stdin_arrives_example = stdin_arrives typed open_stream 7 agent_input (omega arith) refl

abbrev failing : Process
failing = record {
  start_error = none;
  copied = 2;
  writes = to_stdout (b'o' ∷ b'u' ∷ b't' ∷ []) ∷ to_stderr (b'e' ∷ b'r' ∷ b'r' ∷ []) ∷ [];
  ending = exited (pos 42);
}

abbrev request : ExecCommandRequest
request = record { command = "make"; args = []; tty = false }

abbrev screen : Shown
screen = record { text = []; cancelled = false }

output_is_shown_example :
    receiver (map response (exec_command_stream (λ _. failing) (some (command request))).0) screen
    ≡ returns (end_of (exit_code failing.ending)) (record {
      text = screen.text ++ concat (map bytes_of (shown_writes request.tty failing));
      cancelled = true;
    })
output_is_shown_example = output_is_shown (λ _. failing) request screen refl (omega arith)

-- A process whose output the caller of kubeadm waits for.
abbrev kubeadm : Process
kubeadm = record {
  start_error = none;
  copied = 2;
  writes =
      to_stderr (b'w' ∷ b'a' ∷ b'i' ∷ b't' ∷ []) ∷ to_stdout (b'd' ∷ b'o' ∷ b'n' ∷ b'e' ∷ []) ∷ [];
  ending = success;
}

abbrev cli : Bootstrapper Unit
cli = record {
  client = false;
  admin_conf = [];
  control_plane_ip = "10.0.0.1";
  worker_ips = [];
  k8s_config = [];
  kubeconfig = none;
  printed = [];
  world = tt;
}

wait_for_output-exec_example :
    wait_for_output (events_of 0 13 (exec_command_return_stream kubeadm)) cli
    ≡ returns
        (answer 0 13 kubeadm.ending (stdout_of kubeadm.writes))
        (record cli { printed = cli.printed ++ lines_of kubeadm.writes })
wait_for_output-exec_example = wait_for_output-exec 0 13 kubeadm cli refl

-- Files in memory: every directory that was made is there.
pub record Disk : Type 0 where
  pub directories : String → Bool
  pub files : String → Option Bytes

abbrev found : Option Bytes → Disk → Outcome Disk (Result ℕ Bytes)
found none f = returns (err 2) f
found (some content) f = returns (ok content) f

abbrev disk_os : FileSystem Disk
disk_os = record {
  join_path = λ directory name. directory <> "/" <> name;
  is_missing = λ path f. returns (if f.directories path then false else true) f;
  mkdir_all = λ path mode f.
      returns (ok tt) (record f { directories = λ j. if path == j then true else f.directories j });
  write_file = λ path content mode f.
      returns (ok tt) (record f { files = λ j. if path == j then some content else f.files j });
  read_file = λ path f. found (f.files path) f;
}

made_here : (path : String) (f : Disk) → (if path == path then true else f.directories path) ≡ true
made_here path f = rw (eq_refl path) refl

abbrev disk_laws : FileLaws disk_os
disk_laws = record {
  has_directory = λ f path. f.directories path;
  view = λ f path. f.files path;
  missing_law = λ path f. refl;
  mkdir_law = λ path mode f. (
    record f { directories = λ j. if path == j then true else f.directories j },
    refl,
    made_here path f,
    λ j. refl,
  );
  write_law = λ directory name content mode f there. (
    record f { files = λ j. if (directory <> "/" <> name) == j then some content else f.files j },
    refl,
    λ j. refl,
  );
  read_law = λ path content f there. rw there refl;
}

abbrev empty_disk : Disk
empty_disk = record { directories = λ path. false; files = λ path. none }

read_file-write_example :
    (f' : Disk) × (write_file_in_pod_grpc disk_os (ok tt) "/root" "key" (b'k' ∷ []) empty_disk
      ≡ returns (ok tt) f')
    × (read_file disk_os "/root" "key" f' ≡ returns (ok (b'k' ∷ [])) f')
    × ((j : String)
        → disk_os.join_path "/root" "key" ≢ j
        → disk_laws.view f' j ≡ disk_laws.view empty_disk j)
read_file-write_example = read_file-write disk_os disk_laws "/root" "key" (b'k' ∷ []) empty_disk
