-- ===== src/Agent/Exec.antt =====
-- agent/vmapi/exec.go: the agent's side. A command is the parameter `Process`: what it writes and how
-- it ends. The stream to the client stands; agent/vmapi/size.go is Channels.TerminalSize.
use delegatio.Common.{
  ℕ, zero, suc, List, [], ◌∷◌, ◌++◌, Option, none, some, map, take, if◌then◌else◌,
}
use delegatio.Common.Outcome.{Result, ok, err, returns, blocks, panics, Method, modify, ◌>>=◌, ◌>>◌}
use delegatio.Store.{Bytes}
use delegatio.Channels.TerminalSize.{TerminalSizeHandler, fill, new_terminal_size_handler}
use delegatio.Channels.Session.{u16}
use delegatio.Agent.{
  ExecCommandRequest, StreamRequest, command, stdin, termsize, StreamResponse, stdout, stderr, exit,
}
use delegatio.Agent.Decimal.{ℤ, pos, negsuc, sprint}

pub data Write : Type 0 where
  to_stdout to_stderr : Bytes → Write

-- What Wait returns: nil, an *exec.ExitError with its code (-1 after a signal), or another error.
pub data ProcessEnd : Type 0 where
  success : ProcessEnd
  exited : ℤ → ProcessEnd
  wait_failed : ℕ → ProcessEnd

-- `copied` is how many of the writes ttyCmd's goroutine has taken from the pty when Wait returns: the
-- pty is then closed, and later ones are lost.
pub record Process : Type 0 where
  pub start_error : Option ℕ
  pub writes : List Write
  pub copied : ℕ
  pub ending : ProcessEnd

pub data GrpcStatus : Type 0 where
  finished invalid_argument internal : GrpcStatus

-- streamWriterWrapper.Write at the two streams.
abbrev pub forward : Write → StreamResponse
forward (to_stdout p) = stdout p
forward (to_stderr p) = stderr p

-- Behind a pty both streams of the command are one.
abbrev pub forward_tty : Write → StreamResponse
forward_tty (to_stdout p) = stdout p
forward_tty (to_stderr p) = stdout p

abbrev pub exit_code : ProcessEnd → ℤ
exit_code success = pos 0
exit_code (exited code) = code
exit_code (wait_failed e) = negsuc 0

-- The last message of a stream.
abbrev pub report : ProcessEnd → StreamResponse
report ending = exit (sprint (exit_code ending))

-- ttyCmd, and the report: an error of pty.Start is one of no exit code.
unfoldable pub tty_cmd : Process → List StreamResponse
tty_cmd process = elim process.start_error [
  | some e ↦ report (wait_failed e) ∷ []
  | none ↦ map forward_tty (take process.copied process.writes) ++ report process.ending ∷ []
]

unfoldable pub run_command : Process → List StreamResponse × GrpcStatus
run_command process = elim process.start_error [
  | some e ↦ ([], internal)
  | none ↦ (map forward process.writes ++ report process.ending ∷ [], finished)
]

module _ (run : ExecCommandRequest → Process) where
  -- ExecCommandStream, from its first message (`none` when Recv fails); only a command is accepted.
  unfoldable pub exec_command_stream : Option StreamRequest → List StreamResponse × GrpcStatus
  unfolding tty_cmd run_command
  exec_command_stream none = ([], invalid_argument)
  exec_command_stream (some (stdin input)) = ([], invalid_argument)
  exec_command_stream (some (termsize width height)) = ([], invalid_argument)
  exec_command_stream (some (command request)) =
      if request.tty then (tty_cmd (run request), finished) else run_command (run request)

-- The pipe to the command's input with the size queue, and the error that closed the pipe. A write on
-- an io.Pipe waits for a reader: `reads_left` is how many more the command's side takes in full, and
-- `after_reads` what a write then meets, the error of a closed reading end, or a wait for ever.
pub record AgentInput : Type 0 where
  pub written : Bytes
  pub reads_left : ℕ
  pub after_reads : Option ℕ
  pub size_handler : TerminalSizeHandler
  pub closed_with : Option ℕ

unfoldable pub new_agent_input : ℕ → Option ℕ → AgentInput
unfolding new_terminal_size_handler
new_agent_input reads_left after_reads = record {
  written = [];
  reads_left = reads_left;
  after_reads = after_reads;
  size_handler = new_terminal_size_handler 10;
  closed_with = none;
}

-- Fill, whose error is only logged.
pub resize : ℕ → ℕ → Method AgentInput Unit
resize width height i =
    elim (fill (record { width = u16 width; height = u16 height }) i.size_handler) [
      | returns _ w ↦ returns tt (record i { size_handler = w })
      | blocks ↦ blocks
      | panics ↦ panics
    ]

-- writer.Write, whose error is the result.
unfoldable pub write_pipe : Bytes → Method AgentInput (Result ℕ Unit)
write_pipe input i = elim i.reads_left [
  | zero ↦ elim i.after_reads [ none ↦ blocks | some e ↦ returns (err e) i ]
  | suc fewer ↦ returns (ok tt) (record i { written = i.written ++ input; reads_left = fewer })
]

-- writer.CloseWithError: only the first error is kept.
unfoldable pub close_with_error : ℕ → Method AgentInput Unit
close_with_error e =
    modify (λ i. elim i.closed_with [ none ↦ record i { closed_with = some e } | some first ↦ i ])

abbrev pub unless_closed : Result ℕ Unit → Method AgentInput Unit → Method AgentInput Unit
unless_closed (err e) rest = close_with_error e
unless_closed (ok _) rest = rest

-- The goroutine that receives after the command. With no further message it waits.
unfoldable pub receive_input : List (Result ℕ StreamRequest) → Method AgentInput Unit
unfolding resize write_pipe close_with_error
receive_input [] = λ _. blocks
receive_input (err e ∷ messages) = close_with_error e
receive_input (ok (stdin input) ∷ messages) = do
  wrote ← write_pipe input
  unless_closed wrote (receive_input messages)
receive_input (ok (termsize width height) ∷ messages) = do
  resize width height
  receive_input messages
receive_input (ok (command request) ∷ messages) = receive_input messages

-- vmproto.ExecCommandReturnStreamResponse
pub data ReturnResponse : Type 0 where
  log output : Bytes → ReturnResponse

abbrev pub log_write : Write → ReturnResponse
log_write (to_stdout p) = log p
log_write (to_stderr p) = log p

-- stdoutBuf
abbrev pub stdout_of : List Write → Bytes
stdout_of [] = []
stdout_of (to_stdout p ∷ writes) = p ++ stdout_of writes
stdout_of (to_stderr p ∷ writes) = stdout_of writes

-- The end of ExecCommandReturnStream.
abbrev pub last_output : ProcessEnd → Bytes → List ReturnResponse × GrpcStatus
last_output success buf = (output buf ∷ [], finished)
last_output (exited code) buf = ([], internal)
last_output (wait_failed e) buf = ([], internal)

-- ExecCommandReturnStream: every write is logged, and a success ends with the whole output.
unfoldable pub exec_command_return_stream : Process → List ReturnResponse × GrpcStatus
exec_command_return_stream process = elim process.start_error [
  | some e ↦ ([], internal)
  | none ↦
      let last = last_output process.ending (stdout_of process.writes) in
      (map log_write process.writes ++ last.0, last.1)
]

-- ExecCommand
unfoldable pub exec_command : Process → Result GrpcStatus Bytes
exec_command process = elim process.start_error [
  | some e ↦ err internal
  | none ↦ elim process.ending [
    | success ↦ ok (stdout_of process.writes)
    | exited code ↦ err internal
    | wait_failed e ↦ err internal
  ]
]
