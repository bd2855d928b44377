-- ===== src/Agent/Session.antt =====
-- Whole executions: what the client of agent/vmapi/vmapi.go sends and what the agent of
-- agent/vmapi/exec.go makes of it, and back.
use delegatio.Common.{
  ℕ, zero, suc, ◌-◌, ◌≡◌, ◌≢◌, refl, sym, ap, ◌∙◌, ◌≤◌, true, List, [], ◌∷◌, ◌++◌, append-nil,
  append_assoc, Bool, if◌then◌else◌, Option, none, some, map, length, length-append, map-append,
  take, drop, Option-cases, arith, inl, inr, Bool-cases,
}
use delegatio.Common.Outcome.{Result, ok, err, Outcome, returns, blocks, ◌>>=◌}
use delegatio.Store.{Bytes}
use delegatio.Agent.{
  ExecCommandRequest, StreamRequest, StreamResponse, command, stdin, termsize, exit, concat,
}
use delegatio.Agent.Decimal.{
  ℤ, pos, negsuc, sprint, atoi, max_int, atoi-sprint, sprint_cases, atoi-minus_one,
  sprint_minus_one,
}
use delegatio.Agent.Exec.{
  Write, to_stdout, to_stderr, ProcessEnd, Process, forward, forward_tty, exit_code, report,
  tty_cmd, run_command, exec_command_stream, AgentInput, receive_input, write_pipe,
  close_with_error,
}
use delegatio.Agent.Client.{
  Stream, send_cases, read, read_eof, copy_stdin, eof, SizeEvent, item, size_context_done,
  TermSizeError, size_send_failed, term_size_handler, RecvEvent, response, ReceiverEnd, errno,
  invalid_error_number, Shown, of_exit_code, exit_end, receiver, ExecError, receiver_error,
  group_wait,
}

copy_stdin_lem :
    (chunks : List Bytes) (s : Stream)
    → length chunks ≤ s.left
    → (s' : Stream) × (copy_stdin (map read chunks ++ read_eof ∷ []) s ≡ returns eof s')
      × (s'.sent ≡ s.sent ++ map stdin chunks)
unfolding copy_stdin
copy_stdin_lem [] s h = (s, refl, sym (append-nil s.sent))
copy_stdin_lem (chunk ∷ chunks) s h = elim (send_cases (stdin chunk) s) [
  | inl (none_left, e) ↦ absurd (omega (arith, h, none_left))
  | inr (fewer, room, e) ↦
      let (s', done, all) =
        copy_stdin_lem chunks (record s { sent = s.sent ++ stdin chunk ∷ []; left = fewer })
          (omega (arith, h, room)) in
      (s', rw (e, ◌>>=◌) done, all ∙ append_assoc s.sent (stdin chunk ∷ []) (map stdin chunks))
]

-- How the agent ends when the typed chunks and then the end of the stream arrive: `left` are those that
-- the command's side of the pipe does not take.
abbrev pub input_end : List Bytes → ℕ → AgentInput → Outcome AgentInput Unit
input_end [] e i = returns tt (record i { closed_with = some e })
input_end (chunk ∷ left) e i = elim i.after_reads [
  | none ↦ blocks
  | some closed ↦ returns tt (record i { closed_with = some closed })
]

-- The pipe after the writes that are taken.
abbrev pub after_writes : List Bytes → AgentInput → AgentInput
after_writes chunks i = record i {
  written = i.written ++ concat (take i.reads_left chunks);
  reads_left = i.reads_left - length chunks;
}

nothing_written :
    (i : AgentInput) (closed : Option ℕ) (m n : ℕ)
    → m ≡ n
    → ◌≡◌ {A = Outcome AgentInput Unit}
        (returns tt (record i { reads_left = m; closed_with = closed }))
        (returns tt (record i { written = i.written ++ []; reads_left = n; closed_with = closed }))
nothing_written i closed m n same = rw (append-nil i.written, same) refl

receive_from :
    (chunks : List Bytes) (e n : ℕ) (i : AgentInput)
    → i.closed_with ≡ none
    → receive_input (map ok (map stdin chunks) ++ err e ∷ []) (record i { reads_left = n })
      ≡ input_end (drop n chunks) e (after_writes chunks (record i { reads_left = n }))
unfolding receive_input write_pipe close_with_error
receive_from [] e zero i open' = rw open' (nothing_written i (some e) 0 (0 - 0) (omega arith))
receive_from [] e (suc n) i open' =
    rw open' (nothing_written i (some e) (suc n) (suc n - 0) (omega arith))
receive_from (chunk ∷ chunks) e zero i open' = elim (Option-cases i.after_reads) [
  | inl waits ↦ rw waits refl
  | inr (closed, ends) ↦
      rw (ends, open')
        (nothing_written (record i { after_reads = some closed }) (some closed) 0
          (0 - suc (length chunks)) (omega arith))
]
receive_from (chunk ∷ chunks) e (suc n) i open' =
    receive_from chunks e n (record i { written = i.written ++ chunk }) open'
    ∙ ap
        (λ w.
          input_end (drop n chunks) e (record i { written = w; reads_left = n - length chunks }))
        (append_assoc i.written chunk (concat (take n chunks)))
    ∙ ap
        (λ m.
          input_end (drop n chunks) e
            (record i { written = i.written ++ concat (chunk ∷ take n chunks); reads_left = m }))
        (omega arith)

-- When every message goes through, what the user types before the end of the input is sent as one
-- message for each read. The agent that receives these messages and then the end of the stream writes to
-- the command, in their order, the bytes of as many messages as the command's side of the pipe takes.
-- When it takes all, the agent closes the command's input. Else the agent waits for ever if that side
-- stays open and is not read, and if it is closed the agent closes the input with its error.
pub stdin_arrives :
    (chunks : List Bytes) (s : Stream) (e : ℕ) (i : AgentInput)
    → length chunks ≤ s.left
    → i.closed_with ≡ none
    → (s' : Stream) × (messages : List StreamRequest) × (copy_stdin
          (map read chunks ++ read_eof ∷ [])
          s
        ≡ returns eof s')
      × (s'.sent ≡ s.sent ++ messages)
      × (receive_input (map ok messages ++ err e ∷ []) i
          ≡ input_end (drop i.reads_left chunks) e (after_writes chunks i))
stdin_arrives chunks s e i h open' =
    let (s', done, all) = copy_stdin_lem chunks s h in
    (s', map stdin chunks, done, all, receive_from chunks e i.reads_left i open')

abbrev pub bytes_of : Write → Bytes
bytes_of (to_stdout p) = p
bytes_of (to_stderr p) = p

-- What the user's side makes of an exit code.
abbrev pub end_of : ℤ → ReceiverEnd
end_of (pos n) = errno n
end_of (negsuc n) = invalid_error_number (sprint (negsuc n))

-- What ExitCode gives: a number of an int, or -1.
abbrev pub IsExitCode : ℤ → Type 0
IsExitCode (pos n) = n ≤ max_int
IsExitCode (negsuc n) = n ≡ 0

receiver-report :
    (code : ℤ) (d : Shown)
    → IsExitCode code
    → receiver (response (exit (sprint code)) ∷ []) d
      ≡ returns (end_of code) (record { text = d.text; cancelled = true })
unfolding receiver exit_end of_exit_code
receiver-report (pos n) d h =
    let (c, s, e) = sprint_cases n in
    let parsed : atoi (c ∷ s) ≡ some (pos n) = ap atoi (sym e) ∙ atoi-sprint n h in
    rw e (simp parsed)
receiver-report (negsuc n) d h =
    let parsed : atoi (b'-' ∷ b'1' ∷ []) ≡ some (negsuc 0) =
      ap atoi (sym sprint_minus_one) ∙ atoi-minus_one in
    rw (h, sprint_minus_one) (simp parsed)

receiver-writes :
    (writes : List Write) (tail : List RecvEvent) (d : Shown)
    → receiver (map response (map forward writes) ++ tail) d
      ≡ receiver tail (record d { text = d.text ++ concat (map bytes_of writes) })
unfolding receiver
receiver-writes [] tail d =
    ap (λ t. receiver tail (record d { text = t })) (sym (append-nil d.text))
receiver-writes (to_stdout p ∷ writes) tail d =
    receiver-writes writes tail (record d { text = d.text ++ p })
    ∙ ap (λ t. receiver tail (record d { text = t }))
        (append_assoc d.text p (concat (map bytes_of writes)))
receiver-writes (to_stderr p ∷ writes) tail d =
    receiver-writes writes tail (record d { text = d.text ++ p })
    ∙ ap (λ t. receiver tail (record d { text = t }))
        (append_assoc d.text p (concat (map bytes_of writes)))

receiver-tty_writes :
    (writes : List Write) (tail : List RecvEvent) (d : Shown)
    → receiver (map response (map forward_tty writes) ++ tail) d
      ≡ receiver tail (record d { text = d.text ++ concat (map bytes_of writes) })
unfolding receiver
receiver-tty_writes [] tail d =
    ap (λ t. receiver tail (record d { text = t })) (sym (append-nil d.text))
receiver-tty_writes (to_stdout p ∷ writes) tail d =
    receiver-tty_writes writes tail (record d { text = d.text ++ p })
    ∙ ap (λ t. receiver tail (record d { text = t }))
        (append_assoc d.text p (concat (map bytes_of writes)))
receiver-tty_writes (to_stderr p ∷ writes) tail d =
    receiver-tty_writes writes tail (record d { text = d.text ++ p })
    ∙ ap (λ t. receiver tail (record d { text = t }))
        (append_assoc d.text p (concat (map bytes_of writes)))

-- What reaches the user of the writes: behind a pty only those that were copied in time.
abbrev pub shown_writes : Bool → Process → List Write
shown_writes tty process = if tty then take process.copied process.writes else process.writes

-- What the user sees of a whole process.
abbrev pub shown_of : List Write → ProcessEnd → Shown → Outcome Shown ReceiverEnd
shown_of writes ending d =
    returns (end_of (exit_code ending))
      (record { text = d.text ++ concat (map bytes_of writes); cancelled = true })

receiver-reported :
    (f : Write → StreamResponse) (writes : List Write) (ending : ProcessEnd) (d : Shown)
    → IsExitCode (exit_code ending)
    → ((tail : List RecvEvent) (s : Shown)
        → receiver (map response (map f writes) ++ tail) s
          ≡ receiver tail (record s { text = s.text ++ concat (map bytes_of writes) }))
    → receiver (map response (map f writes ++ report ending ∷ [])) d ≡ shown_of writes ending d
receiver-reported f writes ending d code forwarded =
    ap (λ t. receiver t d) (map-append response (map f writes) (report ending ∷ []))
    ∙ forwarded (response (report ending) ∷ []) d
    ∙ receiver-report (exit_code ending)
        (record d { text = d.text ++ concat (map bytes_of writes) }) code

receiver-tty_cmd :
    (process : Process) (d : Shown)
    → process.start_error ≡ none
    → IsExitCode (exit_code process.ending)
    → receiver (map response (tty_cmd process)) d
      ≡ shown_of (take process.copied process.writes) process.ending d
unfolding tty_cmd
receiver-tty_cmd process d started code =
    let copied = take process.copied process.writes in
    rw started
      (receiver-reported forward_tty copied process.ending d code (receiver-tty_writes copied))

receiver-run_command :
    (process : Process) (d : Shown)
    → process.start_error ≡ none
    → IsExitCode (exit_code process.ending)
    → receiver (map response (run_command process).0) d ≡ shown_of process.writes process.ending d
unfolding run_command
receiver-run_command process d started code = rw started (
    receiver-reported forward process.writes process.ending d code (receiver-writes process.writes))

module _ (run : ExecCommandRequest → Process) where
  -- A command that starts and ends with an exit code: the messages of the agent make the user's side
  -- show all that the command wrote, to either stream and in its order, or behind a pty all of it that
  -- was copied in time, cancel the context and return an error of just that exit code, -1 being an
  -- invalid number.
  pub output_is_shown :
      (request : ExecCommandRequest) (d : Shown)
      → (run request).start_error ≡ none
      → IsExitCode (exit_code (run request).ending)
      → receiver (map response (exec_command_stream run (some (command request))).0) d
        ≡ returns (end_of (exit_code (run request).ending)) (record {
          text = d.text ++ concat (map bytes_of (shown_writes request.tty (run request)));
          cancelled = true;
        })
  unfolding exec_command_stream
  output_is_shown request d started code = elim (Bool-cases request.tty) [
    | inl tty ↦ simp (tty, receiver-tty_cmd (run request) d started code)
    | inr plain ↦ simp (plain, receiver-run_command (run request) d started code)
  ]

-- Window sizes: however many the queue gives, an execution that ends has sent at most one of them.
term_size_handler_once :
    (events : List SizeEvent) (s s' : Stream) (r : Result TermSizeError Unit)
    → term_size_handler events s ≡ returns r s'
    → length s'.sent ≤ suc (length s.sent)
unfolding term_size_handler
term_size_handler_once [] s s' r h = cc
term_size_handler_once (size_context_done ∷ events) s s' r h = grind arith
term_size_handler_once (item none ∷ events) s s' r h = grind arith
term_size_handler_once (item (some size) ∷ events) s s' r h =
    let message = termsize size.width size.height in
    elim (send_cases message s) [
      | inl (none_left, e) ↦
          let same : returns (err (size_send_failed s.send_error)) s ≡ returns r s' =
            sym (rw (e, ◌>>=◌) refl) ∙ h in
          grind arith
      | inr (fewer, room, e) ↦
          let next = record s { sent = s.sent ++ message ∷ []; left = fewer } in
          let same : returns (ok tt) next ≡ returns r s' = sym (rw (e, ◌>>=◌) refl) ∙ h in
          grind (arith, length-append s.sent (message ∷ []))
    ]

-- Whatever the order in which the three goroutines end, once the receiver ends with an exit code, 0
-- included, the execution returns an error.
pub group_wait_code :
    (n : ℕ) (before after : List (Option ExecError))
    → group_wait (before ++ receiver_error (errno n) ∷ after) ≢ none
unfolding group_wait
group_wait_code n [] after h = cc
group_wait_code n (some e ∷ before) after h = cc
group_wait_code n (none ∷ before) after h = group_wait_code n before after h
