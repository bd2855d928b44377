-- ===== src/Agent/Client.antt =====
-- agent/vmapi/vmapi.go: the client's side of an execution. What the SSH channel and the agent do are
-- lists of events.
use delegatio.Common.{
  ℕ, zero, suc, ◌≡◌, ◌⊎◌, refl, inl, inr, Bool, true, List, [], ◌∷◌, ◌++◌, Option, none, some,
  if◌then◌else◌,
}
use delegatio.Common.Outcome.{Result, ok, err, returns, blocks, Method, pure, modify, ◌>>=◌, ◌>>◌}
use delegatio.Store.{Bytes}
use delegatio.Channels.TerminalSize.{TerminalSize}
use delegatio.Agent.{
  ExecCommandRequest, StreamRequest, command, stdin, termsize, StreamResponse, stdout, stderr, exit,
}
use delegatio.Agent.Decimal.{ℤ, pos, negsuc, atoi}

-- The messages sent so far, and how many more go through before Send fails, and with what.
pub record Stream : Type 0 where
  pub sent : List StreamRequest
  pub left : ℕ
  pub send_error : ℕ

send_by : ℕ → StreamRequest → Method Stream (Result ℕ Unit)
send_by zero message c = returns (err c.send_error) c
send_by (suc left) message c =
    returns (ok tt) (record c { sent = c.sent ++ message ∷ []; left = left })

unfoldable pub send : StreamRequest → Method Stream (Result ℕ Unit)
unfolding send_by
send message c = send_by c.left message c

send_by_cases :
    (left : ℕ) (message : StreamRequest) (c : Stream)
    → ((left ≡ 0) × (send_by left message c ≡ returns (err c.send_error) c))
      ⊎ ((fewer : ℕ) × (left ≡ suc fewer)
          × (send_by left message c
              ≡ returns (ok tt) (record c { sent = c.sent ++ message ∷ []; left = fewer })))
unfolding send_by
send_by_cases zero message c = inl (refl, refl)
send_by_cases (suc fewer) message c = inr (fewer, refl, refl)

pub send_cases :
    (message : StreamRequest) (c : Stream)
    → ((c.left ≡ 0) × (send message c ≡ returns (err c.send_error) c))
      ⊎ ((fewer : ℕ) × (c.left ≡ suc fewer)
          × (send message c
              ≡ returns (ok tt) (record c { sent = c.sent ++ message ∷ []; left = fewer })))
unfolding send
send_cases message c = send_by_cases c.left message c

-- What Read of the SSH channel gives.
pub data Read : Type 0 where
  read : Bytes → Read
  read_eof : Read
  read_failed : ℕ → Read

-- What the goroutine of sender puts into errChan.
pub data SenderEnd : Type 0 where
  eof : SenderEnd
  failed : ℕ → SenderEnd

-- With no further input the goroutine waits.
unfoldable pub copy_stdin : List Read → Method Stream SenderEnd
unfolding send
copy_stdin [] = λ _. blocks
copy_stdin (read_eof ∷ reads) = pure eof
copy_stdin (read_failed e ∷ reads) = pure (failed e)
copy_stdin (read chunk ∷ reads) = do
  r ← send (stdin chunk)
  elim r [ err e ↦ pure (failed e) | ok _ ↦ copy_stdin reads ]

-- What the select of termSizeHandler receives: an item of the queue, or the end of the context.
pub data SizeEvent : Type 0 where
  item : Option TerminalSize → SizeEvent
  size_context_done : SizeEvent

pub data TermSizeError : Type 0 where
  size_context_ended window_size_queue_closed : TermSizeError
  size_send_failed : ℕ → TermSizeError

-- termSizeHandler: its loop returns in each case of the select.
unfoldable pub term_size_handler : List SizeEvent → Method Stream (Result TermSizeError Unit)
unfolding send
term_size_handler [] = λ _. blocks
term_size_handler (size_context_done ∷ events) = pure (err size_context_ended)
term_size_handler (item none ∷ events) = pure (err window_size_queue_closed)
term_size_handler (item (some size) ∷ events) = do
  r ← send (termsize size.width size.height)
  elim r [ err e ↦ pure (err (size_send_failed e)) | ok _ ↦ pure (ok tt) ]

-- What Recv gives, or the end of the context before it.
pub data RecvEvent : Type 0 where
  response : StreamResponse → RecvEvent
  recv_eof recv_context_done : RecvEvent
  recv_failed : ℕ → RecvEvent

-- What receiver returns; `finished` is nil.
pub data ReceiverEnd : Type 0 where
  finished context_ended : ReceiverEnd
  receive_failed : ℕ → ReceiverEnd
  errno : ℕ → ReceiverEnd
  invalid_error_number : Bytes → ReceiverEnd

-- What is shown to the user: stdout and stderr are the same SSH channel. `cancelled` is the context.
pub record Shown : Type 0 where
  pub text : Bytes
  pub cancelled : Bool

unfoldable pub of_exit_code : Bytes → Option ℤ → ReceiverEnd
of_exit_code number none = invalid_error_number number
of_exit_code number (some (pos n)) = errno n
of_exit_code number (some (negsuc n)) = invalid_error_number number

-- `len(errNumString) > 0`
unfoldable pub exit_end : Bytes → Method Shown ReceiverEnd → Method Shown ReceiverEnd
unfolding of_exit_code
exit_end [] rest = rest
exit_end (c ∷ number) rest = do
  modify (λ t. record t { cancelled = true })
  pure (of_exit_code (c ∷ number) (atoi (c ∷ number)))

unfoldable pub receiver : List RecvEvent → Method Shown ReceiverEnd
unfolding exit_end of_exit_code
receiver [] = λ _. blocks
receiver (recv_context_done ∷ events) = pure context_ended
receiver (recv_eof ∷ events) = pure finished
receiver (recv_failed e ∷ events) = pure (receive_failed e)
receiver (response (stderr p) ∷ events) = do
  modify (λ t. record t { text = t.text ++ p })
  receiver events
receiver (response (stdout p) ∷ events) = do
  modify (λ t. record t { text = t.text ++ p })
  receiver events
receiver (response (exit number) ∷ events) = exit_end number (receiver events)

-- The errors of the three goroutines, nil being `none`.
pub data ExecError : Type 0 where
  of_receiver : ReceiverEnd → ExecError
  of_sender : SenderEnd → ExecError
  of_sizes : TermSizeError → ExecError
  of_context dial_failed stream_failed : ExecError
  command_failed : ℕ → ExecError

abbrev pub receiver_error : ReceiverEnd → Option ExecError
receiver_error finished = none
receiver_error context_ended = some of_context
receiver_error (receive_failed e) = some (of_receiver (receive_failed e))
receiver_error (errno n) = some (of_receiver (errno n))
receiver_error (invalid_error_number number) = some (of_receiver (invalid_error_number number))

-- g.Wait: the first error, in the order in which the goroutines end.
unfoldable pub group_wait : List (Option ExecError) → Option ExecError
group_wait [] = none
group_wait (some e ∷ ends) = some e
group_wait (none ∷ ends) = group_wait ends

-- The error of CreateExecInPodgRPC: whether the dial and the stream come about, the Send of the command,
-- and the ends of the goroutines.
unfoldable pub exec_answer :
    Bool → Bool → Result ℕ Unit → List (Option ExecError) → Option ExecError
exec_answer dialled opened first_send ends =
    if dialled
    then (if opened
        then (elim first_send [ err e ↦ some (command_failed e) | ok _ ↦ group_wait ends ])
        else some stream_failed)
    else some dial_failed

-- CreateExecInPodgRPC: whether the dial and the stream come about, the first message, and the ends of
-- the goroutines, whose order the scheduler chooses.
unfoldable pub create_exec_in_pod_grpc :
    Bool → Bool → ExecCommandRequest → List (Option ExecError) → Method Stream (Option ExecError)
unfolding send
create_exec_in_pod_grpc dialled opened conf ends =
    if dialled
    then (if opened
        then (do
          r ← send (command conf)
          elim r [ err e ↦ pure (some (command_failed e)) | ok _ ↦ pure (group_wait ends) ])
        else pure (some stream_failed))
    else pure (some dial_failed)
