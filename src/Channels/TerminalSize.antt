-- ===== src/Channels/TerminalSize.antt =====
-- ssh/connection/channels/size.go (agent/vmapi/size.go has the same code). A buffered Go channel is
-- its list of values, oldest first. The mutex is held for the whole of Fill and Close, so each is one
-- step.
pub mod Queue
use delegatio.Common.{
  ℕ, Bool, true, false, List, [], ◌∷◌, ◌++◌, length, Option, none, some, eqb, ltb, if◌then◌else◌,
}
use delegatio.Common.Outcome.{Result, ok, err, Outcome, returns, blocks, panics, Method}

pub data QueueError : Type 0 where
  queue_full queue_closed : QueueError

-- remotecommand.TerminalSize: two values of type uint16.
pub record TerminalSize : Type 0 where
  pub width : ℕ
  pub height : ℕ

pub record TerminalSizeHandler : Type 0 where
  pub queue : List TerminalSize
  pub closed : Bool
  pub capacity : ℕ

unfoldable pub new_terminal_size_handler : ℕ → TerminalSizeHandler
new_terminal_size_handler cap = record { queue = []; closed = false; capacity = cap }

-- `w.queue <- data`: a send on a closed channel panics, and on a full one it waits.
send : TerminalSize → Method TerminalSizeHandler (Result QueueError Unit)
send size w =
    if w.closed
    then panics
    else if ltb (length w.queue) w.capacity
    then returns (ok tt) (record w { queue = w.queue ++ size ∷ [] })
    else blocks

unfoldable pub fill : TerminalSize → Method TerminalSizeHandler (Result QueueError Unit)
unfolding send
fill size w =
    if w.closed
    then returns (err queue_closed) w
    else if eqb (length w.queue) w.capacity
    then returns (err queue_full) w
    else send size w

-- `<-w.queue`: the oldest value, nil once the channel is closed and empty, and else it waits.
receive : List TerminalSize → Bool → Method TerminalSizeHandler (Option TerminalSize)
receive (size ∷ rest) is_closed w = returns (some size) (record w { queue = rest })
receive [] true w = returns none w
receive [] false w = blocks

unfoldable pub next : Method TerminalSizeHandler (Option TerminalSize)
unfolding receive
next w = receive w.queue w.closed w

-- close(w.queue) comes with the mark `closed`, which guards it.
unfoldable pub close : Method TerminalSizeHandler Unit
close w = returns tt (if w.closed then w else record w { closed = true })
