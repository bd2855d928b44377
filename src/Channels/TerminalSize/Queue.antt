-- ===== src/Channels/TerminalSize/Queue.antt =====
-- Order and bounds of the queue of terminal sizes.
use delegatio.Common.{
  ℕ, ◌≤◌, ◌≡◌, refl, true, false, List, [], ◌∷◌, ◌++◌, length, length-append, none, some, arith,
  eqb, append_assoc, Bool-cases, ◌⊎◌, inl, inr, Bool, sym, ap, ◌∙◌, Option, if◌then◌else◌,
}
use delegatio.Common.Outcome.{Result, ok, err, Outcome, returns, blocks, panics}
use delegatio.Channels.TerminalSize.{
  TerminalSize, TerminalSizeHandler, QueueError, queue_full, queue_closed, receive,
  new_terminal_size_handler, fill, next, close,
}

pub record IsBounded (w : TerminalSizeHandler) : Type 0 where
  pub fits : length w.queue ≤ w.capacity

-- What Fill promises of a bounded queue: it never waits and never panics.
abbrev pub FillResult : TerminalSize → TerminalSizeHandler → Type 0
FillResult size w = fill size w ≡ (
    if w.closed
    then returns (err queue_closed) w
    else if eqb (length w.queue) w.capacity
    then returns (err queue_full) w
    else returns (ok tt) (record w { queue = w.queue ++ size ∷ [] }))

-- Fill on a bounded queue refuses when it is closed or full, and else puts the size at the end; it
-- never waits and never panics.
pub fill_lem : (size : TerminalSize) (w : TerminalSizeHandler) → IsBounded w → FillResult size w
unfolding fill
fill_lem size w h = ground arith

-- Every operation that returns keeps the queue bounded.
pub steps-IsBounded :
    (size : TerminalSize) (w : TerminalSizeHandler)
    → IsBounded w
    → ((cap : ℕ) → IsBounded (new_terminal_size_handler cap))
      × ((w' : TerminalSizeHandler) → fill size w ≡ returns (ok tt) w' → IsBounded w')
      × ((w' : TerminalSizeHandler) → next w ≡ returns (some size) w' → IsBounded w')
      × ((w' : TerminalSizeHandler) → close w ≡ returns tt w' → IsBounded w')
unfolding fill next close new_terminal_size_handler
steps-IsBounded size w h = (
  λ cap. record { fits = omega arith },
  λ w' e. ground (arith, length-append w.queue (size ∷ [])),
  λ w' e. ground arith,
  λ w' e. ground arith,
)

pub fill_returns :
    (size : TerminalSize) (w : TerminalSizeHandler)
    → IsBounded w
    → (r : Result QueueError Unit) × (w' : TerminalSizeHandler) × (fill size w ≡ returns r w')
      × IsBounded w'
fill_returns size w h = elim (Bool-cases w.closed) [
  | inl e ↦ (err queue_closed, w, fill_lem size w h ∙ rw e, h)
  | inr e ↦ elim (Bool-cases (eqb (length w.queue) w.capacity)) [
    | inl full ↦ (err queue_full, w, fill_lem size w h ∙ rw (e, full), h)
    | inr room ↦ (
      ok tt,
      record w { queue = w.queue ++ size ∷ [] },
      fill_lem size w h ∙ rw (e, room),
      record { fits = ground (arith, length-append w.queue (size ∷ [])) },
    )
  ]
]

-- The calls of the callbacks (Fill, Close) and of the reader (Next), in any order.
pub data Call : Type 0 where
  fills : TerminalSize → Call
  takes closes : Call

-- The handler with the sizes that Fill accepted and those that Next gave, oldest first.
pub record History : Type 0 where
  pub handler : TerminalSizeHandler
  pub accepted : List TerminalSize
  pub given : List TerminalSize

abbrev after_fill :
    History → TerminalSize → Outcome TerminalSizeHandler (Result QueueError Unit) → History
after_fill h size (returns (ok _) w) = record h { handler = w; accepted = h.accepted ++ size ∷ [] }
after_fill h size (returns (err e) w) = record h { handler = w }
after_fill h size blocks = h
after_fill h size panics = h

-- A Next that waits takes nothing.
abbrev after_next : History → Outcome TerminalSizeHandler (Option TerminalSize) → History
after_next h (returns (some size) w) = record h { handler = w; given = h.given ++ size ∷ [] }
after_next h (returns none w) = record h { handler = w }
after_next h blocks = h
after_next h panics = h

abbrev after_close : History → Outcome TerminalSizeHandler Unit → History
after_close h (returns _ w) = record h { handler = w }
after_close h blocks = h
after_close h panics = h

step : History → Call → History
step h (fills size) = after_fill h size (fill size h.handler)
step h takes = after_next h (next h.handler)
step h closes = after_close h (close h.handler)

pub run : History → List Call → History
run h [] = h
run h (c ∷ cs) = run (step h c) cs

abbrev pub start : ℕ → History
start cap = record { handler = new_terminal_size_handler cap; accepted = []; given = [] }

pub record IsFifo (h : History) : Type 0 where
  pub fits : length h.handler.queue ≤ h.handler.capacity
  pub in_order : h.accepted ≡ h.given ++ h.handler.queue

receive_cases :
    (sizes : List TerminalSize) (is_closed : Bool) (w : TerminalSizeHandler)
    → ((size : TerminalSize) × (rest : List TerminalSize) × (sizes ≡ size ∷ rest)
        × (receive sizes is_closed w ≡ returns (some size) (record w { queue = rest })))
      ⊎ ((receive sizes is_closed w ≡ returns none w) ⊎ (receive sizes is_closed w ≡ blocks))
unfolding receive
receive_cases (size ∷ rest) is_closed w = inl (size, rest, refl, refl)
receive_cases [] true w = inr (inl refl)
receive_cases [] false w = inr (inr refl)

-- Next gives the oldest size, or nil, or waits.
next_cases :
    (w : TerminalSizeHandler)
    → ((size : TerminalSize) × (rest : List TerminalSize) × (w.queue ≡ size ∷ rest)
        × (next w ≡ returns (some size) (record w { queue = rest })))
      ⊎ ((next w ≡ returns none w) ⊎ (next w ≡ blocks))
unfolding next
next_cases w = receive_cases w.queue w.closed w

step-IsFifo : (h : History) (c : Call) → IsFifo h → IsFifo (step h c)
unfolding step fill next close
step-IsFifo h (fills size) v = ground (
  arith,
  length-append h.handler.queue (size ∷ []),
  append_assoc h.given h.handler.queue (size ∷ []),
)
step-IsFifo h takes v = elim (next_cases h.handler) [
  | inl (size, rest, split, got) ↦ rw got (record {
    fits = omega (arith, ap length split);
    in_order = v.in_order ∙ ap (◌++◌ h.given) split ∙ sym (append_assoc h.given (size ∷ []) rest);
  })
  | inr e ↦ elim e [ inl got ↦ rw got v | inr got ↦ rw got v ]
]
step-IsFifo h closes v = ground arith

run-IsFifo : (h : History) (cs : List Call) → IsFifo h → IsFifo (run h cs)
unfolding run
run-IsFifo h [] v = v
run-IsFifo h (c ∷ cs) v = run-IsFifo (step h c) cs (step-IsFifo h c v)

-- Whatever the calls of Fill, Next and Close, the reader has been given the first of the accepted
-- sizes, in their order; the others wait in the queue, which never passes its capacity.
pub run-start-IsFifo : (cap : ℕ) (cs : List Call) → IsFifo (run (start cap) cs)
unfolding new_terminal_size_handler
run-start-IsFifo cap cs = run-IsFifo (start cap) cs (record { fits = omega arith; in_order = refl })
