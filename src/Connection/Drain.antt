-- ===== src/Connection/Drain.antt =====
-- handleChannels of ssh/connection/connection.go: its goroutines run beside the loop, so it is a step
-- relation. `arrived` and `handled` are ghosts.
use delegatio.Common.{
  ℕ, ◌+◌, ◌-◌, ◌≡◌, refl, ap, ◌∙◌, Bool, true, false, List, [], ◌∷◌, ◌++◌, arith, length,
  length-append,
}
use delegatio.Connection.{NewChannel}

pub record ChannelsState : Type 0 where
  pub wg : ℕ
  pub running : List NewChannel
  pub arrived : ℕ
  pub handled : ℕ
  pub accepting : Bool
  pub returned : Bool

-- A received channel starts a goroutine; a closed queue or the end of the context ends the loop; a
-- goroutine that is done calls wg.Done; and wg.Wait returns at zero.
pub data Step : ChannelsState → ChannelsState → Type 0 where
  receives :
      (s : ChannelsState) (new_channel : NewChannel)
      → s.accepting ≡ true
      → Step s
          (record s { wg = s.wg + 1; running = new_channel ∷ s.running; arrived = s.arrived + 1 })
  leaves_loop : (s : ChannelsState) → s.accepting ≡ true → Step s (record s { accepting = false })
  done :
      (s : ChannelsState) (before : List NewChannel) (new_channel : NewChannel)
      (after : List NewChannel)
      → s.running ≡ before ++ new_channel ∷ after
      → Step s (record s { wg = s.wg - 1; running = before ++ after; handled = s.handled + 1 })
  waits :
      (s : ChannelsState) → s.accepting ≡ false → s.wg ≡ 0 → Step s (record s { returned = true })

pub data Steps : ChannelsState → ChannelsState → Type 0 where
  here : (s : ChannelsState) → Steps s s
  then : {s t u : ChannelsState} → Steps s t → Step t u → Steps s u

abbrev pub start : ChannelsState
start = record {
  wg = 0;
  running = [];
  arrived = 0;
  handled = 0;
  accepting = true;
  returned = false;
}

-- The wait group counts the goroutines, and nothing is lost.
pub record IsCounted (s : ChannelsState) : Type 0 where
  pub counts : s.wg ≡ length s.running
  pub nothing_lost : s.arrived ≡ s.handled + length s.running
  pub drained : s.returned ≡ true → (s.accepting ≡ false) × (s.wg ≡ 0)

length-middle :
    (xs : List NewChannel) (x : NewChannel) (ys : List NewChannel)
    → length (xs ++ x ∷ ys) ≡ length (xs ++ ys) + 1
length-middle xs x ys = omega (arith, length-append xs (x ∷ ys), length-append xs ys)

Step-IsCounted : {s t : ChannelsState} → Step s t → IsCounted s → IsCounted t
Step-IsCounted (receives s c on) h = record {
  counts = omega (arith, h.counts);
  nothing_lost = omega (arith, h.nothing_lost);
  drained = λ r. cc (on, (h.drained r).0);
}
Step-IsCounted (leaves_loop s on) h = record {
  counts = h.counts;
  nothing_lost = h.nothing_lost;
  drained = λ r. (refl, (h.drained r).1);
}
Step-IsCounted (done s xs c ys e) h =
    let one_less = ap length e ∙ length-middle xs c ys in
    record {
      counts = omega (arith, h.counts, one_less);
      nothing_lost = omega (arith, h.nothing_lost, one_less);
      drained = λ r. ((h.drained r).0, omega (arith, (h.drained r).1));
    }
Step-IsCounted (waits s off zero) h = record {
  counts = h.counts;
  nothing_lost = h.nothing_lost;
  drained = λ r. (off, zero);
}

Steps-IsCounted : {s t : ChannelsState} → Steps s t → IsCounted s → IsCounted t
Steps-IsCounted (here s) h = h
Steps-IsCounted (then steps last) h = Step-IsCounted last (Steps-IsCounted steps h)

-- In whatever order channels arrive and goroutines end, once handleChannels has returned no
-- goroutine of a channel runs and every channel that arrived has been handled.
pub returned_drained :
    (s : ChannelsState)
    → Steps start s
    → s.returned ≡ true
    → (length s.running ≡ 0) × (s.arrived ≡ s.handled)
returned_drained s steps returned =
    let h =
      Steps-IsCounted steps (record { counts = refl; nothing_lost = refl; drained = λ r. cc }) in
    let empty : length s.running ≡ 0 = omega (arith, h.counts, (h.drained returned).1) in
    (empty, omega (arith, h.nothing_lost, empty))
