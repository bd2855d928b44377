-- ===== src/Ssh/Server/Connections.antt =====
-- The counters of the server, and which connections it serves.
use delegatio.Common.{ℕ, ◌+◌, ◌≤◌, ◌≡◌, refl, true, false, arith, ap, sym, ◌∙◌}
use delegatio.Ssh.Server.{
  AcceptPoint, in_accept, returned, added, counted, ServerState, ServerStep, accepts, adds, counts,
  starts, dones, leaves, closes, stops,
}

pub data ServerRun : ServerState → ServerState → Type 0 where
  here : (s : ServerState) → ServerRun s s
  then : {s t u : ServerState} → ServerRun s t → ServerStep t u → ServerRun s u

abbrev pub started : ServerState
started = record {
  point = in_accept;
  live = 0;
  leaving = 0;
  handle_conn_wg = 0;
  current_connections = 0;
  listening = true;
  stopped = false;
}

-- What the accept goroutine has counted of the connection that it holds.
abbrev pub in_wg : AcceptPoint → ℕ
in_wg in_accept = 0
in_wg returned = 0
in_wg added = 1
in_wg counted = 1

abbrev pub in_current : AcceptPoint → ℕ
in_current in_accept = 0
in_current returned = 0
in_current added = 0
in_current counted = 1

abbrev pub holds : AcceptPoint → ℕ
holds in_accept = 0
holds returned = 1
holds added = 1
holds counted = 1

pub record IsCounted (s : ServerState) : Type 0 where
  pub wg : s.handle_conn_wg ≡ s.live + in_wg s.point
  pub current : s.current_connections ≡ s.live + s.leaving + in_current s.point
  pub closed_first : s.stopped ≡ true → s.listening ≡ false
  pub at_most_one : s.stopped ≡ true → s.live + holds s.point ≤ 1

holds_one : (p : AcceptPoint) → holds p ≤ 1
holds_one in_accept = omega arith
holds_one returned = omega arith
holds_one added = omega arith
holds_one counted = omega arith

none_counted : (p : AcceptPoint) (n : ℕ) → n + in_wg p ≡ 0 → n + holds p ≤ 1
none_counted p n h = omega (arith, h, holds_one p)

step-IsCounted : {s t : ServerState} → ServerStep s t → IsCounted s → IsCounted t
step-IsCounted (accepts s on at) h = record {
  wg = omega (arith, h.wg, ap in_wg at);
  current = omega (arith, h.current, ap in_current at);
  closed_first = h.closed_first;
  at_most_one = λ r. absurd (ground (arith, h.closed_first r, on));
}
step-IsCounted (adds s at) h = record {
  wg = omega (arith, h.wg, ap in_wg at);
  current = omega (arith, h.current, ap in_current at);
  closed_first = h.closed_first;
  at_most_one = λ r. omega (arith, h.at_most_one r, ap holds at);
}
step-IsCounted (counts s at) h = record {
  wg = omega (arith, h.wg, ap in_wg at);
  current = omega (arith, h.current, ap in_current at);
  closed_first = h.closed_first;
  at_most_one = λ r. omega (arith, h.at_most_one r, ap holds at);
}
step-IsCounted (starts s at) h = record {
  wg = omega (arith, h.wg, ap in_wg at);
  current = omega (arith, h.current, ap in_current at);
  closed_first = h.closed_first;
  at_most_one = λ r. omega (arith, h.at_most_one r, ap holds at);
}
step-IsCounted (dones s others one_more) h = record {
  wg = omega (arith, h.wg);
  current = omega (arith, h.current);
  closed_first = h.closed_first;
  at_most_one = λ r. omega (arith, h.at_most_one r);
}
step-IsCounted (leaves s others one_more) h = record {
  wg = h.wg;
  current = omega (arith, h.current);
  closed_first = h.closed_first;
  at_most_one = h.at_most_one;
}
step-IsCounted (closes s) h = record {
  wg = h.wg;
  current = h.current;
  closed_first = λ r. refl;
  at_most_one = h.at_most_one;
}
step-IsCounted (stops s off none_left) h = record {
  wg = h.wg;
  current = h.current;
  closed_first = λ r. off;
  at_most_one = λ r. none_counted s.point s.live (sym h.wg ∙ none_left);
}

-- In whatever order connections arrive and end and the server stops, with a state after each statement:
-- the wait group is the number of connections before their Done, with the one that the accept goroutine
-- has added and not yet started; the logged number is that of the connections before their decrement,
-- with the one counted and not yet started; and once Start has returned at most one connection, accepted
-- before the listener closed, is served or waits to be.
pub run-IsCounted : {s : ServerState} → ServerRun started s → IsCounted s
run-IsCounted (here _) = record {
  wg = refl;
  current = refl;
  closed_first = λ r. cc;
  at_most_one = λ r. omega arith;
}
run-IsCounted (then run last) = step-IsCounted last (run-IsCounted run)
