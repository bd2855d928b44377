-- ===== src/Channels/Session/Replies.antt =====
-- What a session channel answers to its requests, and which goroutines they start.
use delegatio.Common.{
  ℕ, ◌+◌, ◌≡◌, refl, sym, ◌∙◌, Bool, true, false, List, [], ◌∷◌, ◌++◌, none, some, is_some, arith,
  length, append-nil, ◌==◌, Bool-cases, Option-cases, inl, inr, if◌then◌else◌,
}
use delegatio.Common.GoMap
use delegatio.Common.Outcome.{ok, returns, ◌>>=◌}
use delegatio.Channels.TerminalSize.{TerminalSize}
use delegatio.Channels.TerminalSize.Queue.{IsBounded, fill_returns}
use delegatio.Channels.Data.{Wire, Request, Task, shell_task, subsystem_task, CallbackData}
use delegatio.Channels.Builder.{Handler, dispatch, build, built, run_callbacks}
use delegatio.Channels.Session.{
  u16, new_session, fill_resizer, session_builder_skeleton, pty_request, subsystem_request,
  window_change_request,
}

-- The replies that a request gets.
abbrev pub answers : Wire → Request → List Bool
answers wire req =
    if "shell" == req.req_type
    then true ∷ []
    else if "pty-req" == req.req_type
    then (if is_some (wire.pty_request req.payload) then true ∷ [] else [])
    else if "window-change" == req.req_type
    then []
    else if "subsystem" == req.req_type
    then (if is_some (wire.subsystem_request req.payload) then true ∷ [] else [])
    else false ∷ []

-- The goroutines that a request starts.
abbrev pub tasks : Wire → Request → List Task
tasks wire req =
    if "shell" == req.req_type
    then shell_task ∷ []
    else if "pty-req" == req.req_type
    then []
    else if "window-change" == req.req_type
    then []
    else if "subsystem" == req.req_type
    then elim (wire.subsystem_request req.payload) [
      | none ↦ []
      | some sub_sys ↦ subsystem_task sub_sys.subsystem ∷ []
    ]
    else []

-- One more request is answered and its goroutines are counted.
pub record IsServed (wire : Wire) (rd : CallbackData) (req : Request) (rd' : CallbackData)
    : Type 0 where
  pub bounded : IsBounded rd'.terminal_resizer
  pub answered : rd'.replies ≡ rd.replies ++ answers wire req
  pub begun : rd'.started ≡ rd.started ++ tasks wire req
  pub counted : rd'.wg ≡ rd.wg + length (tasks wire req)

pub fill_resizer_lem :
    (size : TerminalSize) (rd : CallbackData)
    → IsBounded rd.terminal_resizer
    → (rd' : CallbackData) × (fill_resizer size rd ≡ returns tt rd')
      × IsBounded rd'.terminal_resizer
      × (rd'.replies ≡ rd.replies)
      × (rd'.started ≡ rd.started)
      × (rd'.wg ≡ rd.wg)
unfolding fill_resizer
fill_resizer_lem size rd h =
    let (r, w, filled, h') = fill_returns size rd.terminal_resizer h in
    (record rd { terminal_resizer = w }, rw (filled, fill_resizer), h', refl, refl, refl)

-- The handler that newSession builds.
unfoldable pub session_handler : Wire → ℕ → Handler
unfolding session_builder_skeleton built
session_handler wire requests =
    built
      (record (session_builder_skeleton wire) {
        requests = some requests;
        channel = some 0;
        logger = some 0;
        k8s_api_user = some 0;
      })
      requests

pub new_session_lem :
    (wire : Wire) (log channel requests api : ℕ)
    → new_session wire log channel requests api ≡ ok (session_handler wire requests)
unfolding new_session build session_handler
new_session_lem wire log channel requests api = refl

module _ (wire : Wire) (reqs : ℕ) (req : Request) (rd : CallbackData)
    (b : IsBounded rd.terminal_resizer) where
  abbrev pub Dispatched : Type 0
  Dispatched =
      (rd' : CallbackData) × (dispatch (session_handler wire reqs) req rd ≡ returns tt rd')
      × IsServed wire rd req rd'

  pty_dispatched :
      ("shell" == req.req_type) ≡ false → ("pty-req" == req.req_type) ≡ true → Dispatched
  unfolding dispatch session_handler GoMap.lookup session_builder_skeleton built run_callbacks
      pty_request window_change_request subsystem_request
  pty_dispatched not_shell pty = elim (Option-cases (wire.pty_request req.payload)) [
    | inl bad ↦ (
      rd,
      rw (not_shell, pty, session_builder_skeleton, pty_request, bad, ◌>>=◌),
      record {
        bounded = b;
        answered = rw (not_shell, pty, bad, append-nil rd.replies);
        begun = rw (not_shell, pty, append-nil rd.started);
        counted = rw (not_shell, pty) (omega arith);
      },
    )
    | inr (d, good) ↦ (
      record rd { pty_req_data = some d; replies = rd.replies ++ true ∷ [] },
      rw (not_shell, pty, session_builder_skeleton, pty_request, good, ◌>>=◌),
      record {
        bounded = b;
        answered = rw (not_shell, pty, good);
        begun = rw (not_shell, pty, append-nil rd.started);
        counted = rw (not_shell, pty) (omega arith);
      },
    )
  ]

  window_dispatched :
      ("shell" == req.req_type) ≡ false
      → ("pty-req" == req.req_type) ≡ false
      → ("window-change" == req.req_type) ≡ true
      → Dispatched
  unfolding dispatch session_handler GoMap.lookup session_builder_skeleton built run_callbacks
      pty_request window_change_request subsystem_request
  window_dispatched not_shell not_pty win =
      elim (Option-cases (wire.window_change_request req.payload)) [
        | inl bad ↦ (
          rd,
          rw (not_shell, not_pty, win, session_builder_skeleton, window_change_request, bad, ◌>>=◌),
          record {
            bounded = b;
            answered = rw (not_shell, not_pty, win, append-nil rd.replies);
            begun = rw (not_shell, not_pty, win, append-nil rd.started);
            counted = rw (not_shell, not_pty, win) (omega arith);
          },
        )
        | inr (d, good) ↦
            let (rd', filled, b', same_replies, same_started, same_wg) =
              fill_resizer_lem (record { width = u16 d.width_columns; height = u16 d.height_rows })
                rd b in
            (
              rd',
              rw (
                not_shell, not_pty, win, session_builder_skeleton, window_change_request, good,
                ◌>>=◌, filled,
              ),
              record {
                bounded = b';
                answered =
                    rw (not_shell, not_pty, win) (same_replies ∙ sym (append-nil rd.replies));
                begun = rw (not_shell, not_pty, win) (same_started ∙ sym (append-nil rd.started));
                counted = rw (not_shell, not_pty, win) (omega (arith, same_wg));
              },
            )
      ]

  subsystem_dispatched :
      ("shell" == req.req_type) ≡ false
      → ("pty-req" == req.req_type) ≡ false
      → ("window-change" == req.req_type) ≡ false
      → ("subsystem" == req.req_type) ≡ true
      → Dispatched
  unfolding dispatch session_handler GoMap.lookup session_builder_skeleton built run_callbacks
      pty_request window_change_request subsystem_request
  subsystem_dispatched not_shell not_pty not_win sub =
      elim (Option-cases (wire.subsystem_request req.payload)) [
        | inl bad ↦ (
          rd,
          rw (
            not_shell, not_pty, not_win, sub, session_builder_skeleton, subsystem_request, bad,
            ◌>>=◌,
          ),
          record {
            bounded = b;
            answered = rw (not_shell, not_pty, not_win, sub, bad, append-nil rd.replies);
            begun = rw (not_shell, not_pty, not_win, sub, bad, append-nil rd.started);
            counted = rw (not_shell, not_pty, not_win, sub, bad) (omega arith);
          },
        )
        | inr (d, good) ↦ (
          record rd {
            wg = rd.wg + 1;
            started = rd.started ++ subsystem_task d.subsystem ∷ [];
            replies = rd.replies ++ true ∷ [];
          },
          rw (
            not_shell, not_pty, not_win, sub, session_builder_skeleton, subsystem_request, good,
            ◌>>=◌,
          ),
          record {
            bounded = b;
            answered = rw (not_shell, not_pty, not_win, sub, good);
            begun = rw (not_shell, not_pty, not_win, sub, good);
            counted = rw (not_shell, not_pty, not_win, sub, good);
          },
        )
      ]

  default_dispatched :
      ("shell" == req.req_type) ≡ false
      → ("pty-req" == req.req_type) ≡ false
      → ("window-change" == req.req_type) ≡ false
      → ("subsystem" == req.req_type) ≡ false
      → Dispatched
  unfolding dispatch session_handler GoMap.lookup session_builder_skeleton built run_callbacks
      pty_request window_change_request subsystem_request
  default_dispatched not_shell not_pty not_win not_sub = (
    record rd { replies = rd.replies ++ false ∷ [] },
    rw (not_shell, not_pty, not_win, not_sub),
    record {
      bounded = b;
      answered = rw (not_shell, not_pty, not_win, not_sub);
      begun = rw (not_shell, not_pty, not_win, not_sub, append-nil rd.started);
      counted = rw (not_shell, not_pty, not_win, not_sub) (omega arith);
    },
  )

  pub dispatch_session : Dispatched
  unfolding dispatch session_handler GoMap.lookup session_builder_skeleton built run_callbacks
      pty_request window_change_request subsystem_request
  dispatch_session = elim (Bool-cases ("shell" == req.req_type)) [
    | inl e ↦ (
      record rd {
        wg = rd.wg + 1;
        started = rd.started ++ shell_task ∷ [];
        replies = rd.replies ++ true ∷ [];
      },
      rw e,
      record { bounded = b; answered = rw e; begun = rw e; counted = rw e },
    )
    | inr not_shell ↦ elim (Bool-cases ("pty-req" == req.req_type)) [
      | inl pty ↦ pty_dispatched not_shell pty
      | inr not_pty ↦ elim (Bool-cases ("window-change" == req.req_type)) [
        | inl win ↦ window_dispatched not_shell not_pty win
        | inr not_win ↦ elim (Bool-cases ("subsystem" == req.req_type)) [
          | inl sub ↦ subsystem_dispatched not_shell not_pty not_win sub
          | inr not_sub ↦ default_dispatched not_shell not_pty not_win not_sub
        ]
      ]
    ]
  ]
