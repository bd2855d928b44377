-- ===== src/Channels/Session/Serving.antt =====
-- A session channel from newSession to the end of Serve.
use delegatio.Common.{
  ◌||◌, ℕ, ◌+◌, ◌≡◌, refl, sym, ap, ◌∙◌, String, Bool, false, List, [], ◌∷◌, ◌++◌, none, some,
  arith, length, length-append, append-nil, append_assoc, ◌==◌, Bool-cases, inl, inr, if◌then◌else◌,
}
use delegatio.Common.GoMap
use delegatio.Common.Outcome.{ok, err, returns, ◌>>=◌}
use delegatio.Channels.TerminalSize.Queue.{IsBounded}
use delegatio.Channels.Data.{Wire, Request, Task, CallbackData}
use delegatio.Channels.Builder.{
  Handler, Event, request, requests_closed, dispatch, serve_loop, serve, build, built,
  run_callbacks,
}
use delegatio.Channels.Session.{new_session, session_builder_skeleton}
use delegatio.Channels.Session.{new_direct_tcpip, direct_tcpip_builder_skeleton}
use delegatio.Channels.Data.{ForwardTcpChannelOpen, port_forward_task}
use delegatio.Channels.Builder.{direct_tcpip_data_is_nil}
use delegatio.Channels.Session.Replies.{
  answers, tasks, session_handler, new_session_lem, dispatch_session,
}

abbrev pub all_answers : Wire → List Request → List Bool
all_answers wire [] = []
all_answers wire (req ∷ reqs) = answers wire req ++ all_answers wire reqs

abbrev pub all_tasks : Wire → List Request → List Task
all_tasks wire [] = []
all_tasks wire (req ∷ reqs) = tasks wire req ++ all_tasks wire reqs

-- The requests arrive and then their channel is closed.
abbrev pub arriving : List Request → List Event
arriving [] = requests_closed ∷ []
arriving (req ∷ reqs) = request req ∷ arriving reqs

abbrev pub Served : Wire → List Request → CallbackData → CallbackData → Type 0
Served wire reqs rd rd' =
    (rd'.replies ≡ rd.replies ++ all_answers wire reqs)
    × (rd'.started ≡ rd.started ++ all_tasks wire reqs)
    × (rd'.wg ≡ rd.wg + length (all_tasks wire reqs))

serve_loop_lem :
    (wire : Wire) (queue : ℕ) (reqs : List Request) (rd : CallbackData)
    → IsBounded rd.terminal_resizer
    → (rd' : CallbackData) × (serve_loop (session_handler wire queue) (arriving reqs) rd
        ≡ returns tt rd')
      × Served wire reqs rd rd'
unfolding serve_loop
serve_loop_lem wire queue [] rd b =
    (rd, refl, (sym (append-nil rd.replies), sym (append-nil rd.started), omega arith))
serve_loop_lem wire queue (req ∷ reqs) rd b =
    let (rd1, dispatched, one) = dispatch_session wire queue req rd b in
    let (rd', looped, (answered, begun, counted)) =
      serve_loop_lem wire queue reqs rd1 one.bounded in
    (
      rd',
      rw (dispatched, ◌>>=◌) looped,
      (
        answered
            ∙ ap (λ l. l ++ all_answers wire reqs) one.answered
            ∙ append_assoc rd.replies (answers wire req) (all_answers wire reqs),
        begun
            ∙ ap (λ l. l ++ all_tasks wire reqs) one.begun
            ∙ append_assoc rd.started (tasks wire req) (all_tasks wire reqs),
        omega (arith, counted, one.counted, length-append (tasks wire req) (all_tasks wire reqs)),
      ),
    )

-- newSession succeeds, and when any requests arrive and then their queue is closed, the loop of
-- Serve ends: the replies are exactly those that each request calls for, in their order, the
-- goroutines are those of the shell and the well-formed subsystem requests, and the wait group
-- counts them.
pub session_served :
    (wire : Wire) (log channel queue api : ℕ) (reqs : List Request)
    → (h : Handler) × (new_session wire log channel queue api ≡ ok h)
      × (rd' : CallbackData) × (serve h (arriving reqs) h.req_data ≡ returns tt rd')
      × (rd'.replies ≡ all_answers wire reqs)
      × (rd'.started ≡ all_tasks wire reqs)
      × (rd'.wg ≡ length (all_tasks wire reqs))
unfolding session_handler session_builder_skeleton serve built
session_served wire log channel queue api reqs =
    let h = session_handler wire queue in
    let (rd', looped, (answered, begun, counted)) =
      serve_loop_lem wire queue reqs h.req_data (record { fits = omega arith }) in
    (
      h,
      new_session_lem wire log channel queue api,
      rd',
      looped,
      answered,
      begun,
      omega (arith, counted),
    )

-- The types that a direct-tcpip channel knows but does not handle.
abbrev pub is_unhandled : String → Bool
is_unhandled t = "shell" == t || "pty-req" == t || "window-change" == t || "subsystem" == t

-- The replies of a direct-tcpip channel.
abbrev pub tcpip_answers : List Request → List Bool
tcpip_answers [] = []
tcpip_answers (req ∷ reqs) =
    (if is_unhandled req.req_type then [] else false ∷ []) ++ tcpip_answers reqs

module _ (queue : ℕ) (data_open : ForwardTcpChannelOpen) where
  unfoldable pub tcpip_handler : Handler
  unfolding direct_tcpip_builder_skeleton built
  tcpip_handler =
      built
        (record direct_tcpip_builder_skeleton {
          requests = some queue;
          channel = some 0;
          logger = some 0;
          k8s_api_user = some 0;
          direct_tcpip_data = some data_open;
        })
        queue

  dispatch_tcpip :
      (req : Request) (rd : CallbackData)
      → dispatch tcpip_handler req rd
        ≡ returns tt (
            if is_unhandled req.req_type
            then rd
            else record rd { replies = rd.replies ++ false ∷ [] })
  unfolding dispatch tcpip_handler GoMap.lookup direct_tcpip_builder_skeleton built run_callbacks
  dispatch_tcpip req rd = elim (Bool-cases ("shell" == req.req_type)) [
    | inl e ↦ rw e refl
    | inr e1 ↦ elim (Bool-cases ("pty-req" == req.req_type)) [
      | inl e ↦ rw (e1, e) refl
      | inr e2 ↦ elim (Bool-cases ("window-change" == req.req_type)) [
        | inl e ↦ rw (e1, e2, e) refl
        | inr e3 ↦ elim (Bool-cases ("subsystem" == req.req_type)) [
          | inl e ↦ rw (e1, e2, e3, e) refl
          | inr e ↦ rw (e1, e2, e3, e) refl
        ]
      ]
    ]
  ]

  tcpip_loop_lem :
      (reqs : List Request) (rd : CallbackData)
      → serve_loop tcpip_handler (arriving reqs) rd
        ≡ returns tt (record rd { replies = rd.replies ++ tcpip_answers reqs })
  unfolding serve_loop
  tcpip_loop_lem [] rd = simp (append-nil rd.replies)
  tcpip_loop_lem (req ∷ reqs) rd = elim (Bool-cases (is_unhandled req.req_type)) [
    | inl e ↦ rw (dispatch_tcpip req rd, ◌>>=◌, e) (tcpip_loop_lem reqs rd)
    | inr e ↦
        rw (dispatch_tcpip req rd, ◌>>=◌, e)
          (tcpip_loop_lem reqs (record rd { replies = rd.replies ++ false ∷ [] })
            ∙ ap (λ l. returns tt (record rd { replies = l }))
                (append_assoc rd.replies (false ∷ []) (tcpip_answers reqs)))
  ]

-- newDirectTCPIP refuses a channel without its forwarding data. With them, when any requests arrive
-- and then their queue is closed, the loop of Serve ends after it has started the port forwarding
-- and nothing else; it answers no request of the types shell, pty-req, window-change and subsystem,
-- and refuses every other one.
pub tcpip_served :
    (log channel queue api : ℕ) (data_open : ForwardTcpChannelOpen) (reqs : List Request)
    → (new_direct_tcpip log channel queue api none ≡ err direct_tcpip_data_is_nil)
      × (h : Handler) × (new_direct_tcpip log channel queue api (some data_open) ≡ ok h)
      × (rd' : CallbackData) × (serve h (arriving reqs) h.req_data ≡ returns tt rd')
      × (rd'.replies ≡ tcpip_answers reqs)
      × (rd'.started ≡ port_forward_task ∷ [])
      × (rd'.wg ≡ 1)
unfolding new_direct_tcpip build tcpip_handler direct_tcpip_builder_skeleton serve built
tcpip_served log channel queue api data_open reqs =
    let h = tcpip_handler queue data_open in
    let rd = record h.req_data { wg = 1; started = port_forward_task ∷ [] } in
    (
      refl,
      h,
      refl,
      record rd { replies = tcpip_answers reqs },
      tcpip_loop_lem queue data_open reqs rd,
      refl,
      refl,
      refl,
    )
