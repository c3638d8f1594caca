-- ===== src/Console/Session/Closed.antt =====
-- Sessions (`handle_session` in remote_console.c) stay in bounds, and leave nothing behind.
use esp32_pppo_e_router.Base.{
  ℕ, ◌≡◌, refl, ◌∙◌, arith, false, inl, inr, Bool-cases, Option, none, some, List, [], ◌∷◌, length,
  ◌==◌,
}
use esp32_pppo_e_router.Console.Output.{rc_capture_buf_size}
use esp32_pppo_e_router.Console.Line.{
  LineResult, line, no_line, disconnected, timed_out, cancelled, waiting, c_string,
}
use esp32_pppo_e_router.Console.Line.Editor.{result_of, recv_line-edit}
use esp32_pppo_e_router.Console.Session.{
  emit, Turn, Session, After, continues, breaks, blocked, SessionResult, ended, open_, line_size,
  is_quit, on_line, turn, go_on, session_loop, handle_session,
}
use esp32_pppo_e_router.Console.Session.Replies.{
  rubbed, Ready, typed, run_command-reply, turn-on_line,
}

abbrev ReadyAfter : After → Type 0
ReadyAfter (continues s) = Ready s
ReadyAfter (breaks s) = Unit
ReadyAfter (blocked s) = Ready s

on_line-Ready :
    (t : Turn) (s : Session) (r : LineResult) (buf : List ℕ)
    → Ready s
    → length buf ≡ line_size
    → (a : After) × (on_line t s (r, buf) ≡ some a) × ReadyAfter a
on_line-Ready t s (line n) buf (area, off, lines) size = elim (Bool-cases (n == 0)) [
  | inl e ↦ rw e (_, refl, (area, off, size))
  | inr e ↦ elim (Bool-cases (is_quit (c_string buf))) [
    | inl e' ↦ rw (e, e') (_, refl, tt)
    | inr e' ↦
        let (s', pieces, ran, events, sent, ready) =
          run_command-reply (record s { line_buf = buf }) (c_string buf)
            ((t.command (c_string buf)).0) ((t.command (c_string buf)).1) (area, off, size) in
        (continues s', rw (e, e', ran) refl, ready)
  ]
]
on_line-Ready t s (no_line timed_out) buf (area, off, lines) size = (_, refl, tt)
on_line-Ready t s (no_line cancelled) buf (area, off, lines) size = (_, refl, (area, off, size))
on_line-Ready t s (no_line disconnected) buf (area, off, lines) size = (_, refl, tt)
on_line-Ready t s (no_line waiting) buf (area, off, lines) size = (_, refl, (area, off, size))

turn-Ready :
    (timeout_sec : ℕ) (t : Turn) (s : Session)
    → Ready s
    → (a : After) × (turn timeout_sec t s ≡ some a) × ReadyAfter a
unfolding turn
turn-Ready timeout_sec t s (area, off, lines) =
    let (buf, e, size, held) =
      recv_line-edit line_size timeout_sec t.polls s.line_buf lines (omega arith) in
    let (a, e', ready) =
      on_line-Ready t (emit s (rubbed timeout_sec t)) (result_of (typed timeout_sec t)) buf
        (area, off, lines) size in
    elim (Bool-cases t.stopped) [
      | inl on ↦ (breaks s, rw on refl, tt)
      | inr on ↦ (
        a,
        turn-on_line timeout_sec t s ((result_of (typed timeout_sec t), buf), _) on e ∙ e',
        ready,
      )
    ]

-- A session that has ended captures nothing and holds no area; one that waits has its buffers.
abbrev pub Settled : SessionResult → Type 0
Settled (ended s) = (s.capture.buf ≡ none) × (s.capture.capturing ≡ false)
Settled (open_ s) = Ready s

go_on-Settled :
    (more : Session → Option SessionResult) (out : Option After) (a : After)
    → ((s : Session) → Ready s → (r : SessionResult) × (more s ≡ some r) × Settled r)
    → out ≡ some a
    → ReadyAfter a
    → (r : SessionResult) × (go_on more out ≡ some r) × Settled r
go_on-Settled more out (continues s) follow e ready = rw e (follow s ready)
go_on-Settled more out (breaks s) follow e ready = rw e (_, refl, (refl, refl))
go_on-Settled more out (blocked s) follow e ready = rw e (_, refl, ready)

session_loop-Settled :
    (timeout_sec : ℕ) (ts : List Turn) (s : Session)
    → Ready s
    → (r : SessionResult) × (session_loop timeout_sec ts s ≡ some r) × Settled r
unfolding session_loop
session_loop-Settled timeout_sec [] s ready = (_, refl, ready)
session_loop-Settled timeout_sec (t ∷ ts) s ready =
    let (a, e, ready') = turn-Ready timeout_sec t s ready in
    go_on-Settled (session_loop timeout_sec ts) _ a
      (λ s' r. session_loop-Settled timeout_sec ts s' r) e ready'

-- what `malloc` gives: nothing, or an area of its size
abbrev pub IsArea : Option (List ℕ) → Type 0
IsArea none = Unit
IsArea (some area) = length area ≡ rc_capture_buf_size

-- Whatever the client types and the commands print, no access of a session is out of bounds, and
-- when the session has ended, the capture is off and its area is gone.
pub handle_session-Settled :
    (timeout_sec : ℕ) (ts : List Turn) (area : Option (List ℕ)) (s : Session)
    → IsArea area
    → s.capture.capturing ≡ false
    → length s.line_buf ≡ line_size
    → (r : SessionResult) × (handle_session timeout_sec ts area s ≡ some r) × Settled r
unfolding handle_session
handle_session-Settled timeout_sec ts none s size off lines = (_, refl, (refl, off))
handle_session-Settled timeout_sec ts (some area) s size off lines =
    session_loop-Settled timeout_sec ts _ ((area, refl, size), off, lines)
