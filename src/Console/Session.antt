-- ===== src/Console/Session.antt =====
-- A session of the remote console: `handle_session` (remote_console.c). The commands
-- (`esp_console_run`) are parameters. `none` is an access out of bounds.
pub mod Replies
pub mod Closed
mod Examples
use esp32_pppo_e_router.Base.{
  ℕ, ◌+◌, Bool, true, false, not, ◌&&◌, ◌||◌, Option, none, some, List, [], ◌∷◌, ◌++◌, map, length,
  replicate, take, leb, ltb, ◌==◌, same_bytes, if◌then◌else◌,
}
use esp32_pppo_e_router.Base.Bytes.{◌>>=◌}
use esp32_pppo_e_router.Base.Buffers.{overwrite}
use esp32_pppo_e_router.Console.Output.{CaptureBuf, Print, print_all, send_to_client_crlf}
use esp32_pppo_e_router.Console.Line.{
  Poll, NoLine, LineResult, line, no_line, disconnected, timed_out, cancelled, waiting, recv_line,
  c_string,
}

pub data EspErr : Type 0 where
  esp_ok not_found invalid_arg failure : EspErr

-- What is sent to the client (`erase_char`: "\b \b"), and the calls of `esp_console_run`, in their order
pub data Event : Type 0 where
  prompt timeout_note ctrl_c goodbye unknown_command erase_char : Event
  error_name : EspErr → Event
  output : List ℕ → Event
  run : List ℕ → Event

-- One round of the loop: whether a kick or a shutdown is requested at its start, the rounds of its
-- `recv_line`, and what a command prints and returns.
pub record Turn : Type 0 where
  pub stopped : Bool
  pub polls : List Poll
  pub command : List ℕ → List Print × EspErr

pub record Session : Type 0 where
  pub capture : CaptureBuf
  pub line_buf : List ℕ
  pub events : List Event

-- how a round ends: in the next one, behind the loop, or not yet
pub data After : Type 0 where
  continues breaks blocked : Session → After

abbrev pub line_size : ℕ
line_size = 256

abbrev pub emit : Session → List Event → Session
emit s es = record s { events = s.events ++ es }

-- "quit" and "exit"
abbrev pub is_quit : List ℕ → Bool
is_quit text =
    same_bytes text (113 ∷ 117 ∷ 105 ∷ 116 ∷ []) || same_bytes text (101 ∷ 120 ∷ 105 ∷ 116 ∷ [])

abbrev pub start_capture : CaptureBuf → Option CaptureBuf
start_capture c = c.buf >>= (λ b.
    overwrite b 0 (0 ∷ []) >>= (λ b'. some (record { buf = some b'; pos = 0; capturing = true })))

-- the captured bytes, sent when there are some
abbrev pub captured_text : CaptureBuf → Option (List ℕ)
captured_text c = c.buf >>= (λ b. if leb c.pos (length b) then some (take c.pos b) else none)

abbrev pub result_events : EspErr → List Event
result_events esp_ok = []
result_events not_found = unknown_command ∷ []
result_events invalid_arg = []
result_events failure = error_name failure ∷ []

-- a command, from its start to the prompt behind it
abbrev pub run_command : Session → List ℕ → List Print × EspErr → Option Session
run_command s text (prints, err) = start_capture s.capture >>= (λ c. print_all c prints >>= (λ d.
    captured_text d >>= (λ bytes. some (record s {
      capture = record d { capturing = false };
      events =
          s.events
          ++ run text
            ∷ (map output (send_to_client_crlf true bytes) ++ (result_events err ++ prompt ∷ []));
    }))))

abbrev pub on_line : Turn → Session → LineResult × List ℕ → Option After
on_line t s (line n, buf) =
    if n == 0
    then some (continues (emit (record s { line_buf = buf }) (prompt ∷ [])))
    else if is_quit (c_string buf)
    then some (breaks (emit (record s { line_buf = buf }) (goodbye ∷ [])))
    else run_command (record s { line_buf = buf }) (c_string buf) (t.command (c_string buf))
      >>= (λ r. some (continues r))
on_line t s (no_line timed_out, buf) =
    some (breaks (emit (record s { line_buf = buf }) (timeout_note ∷ [])))
on_line t s (no_line cancelled, buf) =
    some (continues (emit (record s { line_buf = buf }) (ctrl_c ∷ prompt ∷ [])))
on_line t s (no_line disconnected, buf) = some (breaks (record s { line_buf = buf }))
on_line t s (no_line waiting, buf) = some (blocked (record s { line_buf = buf }))

unfoldable pub turn : ℕ → Turn → Session → Option After
turn timeout_sec t s =
    if t.stopped
    then some (breaks s)
    else recv_line line_size timeout_sec t.polls s.line_buf
      >>= (λ read. on_line t (emit s (replicate read.1 erase_char)) read.0)

abbrev pub close : Session → Session
close s = record s { capture = record { buf = none; pos = 0; capturing = false } }

-- a session that has ended, or that waits for its client
pub data SessionResult : Type 0 where
  ended open_ : Session → SessionResult

abbrev pub go_on : (Session → Option SessionResult) → Option After → Option SessionResult
go_on more none = none
go_on more (some (continues s)) = more s
go_on more (some (breaks s)) = some (ended (close s))
go_on more (some (blocked s)) = some (open_ s)

unfoldable pub session_loop : ℕ → List Turn → Session → Option SessionResult
unfolding turn
session_loop timeout_sec [] s = some (open_ s)
session_loop timeout_sec (t ∷ ts) s = go_on (session_loop timeout_sec ts) (turn timeout_sec t s)

-- `area`: what `malloc` gives
unfoldable pub handle_session : ℕ → List Turn → Option (List ℕ) → Session → Option SessionResult
unfolding session_loop
handle_session timeout_sec ts none s =
    some (ended (record s { capture = record (s.capture) { buf = none } }))
handle_session timeout_sec ts (some area) s =
    session_loop timeout_sec ts
      (emit (record s { capture = record (s.capture) { buf = some area } }) (prompt ∷ []))
