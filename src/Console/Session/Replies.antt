-- ===== src/Console/Session/Replies.antt =====
-- What a session (`handle_session` in remote_console.c) sends for a command.
use esp32_pppo_e_router.Base.{
  ℕ, ◌-◌, ◌≡◌, refl, ap, ◌∙◌, arith, true, false, none, some, List, [], ◌∷◌, ◌++◌, replicate, map,
  length, take, leb, le→leb,
}
use esp32_pppo_e_router.Base.Buffers.{overwrite-some, flat}
use esp32_pppo_e_router.Console.Output.{CaptureBuf, Print, rc_capture_buf_size, send_to_client_crlf}
use esp32_pppo_e_router.Console.Output.Captured.{start, room, printed_all, print_all-bytes}
use esp32_pppo_e_router.Console.Output.Sent.{crlf, send_to_client_crlf-crlf}
use esp32_pppo_e_router.Console.Line.{Read, recv_line}
use esp32_pppo_e_router.Console.Line.Editor.{Reading, key, edit, erasures}
use esp32_pppo_e_router.Console.Session.{
  erase_char, emit, EspErr, Event, prompt, output, run, Turn, Session, line_size, start_capture,
  captured_text, result_events, run_command, on_line, turn,
}

-- between two commands: the buffers have their sizes, and nothing is captured
abbrev pub Ready : Session → Type 0
Ready s =
    ((b : List ℕ) × (s.capture.buf ≡ some b) × (length b ≡ rc_capture_buf_size))
    × (s.capture.capturing ≡ false)
    × (length s.line_buf ≡ line_size)

-- the events of a command, with the pieces that are sent
abbrev pub reply : List ℕ → List (List ℕ) → EspErr → List Event
reply cs pieces err = run cs ∷ (map output pieces ++ (result_events err ++ prompt ∷ []))

start_capture-start :
    (c : CaptureBuf) (b : List ℕ)
    → c.buf ≡ some b
    → length b ≡ rc_capture_buf_size
    → (b' : List ℕ) × (start_capture c ≡ some (start b')) × (length b' ≡ rc_capture_buf_size)
start_capture-start c b held size =
    let (b', e, size') = overwrite-some b 0 (0 ∷ []) (omega (arith, size)) in
    (b', rw (held, e) refl, size' ∙ size)

pub run_command-reply :
    (s : Session) (cs : List ℕ) (prints : List Print) (err : EspErr)
    → Ready s
    → (s' : Session) × (pieces : List (List ℕ)) × (run_command s cs (prints, err) ≡ some s')
      × (s'.events ≡ s.events ++ reply cs pieces err)
      × (flat pieces ≡ crlf none (take room (printed_all prints)))
      × Ready s'
run_command-reply s cs prints err ((b, held, size), off, lines) =
    let (b', e, size') = start_capture-start s.capture b held size in
    let (d, bd, e', held', bytes, low, size'') = print_all-bytes b' prints size' in
    let sent = take d.pos bd in
    let fits : leb d.pos (length bd) ≡ true = le→leb _ _ (omega (arith, low)) in
    let got : captured_text d ≡ some sent = rw (held', fits) refl in
    (
      record s {
        capture = record d { capturing = false };
        events = s.events ++ reply cs (send_to_client_crlf true sent) err;
      },
      send_to_client_crlf true sent,
      rw (e, e', got) refl,
      refl,
      send_to_client_crlf-crlf sent ∙ ap (crlf none) bytes,
      ((bd, held', size''), refl, lines),
    )

-- what the client types in a round
abbrev pub typed : ℕ → Turn → Reading
typed timeout_sec t = edit (line_size - 1) (map (key timeout_sec) t.polls) []

-- "\b \b", as often as the client takes off a character
abbrev pub rubbed : ℕ → Turn → List Event
rubbed timeout_sec t =
    replicate (erasures (line_size - 1) (map (key timeout_sec) t.polls) []) erase_char

pub turn-on_line :
    (timeout_sec : ℕ) (t : Turn) (s : Session) (read : Read)
    → t.stopped ≡ false
    → recv_line line_size timeout_sec t.polls s.line_buf ≡ some read
    → turn timeout_sec t s ≡ on_line t (emit s (replicate read.1 erase_char)) read.0
unfolding turn
turn-on_line timeout_sec t s read on e = rw (on, e) refl
