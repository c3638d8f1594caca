-- ===== src/Console/Session/Examples.antt =====
-- A session (`handle_session` in remote_console.c) with one command.
use esp32_pppo_e_router.Base.{
  ℕ, ◌≡◌, refl, false, Option, none, some, List, [], ◌∷◌, map, length-replicate, replicate,
}
use esp32_pppo_e_router.Console.Output.{wrap_puts, rc_capture_buf_size}
use esp32_pppo_e_router.Console.Line.{received, Poll}
use esp32_pppo_e_router.Console.Session.{
  esp_ok, Turn, Session, SessionResult, line_size, handle_session,
}
use esp32_pppo_e_router.Console.Session.Closed.{Settled, handle_session-Settled}

abbrev poll : ℕ → Poll
poll c = record { interrupted = false; elapsed = 0; recv = received c }

-- "uxp" with the "x" taken off: "up", which prints "ok"
abbrev up : Turn
up = record {
  stopped = false;
  polls = map poll (117 ∷ 120 ∷ 8 ∷ 112 ∷ 10 ∷ []);
  command = λ text. (wrap_puts (111 ∷ 107 ∷ []) ∷ [], esp_ok);
}

abbrev fresh : Option (List ℕ) → Session
fresh area = record {
  capture = record { buf = area; pos = 0; capturing = false };
  line_buf = replicate line_size 0;
  events = [];
}

abbrev area : List ℕ
area = replicate rc_capture_buf_size 0

handle_session-Settled_example :
    (r : SessionResult) × (handle_session 300 (up ∷ []) (some area) (fresh none) ≡ some r)
    × Settled r
handle_session-Settled_example =
    handle_session-Settled 300 (up ∷ []) (some area) (fresh none)
      (length-replicate {A = ℕ} rc_capture_buf_size 0) refl (length-replicate {A = ℕ} line_size 0)
