-- ===== src/Console/Line/Examples.antt =====
-- `recv_line` (remote_console.c) on a short line with a mistake in it.
use esp32_pppo_e_router.Base.{ℕ, ◌≡◌, refl, arith, true, false, some, List, [], ◌∷◌, map}
use esp32_pppo_e_router.Console.Line.{
  Recv, received, again, Poll, line, no_line, disconnected, recv_line,
}
use esp32_pppo_e_router.Console.Line.Editor.{key, edit, erasures, Reads, recv_line-edit}

abbrev poll : Recv → Poll
poll r = record { interrupted = false; elapsed = 0; recv = r }

-- "ax", a backspace, "b" and Enter
abbrev keys : List Poll
keys =
    map poll (
      received 97
      ∷ received 120
      ∷ again
      ∷ received 8
      ∷ received 98
      ∷ received 13
      ∷ received 10
      ∷ [])

abbrev area : List ℕ
area = 1 ∷ 2 ∷ 3 ∷ 4 ∷ []

two_letters : recv_line 4 60 keys area ≡ some ((line 2, 97 ∷ 98 ∷ 0 ∷ 4 ∷ []), 1)
unfolding recv_line
two_letters = refl

kicked :
    recv_line 4 60 (record { interrupted = true; elapsed = 0; recv = again } ∷ []) area
    ≡ some ((no_line disconnected, area), 0)
unfolding recv_line
kicked = refl

recv_line-edit_example :
    Reads 4
      (edit 3 (map (key 60) keys) [])
      (erasures 3 (map (key 60) keys) [])
      (recv_line 4 60 keys area)
recv_line-edit_example = recv_line-edit 4 60 keys area refl (omega arith)
