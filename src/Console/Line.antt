-- ===== src/Console/Line.antt =====
-- A line that the remote console reads from its client: `recv_line` (remote_console.c). `none` is a
-- write out of bounds.
pub mod Editor
mod Examples
use esp32_pppo_e_router.Base.{
  ℕ, ◌+◌, ◌-◌, ◌*◌, Bool, true, false, ◌&&◌, ◌||◌, Option, none, some, List, [], ◌∷◌, leb, ltb,
  ◌==◌, if◌then◌else◌,
}
use esp32_pppo_e_router.Base.Bytes.{◌>>=◌}
use esp32_pppo_e_router.Base.Buffers.{overwrite}

-- what `recv` gives: a byte, nothing within its second, an error, the end of the connection
pub data Recv : Type 0 where
  received : ℕ → Recv
  again failed closed : Recv

-- What one round of the loop observes: whether a kick or a shutdown is requested, the microseconds
-- since the start, and what `recv` gives.
pub record Poll : Type 0 where
  pub interrupted : Bool
  pub elapsed : ℕ
  pub recv : Recv

-- -1, -2 and -3. `waiting`: it has not returned yet.
pub data NoLine : Type 0 where
  disconnected timed_out cancelled waiting : NoLine

-- the result: the length of the line, or why there is none
pub data LineResult : Type 0 where
  line : ℕ → LineResult
  no_line : NoLine → LineResult

-- How a round ends: with a return, in the next round, or in the next round when "\b \b" has been
-- sent.
pub data Round : Type 0 where
  back : LineResult → List ℕ → Round
  next erased : List ℕ → ℕ → Round

-- the result and the buffer, and how often "\b \b" was sent
abbrev pub Read : Type 0
Read = (LineResult × List ℕ) × ℕ

abbrev pub is_backspace : ℕ → Bool
is_backspace c = c == 8 || c == 127

abbrev pub is_printable : ℕ → Bool
is_printable c = leb 32 c && ltb c 127

abbrev pub put_end : List ℕ → ℕ → Option Round
put_end buf pos = overwrite buf pos (0 ∷ []) >>= (λ b. some (back (line pos) b))

-- the special characters
abbrev pub on_char : List ℕ → ℕ → ℕ → Option Round
on_char buf pos c =
    if c == 13
    then some (next buf pos)
    else if c == 10
    then put_end buf pos
    else if is_backspace c
    then some (if ltb 0 pos then erased buf (pos - 1) else next buf pos)
    else if c == 3
    then some (back (no_line cancelled) buf)
    else if c == 4
    then some (back (no_line disconnected) buf)
    else if is_printable c
    then overwrite buf pos (c ∷ []) >>= (λ b. some (next b (pos + 1)))
    else some (next buf pos)

abbrev pub on_recv : List ℕ → ℕ → Recv → Option Round
on_recv buf pos (received c) = on_char buf pos c
on_recv buf pos again = some (next buf pos)
on_recv buf pos failed = some (back (no_line disconnected) buf)
on_recv buf pos closed = some (back (no_line disconnected) buf)

abbrev pub is_late : ℕ → Poll → Bool
is_late timeout_sec p = ltb 0 timeout_sec && ltb (timeout_sec * 1000000) p.elapsed

abbrev pub on_poll : ℕ → List ℕ → ℕ → Poll → Option Round
on_poll timeout_sec buf pos p =
    if p.interrupted
    then some (back (no_line disconnected) buf)
    else if is_late timeout_sec p
    then some (back (no_line timed_out) buf)
    else on_recv buf pos p.recv

abbrev pub one_more : Option Read → Option Read
one_more none = none
one_more (some (read, n)) = some (read, n + 1)

abbrev pub go_on : (List ℕ → ℕ → Option Read) → Option Round → Option Read
go_on more none = none
go_on more (some (back r b)) = some ((r, b), 0)
go_on more (some (next b pos)) = more b pos
go_on more (some (erased b pos)) = one_more (more b pos)

abbrev pub finish : List ℕ → ℕ → Option Read
finish buf pos = overwrite buf pos (0 ∷ []) >>= (λ b. some ((line pos, b), 0))

-- the loop and the end behind it, for the rounds that have passed
unfoldable pub recv_loop : ℕ → ℕ → List Poll → List ℕ → ℕ → Option Read
recv_loop max_len timeout_sec [] buf pos =
    if ltb pos (max_len - 1) then some ((no_line waiting, buf), 0) else finish buf pos
recv_loop max_len timeout_sec (p ∷ ps) buf pos =
    if ltb pos (max_len - 1)
    then go_on (recv_loop max_len timeout_sec ps) (on_poll timeout_sec buf pos p)
    else finish buf pos

-- `recv_line(fd, buf, max_len, timeout_sec)`
unfoldable pub recv_line : ℕ → ℕ → List Poll → List ℕ → Option Read
unfolding recv_loop
recv_line max_len timeout_sec ps buf = recv_loop max_len timeout_sec ps buf 0

-- the C string in a buffer
abbrev pub c_string : List ℕ → List ℕ
c_string [] = []
c_string (c ∷ cs) = let rest = c_string cs in if c == 0 then [] else c ∷ rest
