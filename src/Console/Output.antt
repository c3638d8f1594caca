-- ===== src/Console/Output.antt =====
-- The output of the remote console (remote_console.c): what the wrapped print functions capture
-- while a command runs, and how the captured text is sent. `none` is a write out of bounds.
pub mod Captured
pub mod Sent
use esp32_pppo_e_router.Base.{
  ℕ, ◌+◌, ◌-◌, Bool, true, false, not, ◌&&◌, ◌||◌, Option, none, some, List, [], ◌∷◌, ◌++◌, length,
  take, leb, ltb, ◌==◌, if◌then◌else◌,
}
use esp32_pppo_e_router.Base.Bytes.{◌>>=◌}
use esp32_pppo_e_router.Base.Buffers.{overwrite}

-- `rc_capture_buf`, `rc_capture_pos` and `rc_capturing`
pub record CaptureBuf : Type 0 where
  pub buf : Option (List ℕ)
  pub pos : ℕ
  pub capturing : Bool

abbrev pub rc_capture_buf_size : ℕ
rc_capture_buf_size = 10240

abbrev copy_len_of : ℕ → ℕ → ℕ
copy_len_of pos len =
    if leb rc_capture_buf_size (pos + len) then rc_capture_buf_size - 1 - pos else len

abbrev pub add_to : CaptureBuf → List ℕ → Option (List ℕ) → Option CaptureBuf
add_to s text none = some s
add_to s text (some buf) =
    if leb (rc_capture_buf_size - 1) s.pos
    then some s
    else let copy_len = copy_len_of s.pos (length text) in
      overwrite buf s.pos (take copy_len text) >>= (λ b.
        overwrite b (s.pos + copy_len) (0 ∷ [])
        >>= (λ b'. some (record s { buf = some b'; pos = s.pos + copy_len })))

unfoldable pub rc_capture_add : CaptureBuf → List ℕ → Option CaptureBuf
rc_capture_add s text = if not s.capturing || length text == 0 then some s else add_to s text s.buf

-- A call of a wrapped function, with its text. For `fputs` and `fwrite`: whether the stream is
-- stdout or stderr. What `printf` formats is the full text.
pub data Print : Type 0 where
  wrap_printf wrap_puts : List ℕ → Print
  wrap_putchar : ℕ → Print
  wrap_fputs wrap_fwrite : List ℕ → Bool → Print

abbrev pub printf_size : ℕ
printf_size = 256

abbrev pub line_end : List ℕ
line_end = 10 ∷ []

abbrev pub printf_text : List ℕ → List ℕ
printf_text text = if ltb (length text) printf_size then text else take (printf_size - 1) text

-- what a call adds to the buffer
unfoldable pub print : CaptureBuf → Print → Option CaptureBuf
unfolding rc_capture_add
print s (wrap_printf text) = rc_capture_add s (printf_text text)
print s (wrap_puts text) = rc_capture_add s text >>= (λ t. rc_capture_add t line_end)
print s (wrap_putchar c) = rc_capture_add s (c ∷ [])
print s (wrap_fputs text to_console) = if to_console then rc_capture_add s text else some s
print s (wrap_fwrite text to_console) = if to_console then rc_capture_add s text else some s

unfoldable pub print_all : CaptureBuf → List Print → Option CaptureBuf
print_all s [] = some s
print_all s (p ∷ ps) = print s p >>= (λ t. print_all t ps)

abbrev pub is_cr : Option ℕ → Bool
is_cr none = false
is_cr (some c) = c == 13

abbrev pub net_buf_size : ℕ
net_buf_size = 512

-- one round of `send_to_client_crlf`: the bytes in `net_buf` after the character `c` behind `prev`
abbrev pub put_crlf : List ℕ → Option ℕ → ℕ → List ℕ
put_crlf net prev c =
    let with_cr =
      if c == 10 && not (is_cr prev) && ltb (length net) (net_buf_size - 1)
      then net ++ (13 ∷ [])
      else net in
    if ltb (length with_cr) net_buf_size then with_cr ++ (c ∷ []) else with_cr

abbrev pub is_full : List ℕ → Bool
is_full net = leb (net_buf_size - 2) (length net)

-- the loop: the pieces that are sent
unfoldable pub crlf_pieces : List ℕ → Option ℕ → List ℕ → List (List ℕ)
crlf_pieces [] prev net = if ltb 0 (length net) then net ∷ [] else []
crlf_pieces (c ∷ cs) prev net =
    let net' = put_crlf net prev c in
    let rest = crlf_pieces cs (some c) (if is_full net' then [] else net') in
    if is_full net' then net' ∷ rest else rest

-- `connected`: the file descriptor is valid
unfoldable pub send_to_client_crlf : Bool → List ℕ → List (List ℕ)
unfolding crlf_pieces
send_to_client_crlf connected text =
    if not connected || length text == 0 then [] else crlf_pieces text none []
