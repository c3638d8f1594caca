-- ===== src/Console/Output/Captured.antt =====
-- What the wrapped print functions (remote_console.c) leave in the capture buffer.
use esp32_pppo_e_router.Base.{
  ℕ, suc, ◌+◌, ◌-◌, ◌≤◌, ◌<◌, ◌≡◌, refl, sym, ap, ◌∙◌, arith, true, false, Option, none, some, inl,
  inr, List, [], ◌∷◌, ◌++◌, append-nil, append_assoc, length, min, length-append, length-take,
  length-drop, take, drop, leb, ◌==◌, if◌then◌else◌, Bool-cases,
}
use esp32_pppo_e_router.Base.Buffers.{
  overwrite, overwrite-append, take-append_le, take-append_add, take-append_self, take-all,
}
use esp32_pppo_e_router.Base.Bytes.{◌>>=◌}
use esp32_pppo_e_router.Console.Output.{
  CaptureBuf, rc_capture_buf_size, copy_len_of, add_to, rc_capture_add, Print, wrap_printf,
  wrap_puts, wrap_putchar, wrap_fputs, wrap_fwrite, printf_text, print, print_all, line_end,
}

-- the text of a call that goes to the buffer
unfoldable pub printed : Print → List ℕ
printed (wrap_printf text) = printf_text text
printed (wrap_puts text) = text ++ line_end
printed (wrap_putchar c) = c ∷ []
printed (wrap_fputs text to_console) = if to_console then text else []
printed (wrap_fwrite text to_console) = if to_console then text else []

unfoldable pub printed_all : List Print → List ℕ
printed_all [] = []
printed_all (p ∷ ps) = printed p ++ printed_all ps

abbrev pub room : ℕ
room = rc_capture_buf_size - 1

-- The buffer holds the first 10239 bytes of the text, and its end is still behind them.
unfoldable pub Captured : CaptureBuf → List ℕ → Type 0
Captured s text =
    (done : List ℕ) × (rest : List ℕ) × (s.buf ≡ some (done ++ rest))
    × (s.pos ≡ length done)
    × (done ≡ take room text)
    × (length done + length rest ≡ rc_capture_buf_size)
    × (s.capturing ≡ true)

-- Two writes, of a text and of the end behind it, where there is room for both.
writes :
    (done rest src : List ℕ) (n : ℕ)
    → length src ≡ n
    → length src < length rest
    → (rest' : List ℕ) × ((overwrite (done ++ rest) (length done) src
          >>= (λ b. overwrite b (length done + n) (0 ∷ [])))
        ≡ some ((done ++ src) ++ rest'))
      × (length src + length rest' ≡ length rest)
writes done rest src n e h =
    let left = drop (length src) rest in
    let size : length left ≡ length rest - length src = length-drop (length src) rest in
    let first = overwrite-append done rest src (omega arith) in
    let second = overwrite-append (done ++ src) left (0 ∷ []) (omega (arith, size)) in
    (
      (0 ∷ []) ++ drop 1 left,
      rw (sym e, first, sym (append_assoc done src left), sym (length-append done src)) second,
      omega (arith, size, length-drop 1 left),
    )

copy_len_le :
    (pos len : ℕ) → pos < room → (copy_len_of pos len ≤ len) × (pos + copy_len_of pos len ≤ room)
copy_len_le pos len h = ground arith

-- What fits of a text behind the first bytes is what the first bytes of both together are.
take_fits :
    (all text : List ℕ)
    → length all < room
    → all ++ take (copy_len_of (length all) (length text)) text ≡ take room (all ++ text)
take_fits all text h = elim (Bool-cases (leb rc_capture_buf_size (length all + length text))) [
  | inl cut ↦
      let e : length all + (room - length all) ≡ room = omega arith in
      rw cut (
        sym (take-append_add (room - length all) all text) ∙ ap (λ (k : ℕ). take k (all ++ text)) e)
  | inr whole ↦ rw whole (
      ap (λ r. all ++ r) (take-all (length text) text (omega arith))
      ∙ sym (take-all room (all ++ text) (ground (arith, whole, length-append all text))))
]

bind-some :
    (m : Option (List ℕ)) (f : List ℕ → Option (List ℕ)) (k : List ℕ → Option CaptureBuf)
    (x : List ℕ)
    → (m >>= f) ≡ some x
    → (m >>= (λ a. f a >>= k)) ≡ k x
bind-some none f k x h = absurd (ground (arith, h))
bind-some (some a) f k x h = rw h refl

leb_false→lt : (a b c : ℕ) → leb a b ≡ false → b ≡ c → c < a
leb_false→lt a b c h e = ground arith

leb_true→le : (a b c : ℕ) → leb a b ≡ true → b ≡ c → a ≤ c
leb_true→le a b c h e = ground arith

add_to_open :
    (s : CaptureBuf) (text buf x : List ℕ) (n : ℕ)
    → leb room s.pos ≡ false
    → s.pos ≡ n
    → (overwrite buf n (take (copy_len_of n (length text)) text)
        >>= (λ b. overwrite b (n + copy_len_of n (length text)) (0 ∷ [])))
      ≡ some x
    → add_to s text (some buf)
      ≡ some (record s { buf = some x; pos = n + copy_len_of n (length text) })
add_to_open s text buf x n open_ at w =
    rw (open_, at)
      (bind-some (overwrite buf n (take (copy_len_of n (length text)) text))
        (λ b. overwrite b (n + copy_len_of n (length text)) (0 ∷ []))
        (λ b. some (record s { buf = some b; pos = n + copy_len_of n (length text) })) x w)

add_to-Captured :
    (s : CaptureBuf) (done rest text all : List ℕ)
    → s.buf ≡ some (done ++ rest)
    → s.pos ≡ length done
    → done ≡ take room all
    → length done + length rest ≡ rc_capture_buf_size
    → s.capturing ≡ true
    → (t : CaptureBuf) × (add_to s text (some (done ++ rest)) ≡ some t) × Captured t (all ++ text)
unfolding Captured
add_to-Captured s done rest text all held at first size on =
    let len : length done ≡ min room (length all) = ap length first ∙ length-take room all in
    elim (Bool-cases (leb room s.pos)) [
      | inl full ↦
          let high : room ≤ length done = leb_true→le room s.pos (length done) full at in
          let cut = sym (take-append_le room all text (omega (arith, len, high))) in
          (s, rw full refl, (done, rest, held, at, first ∙ cut, size, on))
      | inr open_ ↦
          let low : length done < room = leb_false→lt room s.pos (length done) open_ at in
          let whole : done ≡ all = first ∙ take-all room all (omega (arith, len, low)) in
          let n = copy_len_of (length done) (length text) in
          let (le, fits) = copy_len_le (length done) (length text) low in
          let src = take n text in
          let src_len : length src ≡ n = length-take n text ∙ omega (arith, le) in
          let (rest', w, left) =
            writes done rest src n src_len (omega (arith, src_len, fits, size)) in
          let t : CaptureBuf = record {
            buf = some ((done ++ src) ++ rest');
            pos = length done + n;
            capturing = s.capturing;
          } in
          let fit = take_fits done text low in
          (
            t,
            add_to_open s text (done ++ rest) ((done ++ src) ++ rest') (length done) open_ at w,
            (
              done ++ src,
              rest',
              refl,
              omega (arith, length-append done src, src_len),
              fit ∙ ap (λ d. take room (d ++ text)) whole,
              omega (arith, length-append done src, left, size),
              on,
            ),
          )
    ]

some_text : (n : ℕ) → (suc n == 0) ≡ false
some_text n = ground arith

capturing_add :
    (s : CaptureBuf) (c : ℕ) (text : List ℕ)
    → s.capturing ≡ true
    → rc_capture_add s (c ∷ text) ≡ add_to s (c ∷ text) s.buf
unfolding rc_capture_add
capturing_add s c text on = rw (on, some_text (length text)) refl

rc_capture_add-Captured :
    (s : CaptureBuf) (text all : List ℕ)
    → Captured s all
    → (t : CaptureBuf) × (rc_capture_add s text ≡ some t) × Captured t (all ++ text)
unfolding rc_capture_add Captured
rc_capture_add-Captured s [] all (done, rest, held, at, first, size, on) =
    (s, rw on refl, (done, rest, held, at, first ∙ ap (take room) (sym (append-nil all)), size, on))
rc_capture_add-Captured s (c ∷ text) all (done, rest, held, at, first, size, on) =
    let (t, e, after) = add_to-Captured s done rest (c ∷ text) all held at first size on in
    (t, capturing_add s c text on ∙ ap (add_to s (c ∷ text)) held ∙ e, after)

print-Captured :
    (p : Print) (s : CaptureBuf) (all : List ℕ)
    → Captured s all
    → (t : CaptureBuf) × (print s p ≡ some t) × Captured t (all ++ printed p)
unfolding print printed
print-Captured (wrap_printf text) s all h = rc_capture_add-Captured s (printf_text text) all h
print-Captured (wrap_puts text) s all h =
    let (t, e, h') = rc_capture_add-Captured s text all h in
    let (u, e', h'') = rc_capture_add-Captured t line_end (all ++ text) h' in
    (u, rw e e', rw (sym (append_assoc all text line_end)) h'')
print-Captured (wrap_putchar c) s all h = rc_capture_add-Captured s (c ∷ []) all h
print-Captured (wrap_fputs text true) s all h = rc_capture_add-Captured s text all h
print-Captured (wrap_fputs text false) s all h = (s, refl, rw (append-nil all) h)
print-Captured (wrap_fwrite text true) s all h = rc_capture_add-Captured s text all h
print-Captured (wrap_fwrite text false) s all h = (s, refl, rw (append-nil all) h)

pub print_all-Captured :
    (ps : List Print) (s : CaptureBuf) (all : List ℕ)
    → Captured s all
    → (t : CaptureBuf) × (print_all s ps ≡ some t) × Captured t (all ++ printed_all ps)
unfolding print_all printed_all
print_all-Captured [] s all h = (s, refl, rw (append-nil all) h)
print_all-Captured (p ∷ ps) s all h =
    let (t, e, h') = print-Captured p s all h in
    let (u, e', h'') = print_all-Captured ps t (all ++ printed p) h' in
    (u, rw e e', rw (sym (append_assoc all (printed p) (printed_all ps))) h'')

-- the capture buffer when a command starts
abbrev pub start : List ℕ → CaptureBuf
start buf = record { buf = some buf; pos = 0; capturing = true }

-- What is read back of a buffer that holds a text.
pub Captured-bytes :
    (s : CaptureBuf) (text : List ℕ)
    → Captured s text
    → (b : List ℕ) × (s.buf ≡ some b)
      × (take s.pos b ≡ take room text)
      × (s.pos ≤ room)
      × (length b ≡ rc_capture_buf_size)
unfolding Captured
Captured-bytes s text (done, rest, held, at, first, size, on) = (
  done ++ rest,
  held,
  ap (λ (k : ℕ). take k (done ++ rest)) at ∙ take-append_self done rest ∙ first,
  omega (arith, at, ap length first, length-take room text),
  length-append done rest ∙ size,
)

-- From an area of 10240 bytes, whatever the calls print, no write is out of bounds, and the bytes
-- in front of the position are the first 10239 of the printed text.
pub print_all-bytes :
    (buf : List ℕ) (ps : List Print)
    → length buf ≡ rc_capture_buf_size
    → (t : CaptureBuf) × (b : List ℕ) × (print_all (start buf) ps ≡ some t)
      × (t.buf ≡ some b)
      × (take t.pos b ≡ take room (printed_all ps))
      × (t.pos < length b)
      × (length b ≡ rc_capture_buf_size)
unfolding Captured
print_all-bytes buf ps size =
    let (t, e, h) =
      print_all-Captured ps (start buf) [] ([], buf, refl, refl, refl, omega (arith, size), refl) in
    let (b, held, bytes, low, size') = Captured-bytes t (printed_all ps) h in
    (t, b, e, held, bytes, omega (arith, low, size'), size')
