-- ===== src/Console/Line/Editor.antt =====
-- `recv_line` (remote_console.c) against a line editor that has a text and no buffer.
use esp32_pppo_e_router.Base.{
  ℕ, suc, ◌+◌, ◌-◌, ◌<◌, ◌≡◌, refl, sym, ap, ◌∙◌, arith, Bool, true, false, Option, none, some, inl,
  inr, List, [], ◌∷◌, ◌++◌, append-nil, append_assoc, map, ltb→lt, lt→ltb, length, length-append,
  length-drop, drop, ltb, ◌==◌, if◌then◌else◌, Bool-cases,
}
use esp32_pppo_e_router.Base.Bytes.{◌>>=◌}
use esp32_pppo_e_router.Base.Buffers.{overwrite, overwrite-append}
use esp32_pppo_e_router.Console.Line.{
  Recv, received, again, failed, closed, Poll, NoLine, LineResult, line, no_line, disconnected,
  timed_out, cancelled, waiting, Round, back, next, erased, Read, one_more, is_backspace,
  is_printable, put_end, on_char, on_recv, is_late, on_poll, go_on, finish, recv_loop, recv_line,
  c_string,
}

-- what a round is for the editor
pub data Key : Type 0 where
  char : ℕ → Key
  erase enter skip : Key
  stop : NoLine → Key

abbrev pub key_of : ℕ → Key
key_of c =
    if c == 13
    then skip
    else if c == 10
    then enter
    else if is_backspace c
    then erase
    else if c == 3
    then stop cancelled
    else if c == 4
    then stop disconnected
    else if is_printable c
    then char c
    else skip

abbrev pub recv_key : Recv → Key
recv_key (received c) = key_of c
recv_key again = skip
recv_key failed = stop disconnected
recv_key closed = stop disconnected

abbrev pub key : ℕ → Poll → Key
key timeout_sec p =
    if p.interrupted
    then stop disconnected
    else if is_late timeout_sec p
    then stop timed_out
    else recv_key p.recv

-- the editor's outcome: a text, or an end without one
pub data Reading : Type 0 where
  text : List ℕ → Reading
  nothing : NoLine → Reading

-- the text without its last character
abbrev pub shorter : List ℕ → List ℕ
shorter [] = []
shorter (c ∷ []) = []
shorter (c ∷ d ∷ cs) = c ∷ shorter (d ∷ cs)

abbrev edit_key : (List ℕ → Reading) → List ℕ → Key → Reading
edit_key more cs (char c) = more (cs ++ c ∷ [])
edit_key more cs erase = more (shorter cs)
edit_key more cs enter = text cs
edit_key more cs skip = more cs
edit_key more cs (stop r) = nothing r

-- The editor ends as soon as the text has `most` characters.
unfoldable pub edit : ℕ → List Key → List ℕ → Reading
edit most [] cs = if ltb (length cs) most then nothing waiting else text cs
edit most (k ∷ ks) cs = if ltb (length cs) most then edit_key (edit most ks) cs k else text cs

abbrev erase_key : (List ℕ → ℕ) → List ℕ → Key → ℕ
erase_key more cs (char c) = more (cs ++ c ∷ [])
erase_key more [] erase = more []
erase_key more (c ∷ cs) erase = more (shorter (c ∷ cs)) + 1
erase_key more cs enter = 0
erase_key more cs skip = more cs
erase_key more cs (stop r) = 0

-- How many characters the editor takes off the client's screen.
unfoldable pub erasures : ℕ → List Key → List ℕ → ℕ
erasures most [] cs = 0
erasures most (k ∷ ks) cs = if ltb (length cs) most then erase_key (erasures most ks) cs k else 0

-- a round by its key
abbrev act : List ℕ → ℕ → Key → Option Round
act buf pos (char c) = overwrite buf pos (c ∷ []) >>= (λ b. some (next b (pos + 1)))
act buf pos erase = some (if ltb 0 pos then erased buf (pos - 1) else next buf pos)
act buf pos enter = put_end buf pos
act buf pos skip = some (next buf pos)
act buf pos (stop r) = some (back (no_line r) buf)

on_char-act : (buf : List ℕ) (pos c : ℕ) → on_char buf pos c ≡ act buf pos (key_of c)
on_char-act buf pos c = elim (Bool-cases (c == 13)) [
  | inl e ↦ rw e refl
  | inr cr ↦ elim (Bool-cases (c == 10)) [
    | inl e ↦ rw (cr, e) refl
    | inr lf ↦ elim (Bool-cases (is_backspace c)) [
      | inl e ↦ rw (cr, lf, e) refl
      | inr bs ↦ elim (Bool-cases (c == 3)) [
        | inl e ↦ rw (cr, lf, bs, e) refl
        | inr c3 ↦ elim (Bool-cases (c == 4)) [
          | inl e ↦ rw (cr, lf, bs, c3, e) refl
          | inr c4 ↦ elim (Bool-cases (is_printable c)) [
            | inl e ↦ rw (cr, lf, bs, c3, c4, e) refl
            | inr e ↦ rw (cr, lf, bs, c3, c4, e) refl
          ]
        ]
      ]
    ]
  ]
]

abbrev IsTyped : Key → Type 0
IsTyped (char c) = 0 < c
IsTyped _ = Unit

IsTyped-if : (b : Bool) (x y : Key) → IsTyped x → IsTyped y → IsTyped (if b then x else y)
IsTyped-if true x y h k = h
IsTyped-if false x y h k = k

is_printable-lt : (c : ℕ) → is_printable c ≡ true → 0 < c
is_printable-lt c h = ground (arith, h)

key_of-IsTyped : (c : ℕ) → IsTyped (key_of c)
key_of-IsTyped c =
    let last : IsTyped (if is_printable c then char c else skip) =
      elim (Bool-cases (is_printable c)) [ inl e ↦ rw e (is_printable-lt c e) | inr e ↦ rw e tt ] in
    IsTyped-if (c == 13) skip _ tt (
      IsTyped-if (c == 10) enter _ tt (
        IsTyped-if (is_backspace c) erase _ tt (
          IsTyped-if (c == 3) (stop cancelled) _ tt
            (IsTyped-if (c == 4) (stop disconnected) _ tt last))))

key-IsTyped : (timeout_sec : ℕ) (p : Poll) → IsTyped (key timeout_sec p)
key-IsTyped timeout_sec p =
    IsTyped-if p.interrupted (stop disconnected) _ tt
      (IsTyped-if (is_late timeout_sec p) (stop timed_out) _ tt (received_key p.recv))
  where
    received_key : (r : Recv) → IsTyped (recv_key r)
    received_key (received c) = key_of-IsTyped c
    received_key again = tt
    received_key failed = tt
    received_key closed = tt

on_poll-act :
    (timeout_sec : ℕ) (buf : List ℕ) (pos : ℕ) (p : Poll)
    → on_poll timeout_sec buf pos p ≡ act buf pos (key timeout_sec p)
on_poll-act timeout_sec buf pos p = elim (Bool-cases p.interrupted) [
  | inl e ↦ rw e refl
  | inr on ↦ elim (Bool-cases (is_late timeout_sec p)) [
    | inl e ↦ rw (on, e) refl
    | inr e ↦ rw (on, e) (received_act p.recv)
  ]
]
  where
    received_act : (r : Recv) → on_recv buf pos r ≡ act buf pos (recv_key r)
    received_act (received c) = on_char-act buf pos c
    received_act again = refl
    received_act failed = refl
    received_act closed = refl

-- no character ends the C string
abbrev pub IsText : List ℕ → Type 0
IsText [] = Unit
IsText (c ∷ cs) = (0 < c) × IsText cs

IsText-typed : (cs : List ℕ) (c : ℕ) → IsText cs → 0 < c → IsText (cs ++ c ∷ [])
IsText-typed [] c h pos = (pos, tt)
IsText-typed (d ∷ cs) c (h, t) pos = (h, IsText-typed cs c t pos)

IsText-shorter : (cs : List ℕ) → IsText cs → IsText (shorter cs)
IsText-shorter [] h = tt
IsText-shorter (c ∷ []) h = tt
IsText-shorter (c ∷ d ∷ cs) (h, t) = (h, IsText-shorter (d ∷ cs) t)

not_end : (c : ℕ) → 0 < c → (c == 0) ≡ false
not_end c h = ground (arith, h)

c_string-IsText : (cs rest : List ℕ) → IsText cs → c_string (cs ++ 0 ∷ rest) ≡ cs
c_string-IsText [] rest h = refl
c_string-IsText (c ∷ cs) rest (h, t) =
    rw (not_end c h) (ap (λ r. c ∷ r) (c_string-IsText cs rest t))

-- What is in front of the last character, and the character.
shorter-append :
    (c : ℕ) (cs rest : List ℕ)
    → (d : ℕ) × (shorter (c ∷ cs) ++ (d ∷ rest) ≡ (c ∷ cs) ++ rest)
      × (suc (length (shorter (c ∷ cs))) ≡ length (c ∷ cs))
shorter-append c [] rest = (c, refl, refl)
shorter-append c (d ∷ cs) rest =
    let (e, a, b) = shorter-append d cs rest in (e, ap (λ r. c ∷ r) a, ap suc b)

abbrev pub result_of : Reading → LineResult
result_of (text cs) = line (length cs)
result_of (nothing r) = no_line r

abbrev pub Held : ℕ → Reading → List ℕ → Type 0
Held max_len (text cs) buf = (c_string buf ≡ cs) × (length cs < max_len) × IsText cs
Held max_len (nothing r) buf = Unit

-- The result is the editor's, no write was out of bounds, a text is the buffer's C string, and
-- "\b \b" was sent `n` times.
abbrev pub Reads : ℕ → Reading → ℕ → Option Read → Type 0
Reads max_len r n out =
    (buf : List ℕ) × (out ≡ some ((result_of r, buf), n))
    × (length buf ≡ max_len)
    × Held max_len r buf

-- a buffer of this size that begins with a text and has room behind it
abbrev Fits : ℕ → List ℕ → List ℕ → Type 0
Fits max_len cs rest = IsText cs × (length cs + length rest ≡ max_len) × (length cs < max_len)

put :
    (max_len : ℕ) (cs rest : List ℕ) (x : ℕ)
    → Fits max_len cs rest
    → (rest' : List ℕ) × (overwrite (cs ++ rest) (length cs) (x ∷ []) ≡ some (cs ++ x ∷ rest'))
      × (length cs + suc (length rest') ≡ max_len)
put max_len cs rest x (typed, size, low) = (
  drop 1 rest,
  overwrite-append cs rest (x ∷ []) (omega (arith, size, low)),
  omega (arith, length-drop 1 rest, size, low),
)

finish-Reads :
    (max_len : ℕ) (cs rest : List ℕ)
    → Fits max_len cs rest
    → Reads max_len (text cs) 0 (finish (cs ++ rest) (length cs))
finish-Reads max_len cs rest (typed, size, low) =
    let (rest', w, size') = put max_len cs rest 0 (typed, size, low) in
    (
      cs ++ 0 ∷ rest',
      rw w refl,
      length-append cs (0 ∷ rest') ∙ size',
      (c_string-IsText cs rest' typed, low, typed),
    )

go_on-put_end :
    (more : List ℕ → ℕ → Option Read) (pos : ℕ) (m : Option (List ℕ))
    → go_on more (m >>= (λ b. some (back (line pos) b))) ≡ (m >>= (λ b. some ((line pos, b), 0)))
go_on-put_end more pos none = refl
go_on-put_end more pos (some b) = refl

module _ (max_len : ℕ) (more : List ℕ → ℕ → Option Read) (spec : List ℕ → Reading)
    (count : List ℕ → ℕ)
    (follow : (cs rest : List ℕ)
      → Fits max_len cs rest
      → Reads max_len (spec cs) (count cs) (more (cs ++ rest) (length cs))) where
  -- One round, when the rounds behind it follow the editor.
  act-Reads :
      (k : Key) (cs rest : List ℕ)
      → IsTyped k
      → Fits max_len cs rest
      → length cs < max_len - 1
      → Reads max_len
          (edit_key spec cs k)
          (erase_key count cs k)
          (go_on more (act (cs ++ rest) (length cs) k))
  act-Reads (char c) cs rest pos (typed, size, low) room =
      let (rest', w, size') = put max_len cs rest c (typed, size, low) in
      let e : (cs ++ c ∷ []) ++ rest' ≡ cs ++ c ∷ rest' = append_assoc cs (c ∷ []) rest' in
      let n : length (cs ++ c ∷ []) ≡ length cs + 1 = length-append cs (c ∷ []) in
      let after =
        follow (cs ++ c ∷ []) rest'
          (IsText-typed cs c typed pos, omega (arith, n, size'), omega (arith, n, room)) in
      rw (w, sym e, sym n) after
  act-Reads erase [] rest pos fits room = follow [] rest fits
  act-Reads erase (c ∷ cs) rest pos (typed, size, low) room =
      let (d, e, n) = shorter-append c cs rest in
      let fits : Fits max_len (shorter (c ∷ cs)) (d ∷ rest) =
        (IsText-shorter (c ∷ cs) typed, omega (arith, n, size), omega (arith, n, low)) in
      let after = follow (shorter (c ∷ cs)) (d ∷ rest) fits in
      let some_ : ltb 0 (length (c ∷ cs)) ≡ true = ground arith in
      let at : length (c ∷ cs) - 1 ≡ length (shorter (c ∷ cs)) = omega (arith, n) in
      let (buf, same, whole, held) = after in
      rw (some_, at, sym e) (buf, ap one_more same, whole, held)
  act-Reads enter cs rest pos fits room =
      rw (go_on-put_end more (length cs) (overwrite (cs ++ rest) (length cs) (0 ∷ [])))
        (finish-Reads max_len cs rest fits)
  act-Reads skip cs rest pos fits room = follow cs rest fits
  act-Reads (stop r) cs rest pos (typed, size, low) room =
      (cs ++ rest, refl, length-append cs rest ∙ size, tt)

recv_loop-edit :
    (max_len timeout_sec : ℕ) (ps : List Poll) (cs rest : List ℕ)
    → Fits max_len cs rest
    → Reads max_len
        (edit (max_len - 1) (map (key timeout_sec) ps) cs)
        (erasures (max_len - 1) (map (key timeout_sec) ps) cs)
        (recv_loop max_len timeout_sec ps (cs ++ rest) (length cs))
unfolding recv_loop edit erasures
recv_loop-edit max_len timeout_sec [] cs rest (typed, size, low) =
    elim (Bool-cases (ltb (length cs) (max_len - 1))) [
      | inl e ↦ rw e (cs ++ rest, refl, length-append cs rest ∙ size, tt)
      | inr e ↦ rw e (finish-Reads max_len cs rest (typed, size, low))
    ]
recv_loop-edit max_len timeout_sec (p ∷ ps) cs rest fits =
    let after =
      act-Reads max_len (recv_loop max_len timeout_sec ps)
        (edit (max_len - 1) (map (key timeout_sec) ps))
        (erasures (max_len - 1) (map (key timeout_sec) ps))
        (λ cs' rest' fits'. recv_loop-edit max_len timeout_sec ps cs' rest' fits')
        (key timeout_sec p) cs rest (key-IsTyped timeout_sec p) fits in
    elim (Bool-cases (ltb (length cs) (max_len - 1))) [
      | inl e ↦ rw (e, on_poll-act timeout_sec (cs ++ rest) (length cs) p) (after (ltb→lt _ _ e))
      | inr e ↦ rw e (finish-Reads max_len cs rest fits)
    ]

-- With a buffer of `max_len` bytes, at least one, `recv_line` gives what the editor gives for the
-- rounds: no write is out of bounds, the buffer keeps its size, and for a line the buffer holds the
-- editor's text as a C string of fewer than `max_len` characters. It sends "\b \b" once for each
-- character that the editor takes off the screen.
pub recv_line-edit :
    (max_len timeout_sec : ℕ) (ps : List Poll) (buf : List ℕ)
    → length buf ≡ max_len
    → 0 < max_len
    → Reads max_len
        (edit (max_len - 1) (map (key timeout_sec) ps) [])
        (erasures (max_len - 1) (map (key timeout_sec) ps) [])
        (recv_line max_len timeout_sec ps buf)
unfolding recv_line
recv_line-edit max_len timeout_sec ps buf size pos =
    recv_loop-edit max_len timeout_sec ps [] buf (tt, omega (arith, size), pos)

-- what the editor makes of characters that are typed, and then Enter
pub edit-typed :
    (most : ℕ) (cs before : List ℕ) (ks : List Key)
    → length before + length cs < most
    → edit most (map char cs ++ enter ∷ ks) before ≡ text (before ++ cs)
unfolding edit
edit-typed most [] before ks h =
    let e : ltb (length before) most ≡ true = lt→ltb _ _ (omega (arith, h)) in
    rw (e, append-nil before) refl
edit-typed most (c ∷ cs) before ks h =
    let e : ltb (length before) most ≡ true = lt→ltb _ _ (omega (arith, h)) in
    let n = length-append before (c ∷ []) in
    rw e (
      edit-typed most cs (before ++ c ∷ []) ks (omega (arith, n, h))
      ∙ ap text (append_assoc before (c ∷ []) cs))

shorter-typed : (cs : List ℕ) (c : ℕ) → shorter (cs ++ c ∷ []) ≡ cs
shorter-typed [] c = refl
shorter-typed (d ∷ []) c = refl
shorter-typed (d ∷ e ∷ cs) c = ap (λ r. d ∷ r) (shorter-typed (e ∷ cs) c)

-- A character that leaves room for another one and is erased has no effect.
pub edit-erased :
    (most c : ℕ) (cs : List ℕ) (ks : List Key)
    → length cs + 1 < most
    → edit most (char c ∷ erase ∷ ks) cs ≡ edit most ks cs
unfolding edit
edit-erased most c cs ks h =
    let e : ltb (length cs) most ≡ true = lt→ltb _ _ (omega (arith, h)) in
    let e' : ltb (length (cs ++ c ∷ [])) most ≡ true =
      lt→ltb _ _ (omega (arith, length-append cs (c ∷ []), h)) in
    rw (e, e', shorter-typed cs c) refl
