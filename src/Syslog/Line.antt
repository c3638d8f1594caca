-- ===== src/Syslog/Line.antt =====
-- What is sent of a log line (components/syslog/syslog_client.c).
use esp32_pppo_e_router.Base.{
  ◌⊎◌, ◌≢◌, ==_iff, inl, inr, ℕ, zero, suc, ◌+◌, ◌-◌, ◌<◌, ◌≡◌, refl, ap, ◌∙◌, arith, Bool, true,
  false, not, ◌≤◌, Bool-cases, [], ◌∷◌, ◌++◌, append-nil, length, length-append, ◌==◌, Every,
}
use esp32_pppo_e_router.Syslog.{
  Text, esc, bracket, code_end, skip_code, after_escape, clean_start, level_at,
  extract_level_and_clean, copy_text, before_rest, cut_line_ends, strip_ansi,
}

-- no byte of the text is `c`
abbrev pub Without : ℕ → Text → Type 0
Without c p = Every (λ b. not (b == c)) p

-- a colour code: ESC, '[', the code and 'm'
abbrev pub colour : Text → Text → Text
colour code rest = esc ∷ bracket ∷ (code ++ code_end ∷ rest)

-- a log line in colour, as ESP_LOG prints it
abbrev pub coloured : Text → Text → Text
coloured code message = colour code (message ++ colour (48 ∷ []) (10 ∷ []))

not_eq : (b : Bool) → not b ≡ true → b ≡ false
not_eq true h = absurd (ground (arith, h))
not_eq false h = refl

skip_code-code :
    (code rest : Text) → Without code_end code → skip_code (code ++ code_end ∷ rest) ≡ rest
skip_code-code [] rest h = refl
skip_code-code (c ∷ code) rest h = rw (not_eq (c == code_end) h.0) (skip_code-code code rest h.1)

clean_start-coloured :
    (code rest : Text) → Without code_end code → clean_start (colour code rest) ≡ rest
clean_start-coloured code rest h = skip_code-code code rest h

copy_text-same :
    (src : Text) (n m room left : ℕ)
    → n ≡ m
    → room ≡ left
    → copy_text n room src ≡ copy_text m left src
copy_text-same src n m room left e d = rw (e, d) refl

-- Bytes that are not ESC are copied one in a round.
copy_text-append :
    (message rest : Text) (n room : ℕ)
    → Without esc message
    → copy_text (length message + n) (length message + room) (message ++ rest)
      ≡ message ++ copy_text n room rest
copy_text-append [] rest n room h =
    copy_text-same rest (0 + n) n (0 + room) room (omega arith) (omega arith)
copy_text-append (c ∷ p) rest n room h =
    copy_text-same (c ∷ (p ++ rest)) (suc (length p) + n) (suc (length p + n))
      (suc (length p) + room) (suc (length p + room)) (omega arith) (omega arith)
    ∙ rw (not_eq (c == esc) h.0) (ap (λ t. c ∷ t) (copy_text-append p rest n room h.1))

cut_line_ends-append : (message : Text) → cut_line_ends (message ++ 10 ∷ []) ≡ cut_line_ends message
cut_line_ends-append [] = refl
cut_line_ends-append (c ∷ p) = ap (before_rest c) (cut_line_ends-append p)

-- the reset of the colour and the line end behind the message
abbrev tail : Text
tail = colour (48 ∷ []) (10 ∷ [])

cut_line_ends-tail :
    (message : Text) (room : ℕ)
    → cut_line_ends (message ++ copy_text 5 room tail) ≡ cut_line_ends message
cut_line_ends-tail message zero = ap cut_line_ends (append-nil message)
cut_line_ends-tail message (suc room) = cut_line_ends-append message

strip_ansi-tail :
    (message : Text) (max_len room : ℕ)
    → Without esc message
    → max_len ≡ length message + room + 1
    → strip_ansi (message ++ tail) max_len ≡ cut_line_ends message
unfolding strip_ansi
strip_ansi-tail message max_len room h size =
    let rounds : length (message ++ tail) ≡ length message + 5 = length-append message tail in
    let bytes : max_len - 1 ≡ length message + room = omega (arith, size) in
    rw (rounds, bytes)
      (ap cut_line_ends (copy_text-append message tail 5 room h) ∙ cut_line_ends-tail message room)

-- The level of a message that begins with `c` and `d`: the byte `c` where a space or an opening
-- bracket follows, and 'I' otherwise.
abbrev pub LevelOf : ℕ → ℕ → ℕ → Type 0
LevelOf c d level = (((d ≡ 32) ⊎ (d ≡ 40)) × (level ≡ c)) ⊎ (((d ≢ 32) × (d ≢ 40)) × (level ≡ 73))

level_at-LevelOf : (c d : ℕ) (p : Text) → LevelOf c d (level_at (c ∷ d ∷ p))
level_at-LevelOf c d p = elim (Bool-cases (d == 32)) [
  | inl e ↦ inl (inl ((==_iff d 32).0 e), rw e refl)
  | inr e ↦ elim (Bool-cases (d == 40)) [
    | inl f ↦ inl (inr ((==_iff d 40).0 f), rw (e, f) refl)
    | inr f ↦ inr (((λ q. ground (arith, e, q)), (λ q. ground (arith, f, q))), rw (e, f) refl)
  ]
]

-- Of a log line in colour, whose message has at least two bytes, has no ESC and fits the packet,
-- `extract_level_and_clean` and `strip_ansi` give the level, which is the message's first byte when
-- a space or an opening bracket follows it and 'I' otherwise, and the message itself, without the
-- colour codes and the line end, when the message ends in no line end of its own.
pub strip_ansi-coloured :
    (code : Text) (c d : ℕ) (p : Text) (max_len : ℕ)
    → Without code_end code
    → Without esc (c ∷ d ∷ p)
    → cut_line_ends (c ∷ d ∷ p) ≡ c ∷ d ∷ p
    → length (c ∷ d ∷ p) < max_len
    → let done = extract_level_and_clean (coloured code (c ∷ d ∷ p)) in
      LevelOf c d done.0 × (strip_ansi done.1 max_len ≡ c ∷ d ∷ p)
strip_ansi-coloured code c d p max_len coded plain ended fits =
    let message : Text = c ∷ d ∷ p in
    let start = clean_start-coloured code (message ++ tail) coded in
    (
      rw start (level_at-LevelOf c d (p ++ tail)),
      ap (λ t. strip_ansi t max_len) start
          ∙ strip_ansi-tail message max_len (max_len - 1 - length message) plain
              (omega (arith, fits))
          ∙ ended,
    )

skip_code-length : (p : Text) → length (skip_code p) ≤ length p
skip_code-length [] = omega arith
skip_code-length (c ∷ p) = elim (Bool-cases (c == code_end)) [
  | inl e ↦ rw e (omega arith)
  | inr e ↦ rw e (omega (arith, skip_code-length p))
]

after_escape-length : (p : Text) → length (after_escape p) ≤ length p
after_escape-length [] = omega arith
after_escape-length (c ∷ p) = elim (Bool-cases (c == bracket)) [
  | inl e ↦ rw e (omega (arith, skip_code-length p))
  | inr e ↦ rw e (omega arith)
]

-- The copying loop is done after as many rounds as the text has bytes: more change nothing.
copy_text-enough :
    (n m room : ℕ) (src : Text)
    → length src ≤ n
    → length src ≤ m
    → copy_text n room src ≡ copy_text m room src
copy_text-enough zero zero room src h k = refl
copy_text-enough zero (suc m) room [] h k = refl
copy_text-enough zero (suc m) room (c ∷ p) h k = absurd (omega (arith, h))
copy_text-enough (suc n) zero room [] h k = refl
copy_text-enough (suc n) zero room (c ∷ p) h k = absurd (omega (arith, k))
copy_text-enough (suc n) (suc m) room [] h k = refl
copy_text-enough (suc n) (suc m) zero (c ∷ p) h k = refl
copy_text-enough (suc n) (suc m) (suc room) (c ∷ p) h k = elim (Bool-cases (c == esc)) [
  | inl e ↦ rw e (
      copy_text-enough n m (suc room) (after_escape p) (omega (arith, h, after_escape-length p))
        (omega (arith, k, after_escape-length p)))
  | inr e ↦
      rw e (ap (λ t. c ∷ t) (copy_text-enough n m room p (omega (arith, h)) (omega (arith, k))))
]
