-- ===== src/Syslog.antt =====
-- components/syslog/syslog_client.c: the level and the text of a log line that goes to the syslog
-- server. A text is the list of its bytes before the NUL.
mod Line
mod Examples
use esp32_pppo_e_router.Base.{
  ℕ, zero, suc, ◌-◌, Bool, ◌||◌, ◌&&◌, true, false, List, [], ◌∷◌, length, ◌==◌, if◌then◌else◌,
}

abbrev pub Text : Type 0
Text = List ℕ

abbrev pub esc : ℕ
esc = 27

abbrev pub bracket : ℕ
bracket = 91  -- '['

abbrev pub code_end : ℕ
code_end = 109  -- 'm'

-- `esp_level_to_syslog`, with the severities of RFC 3164
unfoldable pub esp_level_to_syslog : ℕ → ℕ
esp_level_to_syslog level_char =
    if level_char == 69
    then 3
    else if level_char == 87
    then 4
    else if level_char == 73
    then 6
    else if level_char == 68 || level_char == 86
    then 7
    else 5

-- behind the next 'm', or at the end of the text
abbrev pub skip_code : Text → Text
skip_code [] = []
skip_code (c ∷ p) = let rest = skip_code p in if c == code_end then p else rest

-- what stands behind the byte ESC: a colour code is skipped
abbrev pub after_escape : Text → Text
after_escape [] = []
after_escape (c ∷ p) = if c == bracket then skip_code p else c ∷ p

-- `*clean_start`; an ESC that starts no colour code stays
abbrev pub clean_start : Text → Text
clean_start [] = []
clean_start (c ∷ []) = c ∷ []
clean_start (c ∷ d ∷ p) = if (c == esc) && (d == bracket) then skip_code p else c ∷ d ∷ p

-- the letter in front of " (" or "("; 'I' without one
abbrev pub level_at : Text → ℕ
level_at [] = 73
level_at (c ∷ []) = 73
level_at (c ∷ d ∷ p) = if d == 32 || d == 40 then c else 73

abbrev pub extract_level_and_clean : Text → ℕ × Text
extract_level_and_clean msg = (level_at (clean_start msg), clean_start msg)

-- The copying loop with `n` rounds left and room for `room` bytes. A round takes a byte of the
-- text at least, so as many rounds as it has bytes are enough.
abbrev pub copy_text : ℕ → ℕ → Text → Text
copy_text zero room src = []
copy_text (suc n) room [] = []
copy_text (suc n) zero (c ∷ p) = []
copy_text (suc n) (suc room) (c ∷ p) =
    let behind = copy_text n (suc room) (after_escape p) in
    let rest = copy_text n room p in if c == esc then behind else c ∷ rest

abbrev pub is_line_end : ℕ → Bool
is_line_end c = c == 10 || c == 13

-- the byte `c` in front of a text whose line ends are cut off
abbrev pub before_rest : ℕ → Text → Text
before_rest c [] = if is_line_end c then [] else c ∷ []
before_rest c (d ∷ p) = c ∷ d ∷ p

-- the loop that takes back the line ends
abbrev pub cut_line_ends : Text → Text
cut_line_ends [] = []
cut_line_ends (c ∷ p) = before_rest c (cut_line_ends p)

-- the bytes of `dst` before its NUL
unfoldable pub strip_ansi : Text → ℕ → Text
strip_ansi src max_len = cut_line_ends (copy_text (length src) (max_len - 1) src)
