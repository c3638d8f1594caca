-- ===== src/Console/Output/Sent.antt =====
-- What `send_to_client_crlf` (remote_console.c) sends: the text with line ends as CR LF, in pieces
-- that fit its buffer.
use esp32_pppo_e_router.Base.{
  ℕ, suc, ◌+◌, ◌-◌, ◌≤◌, ◌<◌, ◌≡◌, refl, ap, ◌∙◌, arith, Bool, true, false, not, ◌&&◌, Option, none,
  some, inl, inr, List, [], ◌∷◌, ◌++◌, append_assoc, length, length-append, ltb, ◌==◌,
  if◌then◌else◌, Bool-cases,
}
use esp32_pppo_e_router.Base.Buffers.{flat}
use esp32_pppo_e_router.Console.Output.{
  is_cr, net_buf_size, put_crlf, is_full, crlf_pieces, send_to_client_crlf,
}

-- a character with the CR that a bare LF needs
abbrev pub ended : Option ℕ → ℕ → List ℕ
ended prev c = if c == 10 && not (is_cr prev) then 13 ∷ c ∷ [] else c ∷ []

-- a text behind `prev` in which every LF follows a CR
unfoldable pub crlf : Option ℕ → List ℕ → List ℕ
crlf prev [] = []
crlf prev (c ∷ cs) = ended prev c ++ crlf (some c) cs

abbrev pub Pieces : List (List ℕ) → Type 0
Pieces [] = Unit
Pieces (p ∷ ps) = (0 < length p) × (length p ≤ net_buf_size) × Pieces ps

and_assoc : (a b c : Bool) → (a && b && c) ≡ ((a && b) && c)
and_assoc true b c = refl
and_assoc false b c = refl

some_sent : (n : ℕ) → ltb 0 (suc n) ≡ true
some_sent n = ground arith

some_text : (n : ℕ) → (suc n == 0) ≡ false
some_text n = ground arith

-- Below 510 bytes there is room for both characters.
put_crlf-ended :
    (net : List ℕ) (prev : Option ℕ) (c : ℕ)
    → length net < net_buf_size - 2
    → put_crlf net prev c ≡ net ++ ended prev c
put_crlf-ended net prev c h =
    let room : ltb (length net) 511 ≡ true = ground (arith, h) in
    let room' : ltb (length net) 512 ≡ true = ground (arith, h) in
    elim (Bool-cases (c == 10 && not (is_cr prev))) [
      | inr plain ↦
          rw (and_assoc (c == 10) (not (is_cr prev)) (ltb (length net) 511), plain, room') refl
      | inl bare ↦
          let room'' : ltb (length (net ++ 13 ∷ [])) 512 ≡ true =
            ground (arith, h, length-append net (13 ∷ [])) in
          rw
            (
              and_assoc (c == 10) (not (is_cr prev)) (ltb (length net) 511),
              bare,
              room,
              room'',
              append_assoc net (13 ∷ []) (c ∷ []),
            )
            refl
    ]

ended-length : (prev : Option ℕ) (c : ℕ) → (0 < length (ended prev c)) × (length (ended prev c) ≤ 2)
ended-length prev c = elim (Bool-cases (c == 10 && not (is_cr prev))) [
  | inr plain ↦ rw plain (omega arith, omega arith)
  | inl bare ↦ rw bare (omega arith, omega arith)
]

-- The bytes that are sent, piece after piece, are those collected and then the rest of the text.
pub crlf_pieces-crlf :
    (cs : List ℕ) (prev : Option ℕ) (net : List ℕ)
    → length net < net_buf_size - 2
    → flat (crlf_pieces cs prev net) ≡ net ++ crlf prev cs
unfolding crlf_pieces crlf
crlf_pieces-crlf [] prev [] h = refl
crlf_pieces-crlf [] prev (c ∷ net) h = rw (some_sent (length net)) refl
crlf_pieces-crlf (c ∷ cs) prev net h =
    let put = put_crlf-ended net prev c h in
    elim (Bool-cases (is_full (put_crlf net prev c))) [
      | inl full ↦
          let rest = crlf_pieces-crlf cs (some c) [] (omega arith) in
          rw full (
            ap (λ r. put_crlf net prev c ++ r) rest
            ∙ ap (λ r. r ++ crlf (some c) cs) put
            ∙ append_assoc net (ended prev c) (crlf (some c) cs))
      | inr open_ ↦
          let rest = crlf_pieces-crlf cs (some c) (put_crlf net prev c) (ground (arith, open_)) in
          rw open_ (
            rest
            ∙ ap (λ r. r ++ crlf (some c) cs) put
            ∙ append_assoc net (ended prev c) (crlf (some c) cs))
    ]

-- No piece is empty, and each fits the buffer.
pub crlf_pieces-Pieces :
    (cs : List ℕ) (prev : Option ℕ) (net : List ℕ)
    → length net < net_buf_size - 2
    → Pieces (crlf_pieces cs prev net)
unfolding crlf_pieces
crlf_pieces-Pieces [] prev [] h = tt
crlf_pieces-Pieces [] prev (c ∷ net) h =
    rw (some_sent (length net)) (omega arith, omega (arith, h), tt)
crlf_pieces-Pieces (c ∷ cs) prev net h =
    let put = put_crlf-ended net prev c h in
    let (low, high) = ended-length prev c in
    let size : length (put_crlf net prev c) ≡ length net + length (ended prev c) =
      ap length put ∙ length-append net (ended prev c) in
    elim (Bool-cases (is_full (put_crlf net prev c))) [
      | inl full ↦ rw full (
        omega (arith, size, low),
        omega (arith, size, high, h),
        crlf_pieces-Pieces cs (some c) [] (omega arith),
      )
      | inr open_ ↦
          rw open_ (crlf_pieces-Pieces cs (some c) (put_crlf net prev c) (ground (arith, open_)))
    ]

-- What the loop sends for a text is the text with CR LF for each bare LF, whole and in order.
pub send_to_client_crlf-crlf :
    (text : List ℕ) → flat (send_to_client_crlf true text) ≡ crlf none text
unfolding send_to_client_crlf crlf
send_to_client_crlf-crlf [] = refl
send_to_client_crlf-crlf (c ∷ cs) =
    rw (some_text (length cs)) (crlf_pieces-crlf (c ∷ cs) none [] (omega arith))

pub send_to_client_crlf-Pieces :
    (connected : Bool) (text : List ℕ) → Pieces (send_to_client_crlf connected text)
unfolding send_to_client_crlf
send_to_client_crlf-Pieces false text = tt
send_to_client_crlf-Pieces true [] = tt
send_to_client_crlf-Pieces true (c ∷ cs) =
    rw (some_text (length cs)) (crlf_pieces-Pieces (c ∷ cs) none [] (omega arith))
