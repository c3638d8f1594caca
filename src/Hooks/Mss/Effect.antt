-- ===== src/Hooks/Mss/Effect.antt =====
-- What `clamp_tcp_mss` (netif_hooks.c) writes where it finds an MSS that is too large.
use esp32_pppo_e_router.Base.{
  ℕ, ◌+◌, ◌*◌, ◌/◌, ◌%◌, ◌<◌, ◌≡◌, sym, ap, ◌∙◌, arith, true, some, List, [], ◌∷◌, ◌++◌,
  append_assoc, length, length-append, ltb, lt→ltb, get_elem?,
}
use esp32_pppo_e_router.Base.Bytes.{byte}
use esp32_pppo_e_router.Base.Buffers.{overwrite, overwrite-append, get_elem?-append_add, le16}
use esp32_pppo_e_router.Hooks.Ttl.{update_chksum, update_chksum-sum}
use esp32_pppo_e_router.Hooks.Mss.{clamp_at}

-- a frame from the checksum of its TCP header on: `front` is before it, `mid` between it and the
-- MSS, `back` behind that
abbrev pub frame_of : List ℕ → ℕ → ℕ → List ℕ → ℕ → ℕ → List ℕ → List ℕ
frame_of front c0 c1 mid high low back = front ++ (c0 ∷ c1 ∷ (mid ++ (high ∷ low ∷ back)))

-- the two words keep their sum
pub record Lowered (max_mss c0 c1 high low c0' c1' : ℕ) : Type 0 where
  pub byte0 : c0' < 256
  pub byte1 : c1' < 256
  pub sum :
      (c0' + 256 * c1' + (max_mss / 256 + 256 * (max_mss % 256))) % 65535
      ≡ (c0 + 256 * c1 + (high + 256 * low)) % 65535

-- the part of a frame in front of the MSS
abbrev before_mss : List ℕ → ℕ → ℕ → List ℕ → List ℕ
before_mss front c0 c1 mid = front ++ (c0 ∷ c1 ∷ mid)

length-before_mss :
    (front mid : List ℕ) (c0 c1 : ℕ)
    → length front + (2 + length mid) ≡ length (before_mss front c0 c1 mid)
length-before_mss front mid c0 c1 = omega (arith, length-append front (c0 ∷ c1 ∷ mid))

read_mss :
    (front mid rest : List ℕ) (c0 c1 n : ℕ)
    → get_elem? (front ++ (c0 ∷ c1 ∷ (mid ++ rest))) (length front + (2 + length mid) + n)
      ≡ get_elem? rest n
read_mss front mid rest c0 c1 n =
    ap (λ (z : List ℕ). get_elem? z (length front + (2 + length mid) + n))
      (sym (append_assoc front (c0 ∷ c1 ∷ mid) rest))
    ∙ ap (λ (k : ℕ). get_elem? (before_mss front c0 c1 mid ++ rest) (k + n))
        (length-before_mss front mid c0 c1)
    ∙ get_elem?-append_add n (before_mss front c0 c1 mid) rest

write_mss :
    (front mid back : List ℕ) (c0 c1 high low x y : ℕ)
    → overwrite
        (frame_of front c0 c1 mid high low back)
        (length front + (2 + length mid))
        (x ∷ y ∷ [])
      ≡ some (frame_of front c0 c1 mid x y back)
write_mss front mid back c0 c1 high low x y =
    ap (λ (z : List ℕ). overwrite z (length front + (2 + length mid)) (x ∷ y ∷ []))
      (sym (append_assoc front (c0 ∷ c1 ∷ mid) (high ∷ low ∷ back)))
    ∙ ap (λ (k : ℕ). overwrite (before_mss front c0 c1 mid ++ (high ∷ low ∷ back)) k (x ∷ y ∷ []))
        (length-before_mss front mid c0 c1)
    ∙ overwrite-append (before_mss front c0 c1 mid) (high ∷ low ∷ back) (x ∷ y ∷ []) (omega arith)
    ∙ ap some (append_assoc front (c0 ∷ c1 ∷ mid) (x ∷ y ∷ back))

-- the steps of `clamp_at` put together
clamp_at-steps :
    (p q z : List ℕ) (tcp i max_mss high low c0 c1 : ℕ)
    → byte p i ≡ some high
    → byte p (i + 1) ≡ some low
    → ltb max_mss (high * 256 + low) ≡ true
    → overwrite p i (max_mss / 256 ∷ max_mss % 256 ∷ []) ≡ some q
    → byte q (tcp + 16) ≡ some c0
    → byte q (tcp + 17) ≡ some c1
    → overwrite q (tcp + 16) (
        le16 (
          update_chksum (c0 + 256 * c1) (high + 256 * low) (max_mss / 256 + 256 * (max_mss % 256))))
      ≡ some z
    → clamp_at p tcp i max_mss ≡ some z
unfolding clamp_at
clamp_at-steps p q z tcp i max_mss high low c0 c1 a b on e d0 d1 f = rw (a, b, on, e, d0, d1) f

-- Where an MSS above the maximum stands in a frame, `clamp_at` puts the maximum there and two bytes
-- of a new checksum in the TCP header, changes no other byte, and keeps the sum of the two words
-- modulo 65535.
clamp_at-words :
    (front mid back : List ℕ) (tcp max_mss c0 c1 high low : ℕ)
    → length front ≡ tcp + 16
    → max_mss < 65536
    → c0 < 256
    → c1 < 256
    → high < 256
    → low < 256
    → max_mss < high * 256 + low
    → (c0' : ℕ) × (c1' : ℕ) × (clamp_at
          (frame_of front c0 c1 mid high low back)
          tcp
          (length front + (2 + length mid))
          max_mss
        ≡ some (frame_of front c0' c1' mid (max_mss / 256) (max_mss % 256) back))
      × Lowered max_mss c0 c1 high low c0' c1'
clamp_at-words front mid back tcp max_mss c0 c1 high low f m b0 b1 b2 b3 over =
    let x = max_mss / 256 in
    let y = max_mss % 256 in
    let new = update_chksum (c0 + 256 * c1) (high + 256 * low) (x + 256 * y) in
    let kept =
      update_chksum-sum (c0 + 256 * c1) (high + 256 * low) (x + 256 * y) (omega arith) (omega arith)
        (omega arith) in
    let rest = high ∷ low ∷ back in
    let after = mid ++ (x ∷ y ∷ back) in
    let same = read_mss front mid rest c0 c1 in
    let zero_more : length front + (2 + length mid) + 0 ≡ length front + (2 + length mid) =
      omega arith in
    let at0 : tcp + 16 ≡ length front + 0 = omega (arith, f) in
    let at1 : tcp + 17 ≡ length front + 1 = omega (arith, f) in
    let at : tcp + 16 ≡ length front = omega (arith, f) in
    (
      new % 256,
      new / 256 % 256,
      clamp_at-steps (frame_of front c0 c1 mid high low back) (frame_of front c0 c1 mid x y back)
          (frame_of front (new % 256) (new / 256 % 256) mid x y back) tcp
          (length front + (2 + length mid)) max_mss high low c0 c1
          (ap (λ (k : ℕ). byte (frame_of front c0 c1 mid high low back) k) (sym zero_more) ∙ same 0)
          (same 1) (lt→ltb max_mss (high * 256 + low) over)
          (write_mss front mid back c0 c1 high low x y)
          (ap (byte (frame_of front c0 c1 mid x y back)) at0
            ∙ get_elem?-append_add 0 front (c0 ∷ c1 ∷ after))
          (ap (byte (frame_of front c0 c1 mid x y back)) at1
            ∙ get_elem?-append_add 1 front (c0 ∷ c1 ∷ after))
          (ap (λ (k : ℕ). overwrite (frame_of front c0 c1 mid x y back) k (le16 new)) at
            ∙ overwrite-append front (c0 ∷ c1 ∷ after) (le16 new) (omega arith)),
      record { byte0 = omega arith; byte1 = omega arith; sum = omega (arith, kept.0, kept.1) },
    )

-- the sum of the 16-bit words that a TCP checksum adds, a last byte alone being a word
abbrev pub words : List ℕ → ℕ
words [] = 0
words (a ∷ []) = a
words (a ∷ b ∷ rest) = a + 256 * b + words rest

words-append :
    (mid rest : List ℕ) → length mid % 2 ≡ 0 → words (mid ++ rest) ≡ words mid + words rest
words-append [] rest even = omega arith
words-append (a ∷ []) rest even = absurd (omega (arith, even))
words-append (a ∷ b ∷ mid) rest even = omega (arith, words-append mid rest (omega (arith, even)))

words_kept :
    (max_mss c0 c1 high low c0' c1' m b : ℕ)
    → Lowered max_mss c0 c1 high low c0' c1'
    → (c0' + 256 * c1' + (m + (max_mss / 256 + 256 * (max_mss % 256) + b))) % 65535
      ≡ (c0 + 256 * c1 + (m + (high + 256 * low + b))) % 65535
words_kept max_mss c0 c1 high low c0' c1' m b l = omega (arith, l.sum)

-- Where an MSS above the maximum stands in a frame at an even distance from the TCP checksum,
-- `clamp_at` puts the maximum there and two bytes of a new checksum in the TCP header, changes no
-- other byte, and keeps the sum of the 16-bit words from the checksum to the end of the frame modulo
-- 65535, so that a TCP checksum that was right stays right.
pub clamp_at-Lowered :
    (front mid back : List ℕ) (tcp max_mss c0 c1 high low : ℕ)
    → length front ≡ tcp + 16
    → length mid % 2 ≡ 0
    → max_mss < 65536
    → c0 < 256
    → c1 < 256
    → high < 256
    → low < 256
    → max_mss < high * 256 + low
    → (c0' : ℕ) × (c1' : ℕ) × (clamp_at
          (frame_of front c0 c1 mid high low back)
          tcp
          (length front + (2 + length mid))
          max_mss
        ≡ some (frame_of front c0' c1' mid (max_mss / 256) (max_mss % 256) back))
      × (c0' < 256)
      × (c1' < 256)
      × (words (frame_of [] c0' c1' mid (max_mss / 256) (max_mss % 256) back) % 65535
          ≡ words (frame_of [] c0 c1 mid high low back) % 65535)
clamp_at-Lowered front mid back tcp max_mss c0 c1 high low f even m b0 b1 b2 b3 over =
    let (c0', c1', e, kept) =
      clamp_at-words front mid back tcp max_mss c0 c1 high low f m b0 b1 b2 b3 over in
    let x = max_mss / 256 in
    let y = max_mss % 256 in
    (
      c0',
      c1',
      e,
      kept.byte0,
      kept.byte1,
      rw (words-append mid (x ∷ y ∷ back) even, words-append mid (high ∷ low ∷ back) even)
          (words_kept max_mss c0 c1 high low c0' c1' (words mid) (words back) kept),
    )
