-- ===== src/Hooks/Ttl.antt =====
-- The TTL override of main/netif_hooks.c, in `netif_linkoutput_hook` behind an Ethernet header and
-- in `netif_output_hook` at the start of the packet: the checksum is updated by RFC 1624. A word
-- is read and written in the processor's order, low byte first.
pub mod Header
use esp32_pppo_e_router.Base.{
  ℕ, zero, suc, ◌+◌, ◌-◌, ◌*◌, ◌/◌, ◌%◌, ◌≤◌, ◌<◌, ◌≡◌, refl, sym, ap, ◌∙◌, arith, tests, Bool,
  true, false, not, ◌&&◌, Option, none, some, inl, inr, List, [], ◌∷◌, ◌++◌, length, get_elem?, leb,
  ltb, ◌==◌, if◌then◌else◌, Bool-cases,
}
use esp32_pppo_e_router.Base.Bytes.{◌>>=◌, byte}
use esp32_pppo_e_router.Base.Buffers.{overwrite, overwrite-append, le16}

-- while (sum >> 16) sum = (sum & 0xFFFF) + (sum >> 16); with the rounds that are left
unfoldable pub fold_sum : ℕ → ℕ → ℕ
fold_sum zero sum = sum
fold_sum (suc n) sum =
    let rest = fold_sum n (sum % 65536 + sum / 65536) in if sum / 65536 == 0 then sum else rest

-- Three rounds end the loop for every 32-bit sum.
abbrev pub fold_rounds : ℕ
fold_rounds = 3

-- HC' = ~(~HC + ~m + m') for 16-bit words
unfoldable pub update_chksum : ℕ → ℕ → ℕ → ℕ
unfolding fold_sum
update_chksum chksum old new = 65535 - fold_sum fold_rounds (65535 - chksum + (65535 - old) + new)

-- The IPv4 header starts at `at`. `none` is an access out of bounds.
unfoldable pub set_ttl : List ℕ → ℕ → ℕ → Option (List ℕ)
unfolding update_chksum
set_ttl payload at ttl = do
  old_ttl ← byte payload (at + 8)
  proto ← byte payload (at + 9)
  low ← byte payload (at + 10)
  high ← byte payload (at + 11)
  overwrite payload (at + 8) (
      ttl
      ∷ proto
      ∷ le16 (update_chksum (low + 256 * high) (old_ttl + 256 * proto) (ttl + 256 * proto)))

-- the override behind an Ethernet header; only IPv4 is changed
unfoldable pub override_ethernet : List ℕ → ℕ → Option (List ℕ)
unfolding set_ttl
override_ethernet payload ttl =
    if ltb 0 ttl && leb 34 (length payload)
    then (do
      type_high ← byte payload 12
      type_low ← byte payload 13
      v_hl ← byte payload 14
      if type_high == 8 && type_low == 0 && v_hl / 16 == 4
          then set_ttl payload 14 ttl
          else some payload)
    else some payload

-- the override of a packet without a link header
unfoldable pub override_raw : List ℕ → ℕ → Option (List ℕ)
unfolding set_ttl
override_raw payload ttl =
    if ltb 0 ttl && leb 20 (length payload)
    then (do v_hl ← byte payload 0; if v_hl / 16 == 4 then set_ttl payload 0 ttl else some payload)
    else some payload

fold_sum-small : (sum : ℕ) → sum < 4294967296 → fold_sum fold_rounds sum < 65536
unfolding fold_sum
fold_sum-small sum h = ground arith

fold_sum-mod : (n sum : ℕ) → fold_sum n sum % 65535 ≡ sum % 65535
unfolding fold_sum
fold_sum-mod zero sum = refl
fold_sum-mod (suc n) sum =
    let ih = fold_sum-mod n (sum % 65536 + sum / 65536) in
    elim (Bool-cases (sum / 65536 == 0)) [ inl e ↦ rw e refl | inr e ↦ rw e (ih ∙ omega arith) ]

-- The loop of the checksum update ends within three rounds, and the new checksum of 16 bits makes
-- up for the changed word: the one's complement sum, that is the sum modulo 65535, of the checksum
-- and the word is what it was.
pub update_chksum-sum :
    (chksum old new : ℕ)
    → chksum < 65536
    → old < 65536
    → new < 65536
    → (update_chksum chksum old new < 65536)
      × ((update_chksum chksum old new + new) % 65535 ≡ (chksum + old) % 65535)
unfolding update_chksum
update_chksum-sum chksum old new c o n =
    let sum = 65535 - chksum + (65535 - old) + new in
    let small = fold_sum-small sum (omega arith) in
    let same = fold_sum-mod fold_rounds sum in (omega arith, omega (arith, small, same))
