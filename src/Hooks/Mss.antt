-- ===== src/Hooks/Mss.antt =====
-- `clamp_tcp_mss` of main/netif_hooks.c: the MSS option of a TCP SYN in an Ethernet frame is
-- lowered to what the uplink carries. `none` is an access out of bounds, or an option list that
-- the loop does not get through.
pub mod Safety
pub mod Effect
mod Examples
use esp32_pppo_e_router.Base.{
  ℕ, zero, suc, ◌+◌, ◌-◌, ◌*◌, ◌/◌, ◌%◌, ◌≤◌, ◌<◌, ◌≡◌, refl, arith, Bool, true, false, not, ◌&&◌,
  ◌||◌, Option, none, some, inl, inr, List, [], ◌∷◌, length, get_elem?-lt, leb, ltb, ◌==◌,
  if◌then◌else◌, Bool-cases,
}
use esp32_pppo_e_router.Base.Bytes.{◌>>=◌, byte}
use esp32_pppo_e_router.Base.Buffers.{overwrite, overwrite-some, le16}
use esp32_pppo_e_router.Hooks.Ttl.{update_chksum}

-- what one round of the option loop finds
pub data OptionStep : Type 0 where
  no_mss : OptionStep
  skip_to mss_at : ℕ → OptionStep

-- the round at `opt`, for a list of options that ends before `opt_end`
unfoldable pub next_option : List ℕ → ℕ → ℕ → Option OptionStep
next_option p opt opt_end =
    if ltb opt opt_end
    then (do
      kind ← byte p opt
      if kind == 0
          then some no_mss
          else if kind == 1
          then some (skip_to (opt + 1))
          else if leb opt_end (opt + 1)
          then some no_mss
          else (do
            opt_len ← byte p (opt + 1)
            if ltb opt_len 2 || ltb opt_end (opt + opt_len)
                then some no_mss
                else if kind == 2 && opt_len == 4
                then some (mss_at (opt + 2))
                else some (skip_to (opt + opt_len))))
    else some no_mss

-- the loop, with the rounds that are left
unfoldable pub find_mss : ℕ → List ℕ → ℕ → ℕ → Option (Option ℕ)
find_mss zero p opt opt_end = none
find_mss (suc n) p opt opt_end = next_option p opt opt_end >>= (λ found. elim found [
  | no_mss ↦ some none
  | skip_to next ↦ find_mss n p next opt_end
  | mss_at i ↦ some (some i)
])

-- the MSS at `i` and the checksum of the TCP header at `tcp`
unfoldable pub clamp_at : List ℕ → ℕ → ℕ → ℕ → Option (List ℕ)
clamp_at p tcp i max_mss = do
  high ← byte p i
  low ← byte p (i + 1)
  if ltb max_mss (high * 256 + low)
      then (do
        lowered ← overwrite p i (max_mss / 256 ∷ max_mss % 256 ∷ [])
        c0 ← byte lowered (tcp + 16)
        c1 ← byte lowered (tcp + 17)
        overwrite lowered (tcp + 16) (
            le16 (
              update_chksum (c0 + 256 * c1) (high + 256 * low)
                (max_mss / 256 + 256 * (max_mss % 256)))))
      else some p

-- TCP options have at most 40 bytes.
abbrev pub option_rounds : ℕ
option_rounds = 41

abbrev pub clamp_found : List ℕ → ℕ → ℕ → Option ℕ → Option (List ℕ)
clamp_found p tcp max_mss none = some p
clamp_found p tcp max_mss (some i) = clamp_at p tcp i max_mss

-- the TCP header starts at `tcp`
unfoldable pub clamp_tcp : List ℕ → ℕ → ℕ → Option (List ℕ)
clamp_tcp p tcp max_mss = if ltb (length p) (tcp + 20) then some p else (do
  flags ← byte p (tcp + 13)
  if flags / 2 % 2 == 0 then some p else (do
    offset ← byte p (tcp + 12)
    let tcp_hdr_len = offset / 16 % 16 * 4
    if ltb tcp_hdr_len 20 || ltb (length p) (tcp + tcp_hdr_len)
        then some p
        else find_mss option_rounds p (tcp + 20) (tcp + tcp_hdr_len) >>= clamp_found p tcp max_mss))

unfoldable pub clamp_tcp_mss : List ℕ → ℕ → Option (List ℕ)
clamp_tcp_mss p max_mss = if max_mss == 0 || ltb (length p) 54 then some p else (do
  type_high ← byte p 12
  type_low ← byte p 13
  v_hl ← byte p 14
  proto ← byte p 23
  if type_high == 8 && type_low == 0 && v_hl / 16 == 4 && proto == 6
      then clamp_tcp p (14 + v_hl % 16 * 4) max_mss
      else some p)

-- what a round may find, with all that follows in bounds
abbrev Within : ℕ → ℕ → OptionStep → Type 0
Within opt opt_end no_mss = Unit
Within opt opt_end (skip_to next) = (opt < next) × (next ≤ opt_end)
Within opt opt_end (mss_at i) = (opt < i) × (i + 2 ≤ opt_end)

next_option-Within :
    (p : List ℕ) (opt opt_end : ℕ)
    → opt_end ≤ length p
    → (found : OptionStep) × (next_option p opt opt_end ≡ some found) × Within opt opt_end found
unfolding next_option
next_option-Within p opt opt_end h = elim (Bool-cases (ltb opt opt_end)) [
  | inr off ↦ (no_mss, rw off refl, tt)
  | inl on ↦
      let (kind, k) = get_elem?-lt p opt (ground (arith, on, h)) in
      elim (Bool-cases (kind == 0)) [
        | inl last ↦ (no_mss, rw (on, k, last) refl, tt)
        | inr k0 ↦ elim (Bool-cases (kind == 1)) [
          | inl nop ↦
              (skip_to (opt + 1), rw (on, k, k0, nop) refl, (omega arith, ground (arith, on)))
          | inr k1 ↦ elim (Bool-cases (leb opt_end (opt + 1))) [
            | inl cut ↦ (no_mss, rw (on, k, k0, k1, cut) refl, tt)
            | inr room ↦
                let (opt_len, l) = get_elem?-lt p (opt + 1) (ground (arith, room, h)) in
                elim (Bool-cases (ltb opt_len 2 || ltb opt_end (opt + opt_len))) [
                  | inl bad ↦ (no_mss, rw (on, k, k0, k1, room, l, bad) refl, tt)
                  | inr good ↦ elim (Bool-cases (kind == 2 && opt_len == 4)) [
                    | inl mss ↦ (
                      mss_at (opt + 2),
                      rw (on, k, k0, k1, room, l, good, mss) refl,
                      (omega arith, ground (arith, good, mss)),
                    )
                    | inr other ↦ (
                      skip_to (opt + opt_len),
                      rw (on, k, k0, k1, room, l, good, other) refl,
                      (ground (arith, good), ground (arith, good)),
                    )
                  ]
                ]
          ]
        ]
      ]
]
