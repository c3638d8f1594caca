-- ===== src/Hooks/Mss/Examples.antt =====
-- The theorem on `clamp_tcp_mss` at a SYN with an MSS of 1460.
use esp32_pppo_e_router.Base.{
  ℕ, ◌==◌, false, ◌<◌, ◌%◌, arith, ◌≡◌, ◌++◌, refl, some, List, [], ◌∷◌, length,
}
use esp32_pppo_e_router.Hooks.Ttl.{update_chksum}
use esp32_pppo_e_router.Hooks.Mss.{clamp_tcp_mss, clamp_at}
use esp32_pppo_e_router.Hooks.Mss.Effect.{frame_of, words, clamp_at-Lowered}
use esp32_pppo_e_router.Hooks.Mss.Safety.{clamp_tcp_mss-length}

abbrev eth_ip : List ℕ
eth_ip =
    2 ∷ 0 ∷ 0 ∷ 0 ∷ 0 ∷ 1 ∷ 2 ∷ 0 ∷ 0 ∷ 0 ∷ 0 ∷ 2 ∷ 8 ∷ 0 ∷ 0x45 ∷ 0 ∷ 0 ∷ 44 ∷ 0 ∷ 0 ∷ 0 ∷ 0 ∷ 64
    ∷ 6 ∷ 0 ∷ 0 ∷ 10 ∷ 0 ∷ 0 ∷ 1 ∷ 10 ∷ 0 ∷ 0 ∷ 2 ∷ []

abbrev syn_segment : List ℕ
syn_segment =
    0x12 ∷ 0x34 ∷ 0 ∷ 80 ∷ 0 ∷ 0 ∷ 0 ∷ 0 ∷ 0 ∷ 0 ∷ 0 ∷ 0 ∷ 0x60 ∷ 2 ∷ 0 ∷ 0 ∷ 0 ∷ 0 ∷ 0 ∷ 0 ∷ 2 ∷ 4
    ∷ 5 ∷ 0xb4 ∷ []

abbrev syn_frame : List ℕ
syn_frame = eth_ip ++ syn_segment

clamp_tcp_mss-length_example :
    (q : List ℕ) × (clamp_tcp_mss syn_frame 1452 ≡ some q) × (length q ≡ length syn_frame)
clamp_tcp_mss-length_example = clamp_tcp_mss-length syn_frame 1452

-- the TCP header has its checksum at 50, behind 16 bytes, and the MSS 4 bytes later
abbrev syn_front : List ℕ
syn_front = eth_ip ++ (0x12 ∷ 0x34 ∷ 0 ∷ 80 ∷ 0 ∷ 0 ∷ 0 ∷ 0 ∷ 0 ∷ 0 ∷ 0 ∷ 0 ∷ 0x60 ∷ 2 ∷ 0 ∷ 0 ∷ [])

clamp_at-Lowered_example :
    (c0 : ℕ) × (c1 : ℕ) × (clamp_at
        (frame_of syn_front 17 18 (0 ∷ 0 ∷ 2 ∷ 4 ∷ []) 5 0xb4 [])
        34
        56
        1452
      ≡ some (frame_of syn_front c0 c1 (0 ∷ 0 ∷ 2 ∷ 4 ∷ []) 5 0xac []))
    × (c0 < 256)
    × (c1 < 256)
    × (words (frame_of [] c0 c1 (0 ∷ 0 ∷ 2 ∷ 4 ∷ []) 5 0xac []) % 65535
        ≡ words (frame_of [] 17 18 (0 ∷ 0 ∷ 2 ∷ 4 ∷ []) 5 0xb4 []) % 65535)
clamp_at-Lowered_example =
    clamp_at-Lowered syn_front (0 ∷ 0 ∷ 2 ∷ 4 ∷ []) [] 34 1452 17 18 5 0xb4 refl refl (omega arith)
      (omega arith) (omega arith) (omega arith) (omega arith) (omega arith)

-- An MSS of 1460 at an odd offset, behind one NOP: the checksum is updated as if it were at an even
-- one, and the sum of the words changes.
odd_offset :
    clamp_at (frame_of syn_front 17 18 (0 ∷ 0 ∷ 1 ∷ 2 ∷ 4 ∷ []) 5 0xb4 (0 ∷ [])) 34 57 1452
    ≡ some (frame_of syn_front 17 26 (0 ∷ 0 ∷ 1 ∷ 2 ∷ 4 ∷ []) 5 0xac (0 ∷ []))
unfolding clamp_at update_chksum
odd_offset = refl

odd_sums :
    (words (frame_of [] 17 26 (0 ∷ 0 ∷ 1 ∷ 2 ∷ 4 ∷ []) 5 0xac (0 ∷ [])) % 65535
      == words (frame_of [] 17 18 (0 ∷ 0 ∷ 1 ∷ 2 ∷ 4 ∷ []) 5 0xb4 (0 ∷ [])) % 65535)
    ≡ false
odd_sums = refl
