-- ===== src/Acl/Text/Prefix.antt =====
-- Prefix lengths and masks (components/acl/acl.c): what `acl_parse_ip` makes of a prefix length is
-- what `count_bits` reads off the mask.
use esp32_pppo_e_router.Base.{ℕ, zero, suc, ◌<◌, ◌≡◌, Bool, false, ◌==◌, if◌then◌else◌}
use esp32_pppo_e_router.Acl.Text.{Text, count_ones, bit_rounds, prefix_word}

-- every prefix length up to `n` is the number of ones of its word
all_counted : ℕ → Bool
all_counted zero = count_ones bit_rounds (prefix_word 0) == 0
all_counted (suc n) =
    let rest = all_counted n in
    if count_ones bit_rounds (prefix_word (suc n)) == suc n then rest else false

-- `swap` is the change between host and network byte order of a 32-bit word.
pub record IsByteSwap (swap : ℕ → ℕ) : Type 0 where
  pub zero_same : swap 0 ≡ 0
  pub involutive : (x : ℕ) → x < 4294967296 → swap (swap x) ≡ x
