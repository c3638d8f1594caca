-- ===== src/Acl/Text.antt =====
-- Addresses as text (components/acl/acl.c): `acl_parse_name`, `acl_parse_ip`, and what
-- `acl_format_ip` prints. Texts are lists of characters without the NUL. What the C library and
-- lwIP do is an argument: `strcasecmp` tells whether two texts are the same but for case, `atoi`
-- is `none` for a negative number, `aton` is `ip4addr_aton`, and `swap` is `lwip_htonl`.
pub mod Prefix
mod Examples
use esp32_pppo_e_router.Base.{
  ℕ, zero, suc, ◌+◌, ◌-◌, ◌*◌, ◌/◌, ◌%◌, ◌^◌, Bool, true, false, not, ◌&&◌, Option, none, some,
  List, [], ◌∷◌, take, drop, find_index, ltb, ◌==◌, if◌then◌else◌, u32, bit_and,
}
use esp32_pppo_e_router.Base.Bytes.{◌>>=◌}

abbrev pub Text : Type 0
Text = List ℕ

-- the loop of `acl_parse_name` over the names of the lists; -1 is `none`
unfoldable pub acl_parse_name : (Text → Text → Bool) → List Text → Option Text → Option ℕ
acl_parse_name strcasecmp acl_names none = none
acl_parse_name strcasecmp acl_names (some name) = find_index (strcasecmp name) acl_names

-- the loop of `count_bits`, with the rounds that are left
unfoldable pub count_ones : ℕ → ℕ → ℕ
count_ones zero m = 0
count_ones (suc n) m = let rest = count_ones n (m / 2) in if m == 0 then 0 else m % 2 + rest

abbrev pub bit_rounds : ℕ
bit_rounds = 32

unfoldable pub count_bits : (ℕ → ℕ) → ℕ → ℕ
count_bits swap mask = count_ones bit_rounds (swap mask)

-- the word with `cidr` high bits set, in host order
unfoldable pub prefix_word : ℕ → ℕ
prefix_word cidr = if cidr == 0 then 0 else u32 (0xFFFFFFFF * 2 ^ (32 - cidr))

unfoldable pub prefix_mask : (ℕ → ℕ) → ℕ → ℕ
prefix_mask swap cidr = if cidr == 0 then 0 else swap (prefix_word cidr)

-- What `acl_format_ip` prints: "any", an address, or an address with a prefix length.
pub data Shown : Type 0 where
  shown_any : Shown
  shown_host : ℕ → Shown
  shown_net : ℕ → ℕ → Shown

unfoldable pub acl_format_ip : (ℕ → ℕ) → ℕ → ℕ → Shown
unfolding count_bits
acl_format_ip swap ip mask =
    if ip == 0 && mask == 0
    then shown_any
    else if mask == 0xFFFFFFFF
    then shown_host ip
    else shown_net ip (count_bits swap mask)

-- the address in front of a slash, and the prefix length behind it
abbrev pub split_prefix : (Text → Option ℕ) → Text → Option ℕ → Option (Text × ℕ)
split_prefix atoi ip_str none = some (ip_str, 32)
split_prefix atoi ip_str (some slash) =
    atoi (drop (slash + 1) ip_str)
    >>= (λ cidr. if ltb 32 cidr then none else some (take slash ip_str, cidr))

abbrev pub masked : (ℕ → ℕ) → ℕ → ℕ → ℕ × ℕ
masked swap addr cidr = (bit_and addr (prefix_mask swap cidr), prefix_mask swap cidr)

abbrev pub any_text : Text
any_text = 97 ∷ 110 ∷ 121 ∷ []

unfoldable pub acl_parse_ip :
    (Text → Text → Bool)
    → (Text → Option ℕ)
    → (Text → Option ℕ)
    → (ℕ → ℕ)
    → Option Text
    → Option (ℕ × ℕ)
unfolding prefix_mask
acl_parse_ip strcasecmp atoi aton swap none = none
acl_parse_ip strcasecmp atoi aton swap (some str) =
    if strcasecmp str any_text
    then some (0, 0)
    else let ip_str = take 31 str in
      split_prefix atoi ip_str (find_index (λ c. c == 47) ip_str)
      >>= (λ both. aton both.0 >>= (λ addr. some (masked swap addr both.1)))
