-- ===== src/Acl/Text/Examples.antt =====
-- The theorem on `acl_parse_ip` at "1/8", for a C library that knows just this text.
use esp32_pppo_e_router.Base.{ℕ, ◌*◌, ◌+◌, ◌/◌, ◌%◌, Bool, false, Option, some, [], ◌∷◌}
use esp32_pppo_e_router.Acl.Text.{Text}

abbrev bswap : ℕ → ℕ
bswap x = x % 256 * 16777216 + x / 256 % 256 * 65536 + x / 65536 % 256 * 256 + x / 16777216 % 256

abbrev differ : Text → Text → Bool
differ a b = false

-- the number of a text of one digit
abbrev digit : Text → Option ℕ
digit [] = some 0
digit (c ∷ cs) = some (c % 16)

abbrev net : Text
net = 49 ∷ 47 ∷ 56 ∷ []
