-- ===== src/Password.antt =====
-- The router's password (components/cmd_router/cmd_router.c): how it is stored in the settings, and
-- how a text is checked against it. Texts are lists of characters without the NUL. `sha256` is the
-- digest of mbedtls, `scan` what `sscanf` reads with "%2x".
pub mod Check
mod Examples
use esp32_pppo_e_router.Base.{
  ℕ, zero, suc, ◌+◌, ◌-◌, ◌*◌, ◌/◌, ◌%◌, Bool, true, false, not, ◌&&◌, ◌||◌, Option, none, some,
  List, [], ◌∷◌, ◌++◌, length, drop, find_index, leb, ltb, ◌==◌, same_bytes, if◌then◌else◌, u8,
}
use esp32_pppo_e_router.Base.Bytes.{◌>>=◌}
use esp32_pppo_e_router.Base.Differ.{diff_of}

abbrev pub Text : Type 0
Text = List ℕ

abbrev pub pw_salt_len : ℕ
pw_salt_len = 16

abbrev pub pw_hash_len : ℕ
pw_hash_len = 32

-- a digit of "%02x"
abbrev pub hex_digit : ℕ → ℕ
hex_digit n = if ltb n 10 then 48 + n else 87 + n

abbrev pub pw_bytes_to_hex : List ℕ → Text
pw_bytes_to_hex [] = []
pw_bytes_to_hex (b ∷ bs) = hex_digit (b / 16) ∷ hex_digit (b % 16) ∷ pw_bytes_to_hex bs

-- the loop over `len` bytes; -1 is `none`
abbrev pub pw_hex_to_bytes : (Text → Option ℕ) → Text → ℕ → Option (List ℕ)
pw_hex_to_bytes scan src zero = some []
pw_hex_to_bytes scan src (suc len) =
    scan src >>= (λ b. pw_hex_to_bytes scan (drop 2 src) len >>= (λ bs. some (u8 b ∷ bs)))

abbrev pub pw_compute_hash : (List ℕ → List ℕ) → List ℕ → Text → List ℕ
pw_compute_hash sha256 salt plaintext = sha256 (salt ++ plaintext)

-- `stored`: the setting "web_password", when the settings open and have it. Its length in the
-- settings counts the NUL.
unfoldable pub is_web_password_set : Option Text → Bool
is_web_password_set none = false
is_web_password_set (some stored) = ltb 1 (length stored + 1)

-- `ok`: the settings take the value
abbrev pub set_config_param_str : Bool → Text → Option Text → Option Text
set_config_param_str ok value old = if ok then some value else old

abbrev pub colon : ℕ
colon = 58

abbrev pub hashed_text : (List ℕ → List ℕ) → List ℕ → Text → Text
hashed_text sha256 salt plaintext =
    pw_bytes_to_hex salt ++ (colon ∷ pw_bytes_to_hex (pw_compute_hash sha256 salt plaintext))

-- `salt`: what `esp_fill_random` gives
unfoldable pub set_web_password_hashed :
    (List ℕ → List ℕ) → Bool → List ℕ → Text → Option Text → Option Text
set_web_password_hashed sha256 ok salt plaintext old =
    if length plaintext == 0
    then set_config_param_str ok [] old
    else set_config_param_str ok (hashed_text sha256 salt plaintext) old

-- the digest that is stored against that of the text, with the salt that is stored
abbrev pub check_hashed : (List ℕ → List ℕ) → (Text → Option ℕ) → Text → Text → Bool
check_hashed sha256 scan stored plaintext =
    digests_match (pw_hex_to_bytes scan stored pw_salt_len)
      (pw_hex_to_bytes scan (drop (pw_salt_len * 2 + 1) stored) pw_hash_len)
  where
    digests_match : Option (List ℕ) → Option (List ℕ) → Bool
    digests_match (some salt) (some stored_hash) =
        diff_of 0 stored_hash (pw_compute_hash sha256 salt plaintext) == 0
    digests_match none hash = false
    digests_match (some salt) none = false

-- the new format, by the place of the first colon
abbrev pub is_hashed : Text → Option ℕ → Bool
is_hashed stored none = false
is_hashed stored (some at) =
    at == pw_salt_len * 2 && length (drop (at + 1) stored) == pw_hash_len * 2

-- The result, and the setting behind it. `memory`: there is memory for the stored text. `ok`,
-- `salt`: for the rewriting of a password in the old format.
unfoldable pub verify_web_password :
    (List ℕ → List ℕ)
    → (Text → Option ℕ)
    → Bool
    → Bool
    → List ℕ
    → Text
    → Option Text
    → Bool × Option Text
unfolding set_web_password_hashed
verify_web_password sha256 scan memory ok salt plaintext none = (false, none)
verify_web_password sha256 scan memory ok salt plaintext (some stored) =
    if leb (length stored + 1) 1 || not memory
    then (false, some stored)
    else if is_hashed stored (find_index (λ c. c == colon) stored)
    then (check_hashed sha256 scan stored plaintext, some stored)
    else if same_bytes stored plaintext
    then (true, set_web_password_hashed sha256 ok salt plaintext (some stored))
    else (false, some stored)
