-- ===== src/Password/Examples.antt =====
-- Passwords (components/cmd_router/cmd_router.c) with a digest that is easy to compute.
use esp32_pppo_e_router.Base.{
  ℕ, zero, suc, ◌+◌, ◌-◌, ◌*◌, ◌/◌, ◌%◌, ◌<◌, ◌≡◌, refl, arith, Bool, true, false, Option, none,
  some, List, [], ◌∷◌, ◌++◌, length, ltb, length-replicate, replicate, find_index, ◌==◌, same_bytes,
  if◌then◌else◌,
}
use esp32_pppo_e_router.Password.{
  Text, pw_salt_len, hex_digit, colon, is_hashed, is_web_password_set, set_web_password_hashed,
  verify_web_password,
}
use esp32_pppo_e_router.Password.Check.{
  AreBytes, IsDigest, ReadsHex, verify_web_password-set, verify_web_password-migrates,
}

-- the number of bytes, 32 times
abbrev toy_digest : List ℕ → List ℕ
toy_digest m = replicate 32 (length m % 256)

AreBytes-replicate : (n b : ℕ) → b < 256 → AreBytes (replicate n b)
AreBytes-replicate zero b low = tt
AreBytes-replicate (suc n) b low = (low, AreBytes-replicate n b low)

toy_digest-IsDigest : IsDigest toy_digest
toy_digest-IsDigest m =
    (length-replicate 32 (length m % 256), AreBytes-replicate 32 (length m % 256) (omega arith))

-- two digits, as they are written
abbrev digit_of : ℕ → ℕ
digit_of c = if ltb c 58 then c - 48 else c - 87

abbrev two_digits : Text → Option ℕ
two_digits (c ∷ d ∷ rest) = some (digit_of c * 16 + digit_of d)
two_digits [] = none
two_digits (c ∷ []) = none

digit_of-hex_digit : (n : ℕ) → n < 16 → digit_of (hex_digit n) ≡ n
digit_of-hex_digit n low = ground (arith, low)

two_digits-ReadsHex : ReadsHex two_digits
two_digits-ReadsHex b rest low =
    let whole : b / 16 * 16 + b % 16 ≡ b = omega arith in
    rw
      (
        digit_of-hex_digit (b / 16) (omega (arith, low)),
        digit_of-hex_digit (b % 16) (omega arith),
        whole,
      )
      refl

abbrev salt : List ℕ
salt = replicate pw_salt_len 7

abbrev new_setting : Option Text
new_setting = set_web_password_hashed toy_digest true salt (112 ∷ 119 ∷ []) none

verify_web_password-set_example :
    (is_web_password_set new_setting ≡ true)
    × (verify_web_password toy_digest two_digits true true salt (112 ∷ 120 ∷ []) new_setting ≡ (
      same_bytes (toy_digest (salt ++ 112 ∷ 119 ∷ [])) (toy_digest (salt ++ 112 ∷ 120 ∷ [])),
      new_setting,
    ))
verify_web_password-set_example =
    verify_web_password-set toy_digest two_digits salt toy_digest-IsDigest two_digits-ReadsHex
      (length-replicate {A = ℕ} pw_salt_len 7) (AreBytes-replicate pw_salt_len 7 (omega arith)) true
      salt 112 (119 ∷ []) (112 ∷ 120 ∷ []) none

abbrev old_login : Bool × Option Text
old_login =
    verify_web_password toy_digest two_digits true true salt (112 ∷ 119 ∷ [])
      (some (112 ∷ 119 ∷ []))

in_old_format : is_hashed (112 ∷ 119 ∷ []) (find_index (λ d. d == colon) (112 ∷ 119 ∷ [])) ≡ false
unfolding find_index
in_old_format = refl

verify_web_password-migrates_example :
    (old_login.0 ≡ true)
    × (verify_web_password toy_digest two_digits true true salt [] (old_login.1)
        ≡ (same_bytes (toy_digest (salt ++ 112 ∷ 119 ∷ [])) (toy_digest (salt ++ [])), old_login.1))
    × (verify_web_password toy_digest two_digits true false salt
          (112 ∷ 119 ∷ [])
          (some (112 ∷ 119 ∷ []))
        ≡ (true, some (112 ∷ 119 ∷ [])))
verify_web_password-migrates_example =
    verify_web_password-migrates toy_digest two_digits salt toy_digest-IsDigest two_digits-ReadsHex
      (length-replicate {A = ℕ} pw_salt_len 7) (AreBytes-replicate pw_salt_len 7 (omega arith)) true
      salt 112 (119 ∷ []) [] in_old_format
