-- ===== src/Password/Check.antt =====
-- A password that is stored is the one that passes (components/cmd_router/cmd_router.c).
use esp32_pppo_e_router.Base.{
  ℕ, ◌+◌, ◌*◌, ◌/◌, ◌%◌, ◌<◌, ◌≡◌, refl, sym, ap, ◌∙◌, arith, Bool, true, false, Option, some, List,
  [], ◌∷◌, ◌++◌, append-nil, length, length-append, drop, find_index, leb, ltb, ◌==◌, same_bytes,
  same_bytes_refl, u8,
}
use esp32_pppo_e_router.Base.Buffers.{drop-append_add}
use esp32_pppo_e_router.Base.Differ.{diff_of-same_bytes}
use esp32_pppo_e_router.Password.{
  Text, pw_salt_len, pw_hash_len, hex_digit, pw_bytes_to_hex, pw_hex_to_bytes, is_web_password_set,
  colon, hashed_text, set_web_password_hashed, check_hashed, is_hashed, verify_web_password,
}

abbrev pub AreBytes : List ℕ → Type 0
AreBytes [] = Unit
AreBytes (b ∷ bs) = (b < 256) × AreBytes bs

-- what is documented of a SHA-256 digest: it has 32 bytes
abbrev pub IsDigest : (List ℕ → List ℕ) → Type 0
IsDigest sha256 = (m : List ℕ) → (length (sha256 m) ≡ pw_hash_len) × AreBytes (sha256 m)

-- what is documented of "%2x": two digits are read as their number
abbrev pub ReadsHex : (Text → Option ℕ) → Type 0
ReadsHex scan =
    (b : ℕ) (rest : Text) → b < 256 → scan (hex_digit (b / 16) ∷ hex_digit (b % 16) ∷ rest) ≡ some b

pw_bytes_to_hex-length : (bs : List ℕ) → length (pw_bytes_to_hex bs) ≡ 2 * length bs
pw_bytes_to_hex-length [] = refl
pw_bytes_to_hex-length (b ∷ bs) = omega (arith, pw_bytes_to_hex-length bs)

no_colon : (n : ℕ) → n < 16 → (hex_digit n == colon) ≡ false
no_colon n h = ground arith

find_index-colon :
    (bs : List ℕ) (rest : Text)
    → AreBytes bs
    → find_index (λ c. c == colon) (pw_bytes_to_hex bs ++ colon ∷ rest)
      ≡ some (length (pw_bytes_to_hex bs))
unfolding find_index
find_index-colon [] rest bytes = refl
find_index-colon (b ∷ bs) rest (low, bytes) =
    rw
      (
        no_colon (b / 16) (omega (arith, low)),
        no_colon (b % 16) (omega arith),
        find_index-colon bs rest bytes,
      )
      refl

-- The loops over the digits are inverse to each other.
pw_hex_to_bytes-hex :
    (scan : Text → Option ℕ) (bs : List ℕ) (rest : Text)
    → ReadsHex scan
    → AreBytes bs
    → pw_hex_to_bytes scan (pw_bytes_to_hex bs ++ rest) (length bs) ≡ some bs
pw_hex_to_bytes-hex scan [] rest reads bytes = refl
pw_hex_to_bytes-hex scan (b ∷ bs) rest reads (low, bytes) =
    let small : u8 b ≡ b = omega (arith, low) in
    rw
      (
        reads b (pw_bytes_to_hex bs ++ rest) low,
        pw_hex_to_bytes-hex scan bs rest reads bytes,
        small,
      )
      refl

module _ (sha256 : List ℕ → List ℕ) (scan : Text → Option ℕ) (salt : List ℕ)
    (digest : IsDigest sha256) (reads : ReadsHex scan) (salt_size : length salt ≡ pw_salt_len)
    (salt_bytes : AreBytes salt) where
  salt_text :
      (rest : Text) → pw_hex_to_bytes scan (pw_bytes_to_hex salt ++ rest) pw_salt_len ≡ some salt
  salt_text rest =
      ap (pw_hex_to_bytes scan (pw_bytes_to_hex salt ++ rest)) (sym salt_size)
      ∙ pw_hex_to_bytes-hex scan salt rest reads salt_bytes

  hash_text :
      (p : Text)
      → pw_hex_to_bytes scan (pw_bytes_to_hex (sha256 (salt ++ p))) pw_hash_len
        ≡ some (sha256 (salt ++ p))
  hash_text p =
      let h = sha256 (salt ++ p) in
      let (size, bytes) = digest (salt ++ p) in
      ap (λ t. pw_hex_to_bytes scan t pw_hash_len) (sym (append-nil (pw_bytes_to_hex h)))
      ∙ ap (pw_hex_to_bytes scan (pw_bytes_to_hex h ++ [])) (sym size)
      ∙ pw_hex_to_bytes-hex scan h [] reads bytes

  behind_colon : (rest : Text) → drop 33 (pw_bytes_to_hex salt ++ colon ∷ rest) ≡ rest
  behind_colon rest =
      let size : length (pw_bytes_to_hex salt) + 1 ≡ 33 =
        omega (arith, pw_bytes_to_hex-length salt, salt_size) in
      ap (λ (k : ℕ). drop k (pw_bytes_to_hex salt ++ colon ∷ rest)) (sym size)
      ∙ drop-append_add 1 (pw_bytes_to_hex salt) (colon ∷ rest)

  hashed_text-is_hashed :
      (p : Text)
      → is_hashed
          (hashed_text sha256 salt p)
          (find_index (λ c. c == colon) (hashed_text sha256 salt p))
        ≡ true
  hashed_text-is_hashed p =
      let h = pw_bytes_to_hex (sha256 (salt ++ p)) in
      let (size, bytes) = digest (salt ++ p) in
      let at : length (pw_bytes_to_hex salt) ≡ 32 =
        omega (arith, pw_bytes_to_hex-length salt, salt_size) in
      let whole : length h ≡ 64 =
        omega (arith, pw_bytes_to_hex-length (sha256 (salt ++ p)), size) in
      rw (find_index-colon salt h salt_bytes, at, behind_colon h, whole) refl

  check_hashed-same_bytes :
      (p q : Text)
      → check_hashed sha256 scan (hashed_text sha256 salt p) q
        ≡ same_bytes (sha256 (salt ++ p)) (sha256 (salt ++ q))
  check_hashed-same_bytes p q =
      let h = pw_bytes_to_hex (sha256 (salt ++ p)) in
      let sizes = (digest (salt ++ p)).0 ∙ sym ((digest (salt ++ q)).0) in
      rw (salt_text (colon ∷ h), behind_colon h, hash_text p)
        (diff_of-same_bytes (sha256 (salt ++ p)) (sha256 (salt ++ q)) sizes)

  -- With a stored password, a text passes exactly when its salted digest is that of the password;
  -- the setting is kept.
  verify_hashed :
      (ok : Bool) (salt' : List ℕ) (p q : Text)
      → verify_web_password sha256 scan true ok salt' q (some (hashed_text sha256 salt p))
        ≡ (same_bytes (sha256 (salt ++ p)) (sha256 (salt ++ q)), some (hashed_text sha256 salt p))
  unfolding verify_web_password
  verify_hashed ok salt' p q =
      let long : leb (length (hashed_text sha256 salt p) + 1) 1 ≡ false = ground (
        arith,
        length-append (pw_bytes_to_hex salt) (colon ∷ pw_bytes_to_hex (sha256 (salt ++ p))),
      ) in
      rw (long, hashed_text-is_hashed p, check_hashed-same_bytes p q) refl

  -- After a password that is not empty has been set, a password is set, and a text passes exactly
  -- when its digest with the salt is the password's: the password itself passes, and the check
  -- changes nothing. For a digest of 32 bytes, a salt of 16, and a `sscanf` that reads two digits.
  pub verify_web_password-set :
      (ok : Bool) (salt' : List ℕ) (c : ℕ) (cs q : Text) (old : Option Text)
      → let stored = set_web_password_hashed sha256 true salt (c ∷ cs) old in
        (is_web_password_set stored ≡ true)
        × (verify_web_password sha256 scan true ok salt' q stored
            ≡ (same_bytes (sha256 (salt ++ c ∷ cs)) (sha256 (salt ++ q)), stored))
  unfolding set_web_password_hashed is_web_password_set
  verify_web_password-set ok salt' c cs q old =
      let filled : (length (c ∷ cs) == 0) ≡ false = ground arith in
      let long : ltb 1 (length (hashed_text sha256 salt (c ∷ cs)) + 1) ≡ true = ground (
        arith,
        length-append (pw_bytes_to_hex salt) (colon ∷ pw_bytes_to_hex (sha256 (salt ++ c ∷ cs))),
      ) in
      rw (filled, long) (refl, verify_hashed ok salt' (c ∷ cs) q)

  old_format_login :
      (writes : Bool) (c : ℕ) (cs : Text)
      → is_hashed (c ∷ cs) (find_index (λ d. d == colon) (c ∷ cs)) ≡ false
      → verify_web_password sha256 scan true writes salt (c ∷ cs) (some (c ∷ cs))
        ≡ (true, set_web_password_hashed sha256 writes salt (c ∷ cs) (some (c ∷ cs)))
  unfolding verify_web_password
  old_format_login writes c cs old_format =
      let filled : leb (length (c ∷ cs) + 1) 1 ≡ false = ground arith in
      rw (filled, old_format, same_bytes_refl (c ∷ cs)) refl

  not_stored :
      (c : ℕ) (cs : Text)
      → set_web_password_hashed sha256 false salt (c ∷ cs) (some (c ∷ cs)) ≡ some (c ∷ cs)
  unfolding set_web_password_hashed
  not_stored c cs = let filled : (length (c ∷ cs) == 0) ≡ false = ground arith in rw filled refl

  -- Where there is memory for the stored text, a password in the old format passes. If the setting
  -- takes the new value, it is stored as a digest by that, so that afterwards a text passes exactly
  -- when its digest with the salt is the password's; if it does not, the setting stays as it was,
  -- in the old format.
  pub verify_web_password-migrates :
      (ok : Bool) (salt' : List ℕ) (c : ℕ) (cs q : Text)
      → is_hashed (c ∷ cs) (find_index (λ d. d == colon) (c ∷ cs)) ≡ false
      → let login = verify_web_password sha256 scan true true salt (c ∷ cs) (some (c ∷ cs)) in
        (login.0 ≡ true)
        × (verify_web_password sha256 scan true ok salt' q (login.1)
            ≡ (same_bytes (sha256 (salt ++ c ∷ cs)) (sha256 (salt ++ q)), login.1))
        × (verify_web_password sha256 scan true false salt (c ∷ cs) (some (c ∷ cs))
            ≡ (true, some (c ∷ cs)))
  verify_web_password-migrates ok salt' c cs q old_format =
      let (set_, checked) = verify_web_password-set ok salt' c cs q (some (c ∷ cs)) in
      let kept : (true, set_web_password_hashed sha256 false salt (c ∷ cs) (some (c ∷ cs)))
          ≡ (true, some (c ∷ cs)) =
        ap (λ (o : Option Text). (true, o)) (not_stored c cs) in
      let failed = old_format_login false c cs old_format ∙ kept in
      rw (old_format_login true c cs old_format) (refl, checked, failed)
