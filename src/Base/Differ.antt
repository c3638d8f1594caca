-- ===== src/Base/Differ.antt =====
-- The constant-time comparison: the loop that gathers the differences of two byte strings.
use Prim.Native.Nat.{
  ℕ, zero, suc, ◌/◌, ◌%◌, ◌≤◌, max, digits, differ, bit_or, bit_xor, bit_or-bitwise,
  bit_xor-bitwise,
}
use mathlib.Core.Path.{◌≡◌, refl, sym, ap, ◌∙◌}
use mathlib.Core.Bool.{true}
use mathlib.Core.Logic.{inl, inr}
use mathlib.Core.List.{List, [], ◌∷◌}
use native.Mathlib.Omega.{arith}
use esp32_pppo_e_router.Base.Tests.{◌==◌, same_bytes, same_bytes→eq, Bool-cases}
use esp32_pppo_e_router.Base.Lists.{length}

-- `diff |= x[i] ^ y[i]` over the bytes of two strings of one length
abbrev pub diff_of : ℕ → List ℕ → List ℕ → ℕ
diff_of diff [] ys = diff
diff_of diff (x ∷ xs) [] = diff
diff_of diff (x ∷ xs) (y ∷ ys) = diff_of (bit_or diff (bit_xor x y)) xs ys

differ-same : (x y : ℕ) → differ x y ≡ 0 → x ≡ y
differ-same zero y h = sym h
differ-same (suc x) zero h = h
differ-same (suc x) (suc y) h = ap suc (differ-same x y h)

same-differ : (x : ℕ) → differ x x ≡ 0
same-differ zero = refl
same-differ (suc x) = same-differ x

xor_digits : (n a b : ℕ) → a ≤ n → digits (λ b. b) differ n a b ≡ 0 → a ≡ b
xor_digits zero a b low h = omega (arith, low, h)
xor_digits (suc n) zero b low h = sym h
xor_digits (suc n) (suc a) b low h =
    let half = xor_digits n (suc a / 2) (b / 2) (omega (arith, low)) (omega (arith, h)) in
    let bit = differ-same (suc a % 2) (b % 2) (omega (arith, h)) in omega (arith, half, bit)

same_digits : (n a : ℕ) → a ≤ n → digits (λ b. b) differ n a a ≡ 0
same_digits zero a low = omega (arith, low)
same_digits (suc n) zero low = refl
same_digits (suc n) (suc a) low =
    omega (arith, same_digits n (suc a / 2) (omega (arith, low)), same-differ (suc a % 2))

or_digits : (n a b : ℕ) → a ≤ n → digits (λ b. b) max n a b ≡ 0 → (a ≡ 0) × (b ≡ 0)
or_digits zero a b low h = (omega (arith, low), h)
or_digits (suc n) zero b low h = (refl, h)
or_digits (suc n) (suc a) b low h =
    let (ha, hb) = or_digits n (suc a / 2) (b / 2) (omega (arith, low)) (omega (arith, h)) in
    (omega (arith, ha, h), omega (arith, hb, h))

bit_xor-same : (a b : ℕ) → bit_xor a b ≡ 0 → a ≡ b
bit_xor-same a b h = xor_digits a a b (omega arith) (sym (bit_xor-bitwise a b) ∙ h)

same-bit_xor : (a : ℕ) → bit_xor a a ≡ 0
same-bit_xor a = bit_xor-bitwise a a ∙ same_digits a a (omega arith)

bit_or-both : (a b : ℕ) → bit_or a b ≡ 0 → (a ≡ 0) × (b ≡ 0)
bit_or-both a b h = or_digits a a b (omega arith) (sym (bit_or-bitwise a b) ∙ h)

diff_of-same :
    (diff : ℕ) (xs ys : List ℕ)
    → length xs ≡ length ys
    → diff_of diff xs ys ≡ 0
    → (diff ≡ 0) × (same_bytes xs ys ≡ true)
diff_of-same diff [] [] size h = (h, refl)
diff_of-same diff [] (y ∷ ys) size h = absurd (omega (arith, size))
diff_of-same diff (x ∷ xs) [] size h = absurd (omega (arith, size))
diff_of-same diff (x ∷ xs) (y ∷ ys) size h =
    let (step, rest) = diff_of-same (bit_or diff (bit_xor x y)) xs ys (omega (arith, size)) h in
    let (first, bits) = bit_or-both diff (bit_xor x y) step in
    let same : (x == y) ≡ true = ground (arith, bit_xor-same x y bits) in
    (first, rw (same, rest) refl)

same-diff_of : (xs : List ℕ) → diff_of 0 xs xs ≡ 0
same-diff_of [] = refl
same-diff_of (x ∷ xs) =
    ap (λ (d : ℕ). diff_of (bit_or 0 d) xs xs) (same-bit_xor x) ∙ same-diff_of xs

-- For two strings of one length, no difference is gathered exactly when they are the same.
pub diff_of-same_bytes :
    (xs ys : List ℕ) → length xs ≡ length ys → (diff_of 0 xs ys == 0) ≡ same_bytes xs ys
diff_of-same_bytes xs ys size = elim (Bool-cases (same_bytes xs ys)) [
  | inl same ↦
      let e : diff_of 0 xs ys ≡ 0 =
        ap (diff_of 0 xs) (sym (same_bytes→eq xs ys same)) ∙ same-diff_of xs in
      rw (e, same) refl
  | inr other ↦ elim (Bool-cases (diff_of 0 xs ys == 0)) [
    | inl none_found ↦
        let (first, same) = diff_of-same 0 xs ys size (ground (arith, none_found)) in
        sym (absurd (ground (arith, same, other)))
    | inr found ↦ found ∙ sym other
  ]
]
