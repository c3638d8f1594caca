-- ===== src/Base/Buffers.antt =====
-- A memory area that is written in place: `none` is a write out of bounds.
use Prim.Native.Nat.{ℕ, zero, suc, ◌+◌, ◌/◌, ◌%◌, ◌≤◌}
use mathlib.Core.Path.{◌≡◌, refl, ap}
use mathlib.Core.Bool.{true}
use mathlib.Core.Option.{Option, none, some}
use mathlib.Core.List.{List, [], ◌∷◌, ◌++◌}
use native.Mathlib.Omega.{arith}
use esp32_pppo_e_router.Base.Tests.{leb, le→leb, if◌then◌else◌}
use esp32_pppo_e_router.Base.Lists.{
  length, take, drop, length-append, length-take, length-drop, get_elem?,
}

-- memcpy(buf + at, src, length src)
abbrev pub overwrite : List ℕ → ℕ → List ℕ → Option (List ℕ)
overwrite buf at src =
    if leb (at + length src) (length buf)
    then some (take at buf ++ (src ++ drop (at + length src) buf))
    else none

-- the bytes of a 32-bit word, and of a 16-bit one, in the processor's order
abbrev pub le32 : ℕ → List ℕ
le32 n = n % 256 ∷ n / 256 % 256 ∷ n / 65536 % 256 ∷ n / 16777216 % 256 ∷ []

abbrev pub le16 : ℕ → List ℕ
le16 n = n % 256 ∷ n / 256 % 256 ∷ []

-- the bytes of a sequence of pieces
abbrev pub flat : List (List ℕ) → List ℕ
flat [] = []
flat (q ∷ qs) = q ++ flat qs

module _ {ℓ} {A : Type ℓ} where
  pub take-append_self : (xs ys : List A) → take (length xs) (xs ++ ys) ≡ xs
  take-append_self [] ys = refl
  take-append_self (x ∷ xs) ys = ap (λ r. x ∷ r) (take-append_self xs ys)

  pub take-append_le : (n : ℕ) (xs ys : List A) → n ≤ length xs → take n (xs ++ ys) ≡ take n xs
  take-append_le zero xs ys h = refl
  take-append_le (suc n) [] ys h = absurd (omega arith)
  take-append_le (suc n) (x ∷ xs) ys h = ap (λ r. x ∷ r) (take-append_le n xs ys (omega arith))

  pub take-append_add : (n : ℕ) (xs ys : List A) → take (length xs + n) (xs ++ ys) ≡ xs ++ take n ys
  take-append_add n [] ys = let e : 0 + n ≡ n = omega arith in rw e refl
  take-append_add n (x ∷ xs) ys =
      let e : suc (length xs) + n ≡ suc (length xs + n) = omega arith in
      rw e (ap (λ r. x ∷ r) (take-append_add n xs ys))

  pub drop-append_add : (n : ℕ) (xs ys : List A) → drop (length xs + n) (xs ++ ys) ≡ drop n ys
  drop-append_add n [] ys = let e : 0 + n ≡ n = omega arith in rw e refl
  drop-append_add n (x ∷ xs) ys =
      let e : suc (length xs) + n ≡ suc (length xs + n) = omega arith in
      rw e (drop-append_add n xs ys)

  pub take-all : (n : ℕ) (xs : List A) → length xs ≤ n → take n xs ≡ xs
  take-all zero [] h = refl
  take-all (suc n) [] h = refl
  take-all zero (x ∷ xs) h = absurd (omega arith)
  take-all (suc n) (x ∷ xs) h = ap (λ r. x ∷ r) (take-all n xs (omega arith))

-- A write behind the first `length done` bytes, into an area that has room for it.
pub overwrite-append :
    (done rest src : List ℕ)
    → length src ≤ length rest
    → overwrite (done ++ rest) (length done) src ≡ some (done ++ (src ++ drop (length src) rest))
overwrite-append done rest src h =
    let fits : leb (length done + length src) (length (done ++ rest)) ≡ true =
      le→leb _ _ (omega (arith, length-append done rest)) in
    rw (fits, take-append_self done rest, drop-append_add (length src) done rest) refl

-- A write in bounds succeeds and keeps the size of the area.
pub overwrite-some :
    (buf : List ℕ) (at : ℕ) (src : List ℕ)
    → at + length src ≤ length buf
    → (out : List ℕ) × (overwrite buf at src ≡ some out) × (length out ≡ length buf)
overwrite-some buf at src h =
    let fits : leb (at + length src) (length buf) ≡ true = le→leb _ _ h in
    (
      take at buf ++ (src ++ drop (at + length src) buf),
      rw fits refl,
      omega (
        arith,
        h,
        length-append (take at buf) (src ++ drop (at + length src) buf),
        length-append src (drop (at + length src) buf),
        length-take at buf,
        length-drop (at + length src) buf,
      ),
    )

pub get_elem?-append_add {ℓ} :
    {A : Type ℓ} (n : ℕ) (xs ys : List A) → get_elem? (xs ++ ys) (length xs + n) ≡ get_elem? ys n
get_elem?-append_add n [] ys = let e : 0 + n ≡ n = omega arith in rw e refl
get_elem?-append_add n (x ∷ xs) ys =
    let e : suc (length xs) + n ≡ suc (length xs + n) = omega arith in
    rw e (get_elem?-append_add n xs ys)
