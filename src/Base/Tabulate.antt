-- ===== src/Base/Tabulate.antt =====
-- Lists given by a function of the position, and copies of runs of bytes. Two buffers are compared
-- position by position.
use Prim.Native.Nat.{ℕ, zero, suc, ◌+◌, ◌-◌, ◌≤◌, ◌<◌}
use mathlib.Core.Path.{◌≡◌, refl, ap, ap₂, ◌∙◌}
use mathlib.Core.List.{List, [], ◌∷◌, ◌++◌}
use native.Mathlib.Omega.{arith}
use esp32_pppo_e_router.Base.Tests.{if◌then◌else◌, leb, ltb}
use esp32_pppo_e_router.Base.Lists.{length, get_or, set, length-set}
use mathlib.Core.Bool.{◌&&◌}

module _ {ℓ} {A : Type ℓ} where
  -- f 0, ..., f (n - 1)
  unfoldable pub tabulate : (ℕ → A) → ℕ → List A
  tabulate f zero = []
  tabulate f (suc n) = f 0 ∷ tabulate (λ i. f (suc i)) n

  pub length-tabulate : (f : ℕ → A) (n : ℕ) → length (tabulate f n) ≡ n
  unfolding tabulate
  length-tabulate f zero = refl
  length-tabulate f (suc n) = ap suc (length-tabulate (λ i. f (suc i)) n)

  pub tabulate-ext :
      (f g : ℕ → A) (n : ℕ) → ((i : ℕ) → i < n → f i ≡ g i) → tabulate f n ≡ tabulate g n
  unfolding tabulate
  tabulate-ext f g zero h = refl
  tabulate-ext f g (suc n) h =
      ap₂ ◌∷◌ (h 0 (omega arith))
        (tabulate-ext (λ i. f (suc i)) (λ i. g (suc i)) n (λ i lt. h (suc i) (omega arith)))

  pub tabulate-append :
      (f : ℕ → A) (m n : ℕ) → tabulate f (m + n) ≡ tabulate f m ++ tabulate (λ i. f (m + i)) n
  unfolding tabulate
  tabulate-append f zero n =
      let e : 0 + n ≡ n = omega arith in
      rw e (tabulate-ext f (λ i. f (0 + i)) n (λ i lt. ap f (omega arith)))
  tabulate-append f (suc m) n =
      let e : suc m + n ≡ suc (m + n) = omega arith in
      let same =
        tabulate-ext (λ i. f (suc (m + i))) (λ i. f (suc m + i)) n (λ i lt. ap f (omega arith)) in
      rw e (
        ap (λ t. f 0 ∷ t)
          (tabulate-append (λ i. f (suc i)) m n ∙ ap (λ t. tabulate (λ i. f (suc i)) m ++ t) same))

  pub get_or-tabulate : (f : ℕ → A) (n i : ℕ) (d : A) → i < n → get_or (tabulate f n) i d ≡ f i
  unfolding tabulate
  get_or-tabulate f zero i d h = absurd (omega arith)
  get_or-tabulate f (suc n) zero d h = refl
  get_or-tabulate f (suc n) (suc i) d h = get_or-tabulate (λ k. f (suc k)) n i d (omega arith)

  pub tabulate-get_or : (xs : List A) (d : A) → tabulate (λ i. get_or xs i d) (length xs) ≡ xs
  unfolding tabulate
  tabulate-get_or [] d = refl
  tabulate-get_or (x ∷ xs) d = ap (λ t. x ∷ t) (tabulate-get_or xs d)

-- memcpy(dst, src + i, n)
unfoldable pub bytes_at : List ℕ → ℕ → ℕ → List ℕ
bytes_at src i n = tabulate (λ j. get_or src (i + j) 0) n

-- memcpy(dst + i, src, len)
unfoldable pub copy_to : List ℕ → ℕ → List ℕ → List ℕ
copy_to dst i [] = dst
copy_to dst i (x ∷ xs) = copy_to (set dst i x) (suc i) xs

pub length-copy_to : (dst : List ℕ) (i : ℕ) (src : List ℕ) → length (copy_to dst i src) ≡ length dst
unfolding copy_to
length-copy_to dst i [] = refl
length-copy_to dst i (x ∷ xs) =
    omega (arith, length-copy_to (set dst i x) (suc i) xs, length-set dst i x)

get_or-set :
    (xs : List ℕ) (i v j : ℕ)
    → i < length xs
    → get_or (set xs i v) j 0 ≡ (if leb i j && leb j i then v else get_or xs j 0)
get_or-set [] i v j h = absurd (omega arith)
get_or-set (x ∷ xs) zero v zero h = refl
get_or-set (x ∷ xs) zero v (suc j) h = ground arith
get_or-set (x ∷ xs) (suc i) v zero h = ground arith
get_or-set (x ∷ xs) (suc i) v (suc j) h = ground (arith, get_or-set xs i v j)

get_or-cons :
    (x : ℕ) (xs : List ℕ) (k : ℕ)
    → get_or (x ∷ xs) k 0 ≡ (if leb k 0 then x else get_or xs (k - 1) 0)
get_or-cons x xs zero = refl
get_or-cons x xs (suc k) = ground arith

-- A copy that fits changes the bytes from `i` on, as many as it has, and no others.
pub get_or-copy_to :
    (dst : List ℕ) (i : ℕ) (src : List ℕ) (j : ℕ)
    → i + length src ≤ length dst
    → get_or (copy_to dst i src) j 0
      ≡ (if leb i j && ltb j (i + length src) then get_or src (j - i) 0 else get_or dst j 0)
unfolding copy_to
get_or-copy_to dst i [] j h = ground arith
get_or-copy_to dst i (x ∷ xs) j h = ground (
  arith,
  get_or-copy_to (set dst i x) (suc i) xs j,
  length-set dst i x,
  get_or-set dst i x j,
  get_or-cons x xs (j - i),
)
