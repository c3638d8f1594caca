-- ===== src/Base/Bytes.antt =====
-- Reads of bytes that may not be there: `none` is a read out of bounds, so a computation over
-- such reads that gives a value has made none.
use Prim.Native.Nat.{ℕ, ◌+◌, ◌*◌, ◌<◌}
use mathlib.Core.Path.{◌≡◌}
use mathlib.Core.Option.{Option, none, some}
use mathlib.Core.List.{List}
use native.Mathlib.Omega.{arith}
use esp32_pppo_e_router.Base.Lists.{length, get_elem?, get_elem?-lt}

infixl 5 ◌>>=◌
abbrev pub ◌>>=◌ {ℓ κ} : {A : Type ℓ} {B : Type κ} → Option A → (A → Option B) → Option B
none >>= f = none
some a >>= f = f a

abbrev pub byte : List ℕ → ℕ → Option ℕ
byte p i = get_elem? p i

-- a field in network byte order
unfoldable pub be16 : List ℕ → ℕ → Option ℕ
be16 p i = do hi ← byte p i; lo ← byte p (i + 1); some (hi * 256 + lo)

pub be16-lt : (p : List ℕ) (i : ℕ) → i + 1 < length p → (x : ℕ) × (be16 p i ≡ some x)
unfolding be16
be16-lt p i h =
    let (hi, a) = get_elem?-lt p i (omega arith) in
    let (lo, b) = get_elem?-lt p (i + 1) h in (hi * 256 + lo, rw (a, b))
