-- ===== src/Pcap/Ringbuf/Fifo.antt =====
-- The bytes that the ring holds, in the order in which they leave, and what the copies of a write
-- and of a read do to them. The copies are split at the end of the buffer; the queue is not.
use esp32_pppo_e_router.Base.{
  ℕ, ◌+◌, ◌-◌, ◌%◌, ◌≤◌, ◌<◌, ◌≡◌, refl, ap, ap₂, sym, ◌∙◌, arith, List, ◌++◌, inl, inr, length,
  get_or, leb, ltb, if◌then◌else◌, Bool-cases, tabulate, tabulate-ext, tabulate-append,
  tabulate-get_or, length-tabulate, get_or-tabulate, bytes_at, copy_to, get_or-copy_to,
  length-copy_to,
}
use native.Mathlib.Nat.{mod-eq_of_lt}
use native.Mathlib.Decide.{dec_lt}
use esp32_pppo_e_router.Pcap.Ringbuf.{put_bytes, get_bytes}

-- `j` places behind position `t`, going round at `size`
abbrev pub place : ℕ → ℕ → ℕ → ℕ
place size t j = if ltb (t + j) size then t + j else t + j - size

pub place-lt : (size t n : ℕ) → t < size → n ≤ size → place size t n < size
place-lt size t n h k = ground arith

pub place-add :
    (size t n k : ℕ)
    → t < size
    → n + k ≤ size
    → place size t (n + k) ≡ place size (place size t n) k
place-add size t n k h fits = ground arith

-- the `n` bytes from position `t` on
unfoldable pub queue : List ℕ → ℕ → ℕ → ℕ → List ℕ
queue buf size t n = tabulate (λ j. get_or buf (place size t j) 0) n

pub length-queue : (buf : List ℕ) (size t n : ℕ) → length (queue buf size t n) ≡ n
unfolding queue
length-queue buf size t n = length-tabulate _ n

get_or-bytes_at :
    (src : List ℕ) (i n k : ℕ) → k < n → get_or (bytes_at src i n) k 0 ≡ get_or src (i + k) 0
unfolding bytes_at
get_or-bytes_at src i n k h = get_or-tabulate (λ j. get_or src (i + j) 0) n k 0 h

length-bytes_at : (src : List ℕ) (i n : ℕ) → length (bytes_at src i n) ≡ n
unfolding bytes_at
length-bytes_at src i n = length-tabulate _ n

-- A position that reaches the end goes back to the start.
pub mod-eq-place : (size t n : ℕ) → t < size → t + n ≤ size → (t + n) % size ≡ place size t n
mod-eq-place size t n h fits = elim (dec_lt (t + n) size) [
  | yes lt ↦ let e = mod-eq_of_lt lt in ground (arith, e)
  | no ge ↦
      let whole : t + n ≡ size = omega arith in
      let e : size % size ≡ 0 = grind arith in rw whole (ground (arith, e))
]

module _ (buf src : List ℕ) (size head : ℕ) where
  abbrev chunk : ℕ
  chunk = size - head

  abbrev front : List ℕ
  front = copy_to buf head (bytes_at src 0 chunk)

  abbrev back : List ℕ
  back = bytes_at src chunk (length src - chunk)

  -- A byte of the new data lands behind the others.
  put_bytes-new :
      (k : ℕ)
      → length buf ≡ size
      → head < size
      → length src ≤ size
      → k < length src
      → get_or (put_bytes buf size head src).0 (place size head k) 0 ≡ get_or src k 0
  put_bytes-new k h lt small less = elim (Bool-cases (leb (length src) chunk)) [
    | inl e ↦ rw e (ground (arith, get_or-copy_to buf head src (place size head k)))
    | inr e ↦ rw e (
        ground (
          arith,
          get_or-copy_to front 0 back (place size head k),
          get_or-copy_to buf head (bytes_at src 0 chunk) (place size head k),
          get_or-bytes_at src 0 chunk k,
          get_or-bytes_at src chunk (length src - chunk) (k - chunk),
          length-copy_to buf head (bytes_at src 0 chunk),
          length-bytes_at src 0 chunk,
          length-bytes_at src chunk (length src - chunk),
        ))
  ]

  -- A byte that was waiting stays as it is.
  put_bytes-old :
      (t n k : ℕ)
      → length buf ≡ size
      → t < size
      → n + length src ≤ size
      → head ≡ place size t n
      → k < n
      → get_or (put_bytes buf size head src).0 (place size t k) 0 ≡ get_or buf (place size t k) 0
  put_bytes-old t n k h lt small at less = elim (Bool-cases (leb (length src) chunk)) [
    | inl e ↦ rw e (ground (arith, get_or-copy_to buf head src (place size t k)))
    | inr e ↦ rw e (
        ground (
          arith,
          get_or-copy_to front 0 back (place size t k),
          get_or-copy_to buf head (bytes_at src 0 chunk) (place size t k),
          length-copy_to buf head (bytes_at src 0 chunk),
          length-bytes_at src 0 chunk,
          length-bytes_at src chunk (length src - chunk),
        ))
  ]

  pub put_bytes-head :
      head < size
      → length src ≤ size
      → (put_bytes buf size head src).1 ≡ place size head (length src)
  put_bytes-head lt small = elim (Bool-cases (leb (length src) chunk)) [
    | inl e ↦ rw e (mod-eq-place size head (length src) lt (ground (arith, e)))
    | inr e ↦ rw e (ground (arith, e))
  ]

  pub put_bytes-length : length buf ≡ size → length (put_bytes buf size head src).0 ≡ size
  put_bytes-length h = elim (Bool-cases (leb (length src) chunk)) [
    | inl e ↦ rw e (length-copy_to buf head src ∙ h)
    | inr e ↦
        rw e (length-copy_to front 0 back ∙ length-copy_to buf head (bytes_at src 0 chunk) ∙ h)
  ]

-- A write appends its bytes to the queue.
pub queue-put :
    (buf src : List ℕ) (size t n : ℕ)
    → length buf ≡ size
    → t < size
    → n + length src ≤ size
    → queue (put_bytes buf size (place size t n) src).0 size t (n + length src)
      ≡ queue buf size t n ++ src
unfolding queue
queue-put buf src size t n h lt small =
    let head = place size t n in
    let buf' = (put_bytes buf size head src).0 in
    tabulate-append (λ j. get_or buf' (place size t j) 0) n (length src)
    ∙ ap₂ ◌++◌
        (tabulate-ext (λ j. get_or buf' (place size t j) 0) (λ j. get_or buf (place size t j) 0) n
          (λ k less. put_bytes-old buf src size head t n k h lt small refl less))
        (tabulate-ext (λ i. get_or buf' (place size t (n + i)) 0) (λ i. get_or src i 0) (length src)
            (λ k less.
              ap (λ i. get_or buf' i 0) (place-add size t n k lt (omega arith))
              ∙ put_bytes-new buf src size head k h (ground arith) (omega arith) less)
          ∙ tabulate-get_or src 0)

-- A queue is its front and what stands behind it.
pub queue-split :
    (buf : List ℕ) (size t m n : ℕ)
    → t < size
    → m + n ≤ size
    → queue buf size t (m + n) ≡ queue buf size t m ++ queue buf size (place size t m) n
unfolding queue
queue-split buf size t m n lt small =
    tabulate-append (λ j. get_or buf (place size t j) 0) m n
    ∙ ap (λ r. tabulate (λ j. get_or buf (place size t j) 0) m ++ r)
        (tabulate-ext (λ i. get_or buf (place size t (m + i)) 0)
          (λ i. get_or buf (place size (place size t m) i) 0) n
          (λ i b. ap (λ (x : ℕ). get_or buf x 0) (place-add size t m i lt (omega arith))))

-- A run of bytes that does not pass the end is a queue.
bytes_at-eq-queue :
    (buf : List ℕ) (size t n : ℕ) → t + n ≤ size → bytes_at buf t n ≡ queue buf size t n
unfolding queue bytes_at
bytes_at-eq-queue buf size t n h =
    tabulate-ext (λ j. get_or buf (t + j) 0) (λ j. get_or buf (place size t j) 0) n
      (λ j b. ap (λ (x : ℕ). get_or buf x 0) (ground arith))

-- A read takes the front of the queue, and moves the position behind it.
pub queue-get :
    (buf : List ℕ) (size t k : ℕ)
    → t < size
    → k ≤ size
    → ((get_bytes buf size t k).0 ≡ queue buf size t k)
      × ((get_bytes buf size t k).1 ≡ place size t k)
queue-get buf size t k lt small = elim (Bool-cases (leb k (size - t))) [
  | inl e ↦
      let fits : t + k ≤ size = ground (arith, e) in
      rw e (bytes_at-eq-queue buf size t k fits, mod-eq-place size t k lt fits)
  | inr e ↦
      let rest : ℕ = k - (size - t) in
      let whole : k ≡ size - t + rest = ground (arith, e) in
      let start : place size t (size - t) ≡ 0 = ground arith in
      let back =
        ap (λ x. queue buf size t x) whole
        ∙ queue-split buf size t (size - t) rest lt (omega (arith, whole))
        ∙ ap (λ x. queue buf size t (size - t) ++ queue buf size x rest) start in
      rw e (
        ap₂ ◌++◌ (bytes_at-eq-queue buf size t (size - t) (omega arith))
              (bytes_at-eq-queue buf size 0 rest (omega (arith, whole)))
            ∙ sym back,
        ground (arith, e),
      )
]
