-- ===== src/Pcap/Ringbuf.antt =====
-- components/pcap_capture/pcap_ringbuf.c: the byte ring between the packet hooks and the task that
-- streams a capture. Each function holds the mutex over its body, so each is one step; where a
-- function waits, or tests `ringbuf_data` before it has the mutex, the two halves are two steps,
-- and other tasks may run between them. The buffer has 16 or 32 KB, so no `size_t` sum wraps.
pub mod Fifo
pub mod Steps
pub mod Runs
mod Examples
use esp32_pppo_e_router.Base.{
  ℕ, ◌+◌, ◌-◌, ◌%◌, Bool, true, false, not, ◌&&◌, ◌||◌, Option, none, some, List, [], ◌++◌, length,
  leb, ltb, ◌==◌, if◌then◌else◌, u32, bytes_at, copy_to, min,
}

-- the file's static variables; `none` is a NULL `ringbuf_data`
pub record Ringbuf : Type 0 where
  pub buf : Option (List ℕ)
  pub size : ℕ
  pub head : ℕ  -- write position
  pub tail : ℕ  -- read position
  pub available : ℕ
  pub dropped_packets : ℕ  -- uint32
  pub has_mutex : Bool
  pub data_ready : Bool  -- the binary semaphore

abbrev pub is_null : Option (List ℕ) → Bool
is_null none = true
is_null (some _) = false

-- `made_mutex` and `made_sem`: whether FreeRTOS could create them
unfoldable pub ringbuf_init : Ringbuf → Bool → Bool → Ringbuf × Bool
ringbuf_init r made_mutex made_sem =
    if r.has_mutex
    then (r, true)
    else if not made_mutex
    then (r, false)
    else if not made_sem
    then (r, false)
    else (record r { has_mutex = true; data_ready = false }, true)

abbrev fill : Ringbuf → ℕ → Option (List ℕ) → Ringbuf × Bool
fill r size none = (r, false)
fill r size (some storage) = (
  record r {
    buf = some storage;
    size = size;
    head = 0;
    tail = 0;
    available = 0;
    dropped_packets = 0;
    data_ready = false;
  },
  true,
)

-- `storage` is what `malloc(size)` returns
unfoldable pub ringbuf_alloc : Ringbuf → ℕ → Option (List ℕ) → Ringbuf × Bool
ringbuf_alloc r size storage =
    if not r.has_mutex
    then (r, false)
    else if not (is_null r.buf)
    then (r, true)
    else fill r size storage

unfoldable pub ringbuf_free : Ringbuf → Ringbuf
ringbuf_free r =
    if not r.has_mutex
    then r
    else if is_null r.buf
    then r
    else record r { buf = none; size = 0; head = 0; tail = 0; available = 0; dropped_packets = 0 }

unfoldable pub ringbuf_reset : Ringbuf → Ringbuf
ringbuf_reset r =
    if not r.has_mutex
    then r
    else record r { head = 0; tail = 0; available = 0; dropped_packets = 0 }

-- the two `memcpy` cases of a write, and the new write position
abbrev pub put_bytes : List ℕ → ℕ → ℕ → List ℕ → List ℕ × ℕ
put_bytes buf size head src =
    let first_chunk = size - head in
    if leb (length src) first_chunk then (copy_to buf head src, (head + length src) % size) else (
      copy_to (copy_to buf head (bytes_at src 0 first_chunk)) 0
          (bytes_at src first_chunk (length src - first_chunk)),
      length src - first_chunk,
    )

abbrev dropped : Ringbuf → Ringbuf
dropped r = record r { dropped_packets = u32 (r.dropped_packets + 1) }

abbrev write_locked : Ringbuf → Option (List ℕ) → List ℕ → Ringbuf × Bool
write_locked r none src = (r, false)
write_locked r (some buf) src =
    if ltb (r.size - r.available) (length src)
    then (dropped r, false)
    else let (buf', head') = put_bytes buf r.size r.head src in
      (
        record r {
          buf = some buf';
          head = head';
          available = r.available + length src;
          data_ready = true;
        },
        true,
      )

-- `busy`: another task holds the mutex, and the packet is dropped without waiting
unfoldable pub ringbuf_write : Ringbuf → Bool → List ℕ → Ringbuf × Bool
ringbuf_write r busy src =
    if is_null r.buf || not r.has_mutex
    then (r, false)
    else if busy
    then (dropped r, false)
    else write_locked r r.buf src

-- the two `memcpy` cases of a read, and the new read position
abbrev pub get_bytes : List ℕ → ℕ → ℕ → ℕ → List ℕ × ℕ
get_bytes buf size tail to_read =
    let first_chunk = size - tail in
    if leb to_read first_chunk then (bytes_at buf tail to_read, (tail + to_read) % size) else (
      bytes_at buf tail first_chunk ++ bytes_at buf 0 (to_read - first_chunk),
      to_read - first_chunk,
    )

abbrev pub to_read_of : ℕ → ℕ → ℕ
to_read_of max_len available = if ltb max_len available then max_len else available

abbrev read_locked : Ringbuf → Option (List ℕ) → ℕ → Ringbuf × List ℕ
read_locked r none max_len = (r, [])
read_locked r (some buf) max_len =
    if r.available == 0
    then (r, [])
    else let to_read = to_read_of max_len r.available in
      let (out, tail') = get_bytes buf r.size r.tail to_read in
      (
        record r {
          tail = tail';
          available = r.available - to_read;
          data_ready = if ltb 0 (r.available - to_read) then true else r.data_ready;
        },
        out,
      )

-- The first half of `ringbuf_read`: whether it goes on to wait for data.
unfoldable pub read_enter : Ringbuf → Bool
read_enter r = not (is_null r.buf || not r.has_mutex)

-- The second half, in the state at the end of the wait: no signal is a timeout. The list is what
-- was copied out, and its length the number returned.
unfoldable pub read_wake : Ringbuf → ℕ → Ringbuf × List ℕ
read_wake r max_len =
    if not r.data_ready
    then (r, [])
    else let r' = record r { data_ready = false } in read_locked r' r'.buf max_len

unfoldable pub ringbuf_read : Ringbuf → ℕ → Ringbuf × List ℕ
unfolding read_enter read_wake
ringbuf_read r max_len = if not (read_enter r) then (r, []) else read_wake r max_len

-- `ringbuf_data` is not tested again under the mutex; with no buffer `available` is 0.
abbrev peek_locked : Ringbuf → Option (List ℕ) → ℕ → List ℕ
peek_locked r none max_len = []
peek_locked r (some buf) max_len =
    if r.available == 0
    then []
    else (get_bytes buf r.size r.tail (to_read_of max_len r.available)).0

unfoldable pub ringbuf_peek : Ringbuf → ℕ → List ℕ
ringbuf_peek r max_len =
    if is_null r.buf || not r.has_mutex then [] else peek_locked r r.buf max_len

-- The body of `ringbuf_skip` under the mutex. `none` is the division by a size of 0.
unfoldable pub skip_locked : Ringbuf → ℕ → Option Ringbuf
skip_locked r len =
    let n = (if ltb r.available len then r.available else len) in
    if r.size == 0
    then none
    else some (record r { tail = (r.tail + n) % r.size; available = r.available - n })

unfoldable pub ringbuf_skip : Ringbuf → ℕ → Option Ringbuf
unfolding skip_locked
ringbuf_skip r len = if is_null r.buf || not r.has_mutex then some r else skip_locked r len

unfoldable pub ringbuf_available_bytes : Ringbuf → ℕ
ringbuf_available_bytes r = if not r.has_mutex then 0 else r.available

unfoldable pub ringbuf_free_space : Ringbuf → ℕ
ringbuf_free_space r = if not r.has_mutex then 0 else r.size - r.available

unfoldable pub ringbuf_reset_dropped_count : Ringbuf → Ringbuf
ringbuf_reset_dropped_count r = record r { dropped_packets = 0 }
