-- ===== src/Pcap/Ringbuf/Steps.antt =====
-- The operations of pcap_ringbuf.c on an allocated ring, as operations on the queue of bytes that
-- it holds, and what a run of them delivers.
use esp32_pppo_e_router.Base.{
  ℕ, ◌+◌, ◌-◌, ◌≤◌, ◌<◌, ◌≡◌, refl, ap, ap₂, sym, ◌∙◌, arith, Bool, true, false, List, [], ◌++◌,
  inl, inr, some, length, leb, ltb, ◌==◌, if◌then◌else◌, Bool-cases, u32, min,
}
use esp32_pppo_e_router.Pcap.Ringbuf.{
  Ringbuf, put_bytes, get_bytes, to_read_of, ringbuf_write, read_wake, ringbuf_read,
}
use esp32_pppo_e_router.Pcap.Ringbuf.Fifo.{
  place, place-lt, place-add, queue, length-queue, queue-put, queue-get, queue-split,
  put_bytes-head, put_bytes-length,
}

-- An allocated ring over the storage `b`. `signalled`: whoever waits for data is woken while there
-- is some.
pub record IsLive (r : Ringbuf) (b : List ℕ) : Type 0 where
  pub stored : r.buf ≡ some b
  pub mutex : r.has_mutex ≡ true
  pub sized : length b ≡ r.size
  pub tail_in : r.tail < r.size
  pub fits : r.available ≤ r.size
  pub head_at : r.head ≡ place r.size r.tail r.available
  pub signalled : 0 < r.available → r.data_ready ≡ true

-- the bytes that wait, oldest first
abbrev pub contents : Ringbuf → List ℕ → List ℕ
contents r b = queue b r.size r.tail r.available

-- what `ringbuf_write` does when it gets the mutex
pub record Written (r : Ringbuf) (b src : List ℕ) (out : Ringbuf × Bool) : Type 0 where
  pub storage : List ℕ
  pub live : IsLive out.0 storage
  pub accepted : out.1 ≡ leb (r.available + length src) r.size
  pub appended :
      contents out.0 storage
      ≡ (if leb (r.available + length src) r.size then contents r b ++ src else contents r b)
  pub lost : out.0.dropped_packets ≡ (
      if leb (r.available + length src) r.size
      then r.dropped_packets
      else u32 (r.dropped_packets + 1))

-- With the mutex free, `ringbuf_write` appends all bytes of a packet if they fit, and otherwise
-- none of them, counts the packet as dropped and returns false. The ring stays well formed.
pub ringbuf_write-Written :
    (r : Ringbuf) (b src : List ℕ) → IsLive r b → Written r b src (ringbuf_write r false src)
unfolding ringbuf_write
ringbuf_write-Written r b src v = elim (Bool-cases (ltb (r.size - r.available) (length src))) [
  | inl full ↦
      let over : leb (r.available + length src) r.size ≡ false = ground (arith, full, v.fits) in
      rw (v.stored, v.mutex, full)
        (record {
          storage = b;
          live = record {
            stored = refl;
            mutex = refl;
            sized = v.sized;
            tail_in = v.tail_in;
            fits = v.fits;
            head_at = v.head_at;
            signalled = v.signalled;
          };
          accepted = sym over;
          appended = rw over refl;
          lost = rw over refl;
        })
  | inr room ↦
      let under : leb (r.available + length src) r.size ≡ true = ground (arith, room, v.fits) in
      let under' : r.available + length src ≤ r.size = ground (arith, under) in
      let b' = (put_bytes b r.size r.head src).0 in
      let head_in : r.head < r.size =
        rw v.head_at (place-lt r.size r.tail r.available v.tail_in v.fits) in
      rw (v.stored, v.mutex, room)
        (record {
          storage = b';
          live = record {
            stored = refl;
            mutex = refl;
            sized = put_bytes-length b src r.size r.head v.sized;
            tail_in = v.tail_in;
            fits = under';
            head_at =
                put_bytes-head b src r.size r.head head_in (omega (arith, under'))
                ∙ (ap (λ h. place r.size h (length src)) v.head_at
                    ∙ sym (place-add r.size r.tail r.available (length src) v.tail_in under'));
            signalled = λ _. refl;
          };
          accepted = sym under;
          appended =
              rw (under, v.head_at)
                (queue-put b src r.size r.tail r.available v.sized v.tail_in under');
          lost = rw under refl;
        })
]

-- what `ringbuf_read` does: the bytes that it returns, and those that it leaves
pub record WasRead (r : Ringbuf) (b : List ℕ) (max_len : ℕ) (out : Ringbuf × List ℕ) : Type 0 where
  pub live : IsLive out.0 b
  pub taken : contents r b ≡ out.1 ++ contents out.0 b
  pub count : length out.1 ≡ min max_len r.available
  pub same_drops : out.0.dropped_packets ≡ r.dropped_packets

nothing :
    (r : Ringbuf) (b : List ℕ) (max_len : ℕ)
    → IsLive r b
    → r.available ≡ 0
    → WasRead r b max_len (r, [])
nothing r b max_len v e = record {
  live = v;
  taken = refl;
  count = omega (arith, e);
  same_drops = refl;
}

-- the state after `k` bytes have been taken from the front
taken_out :
    (r : Ringbuf) (b : List ℕ) (k : ℕ) (ready : Bool)
    → IsLive r b
    → k ≤ r.available
    → (0 < r.available - k → ready ≡ true)
    → IsLive
        (record r {
          buf = some b;
          tail = (get_bytes b r.size r.tail k).1;
          available = r.available - k;
          data_ready = ready;
        })
        b
taken_out r b k ready v less still =
    let moved = (queue-get b r.size r.tail k v.tail_in (omega (arith, v.fits))).1 in
    let whole : k + (r.available - k) ≡ r.available = omega arith in
    record {
      stored = refl;
      mutex = v.mutex;
      sized = v.sized;
      tail_in = rw moved (place-lt r.size r.tail k v.tail_in (omega (arith, v.fits)));
      fits = omega (arith, v.fits);
      head_at =
          v.head_at
          ∙ ap (place r.size r.tail) (sym whole)
          ∙ place-add r.size r.tail k (r.available - k) v.tail_in (omega (arith, v.fits))
          ∙ ap (λ (t : ℕ). place r.size t (r.available - k)) (sym moved);
      signalled = still;
    }

read_some :
    (r : Ringbuf) (b : List ℕ) (max_len : ℕ)
    → IsLive r b
    → r.data_ready ≡ true
    → (r.available == 0) ≡ false
    → WasRead r b max_len (read_wake r max_len)
unfolding read_wake
read_some r b max_len v ready some_left =
    let k = to_read_of max_len r.available in
    let less : k ≤ r.available = ground arith in
    let ready' = (if ltb 0 (r.available - k) then true else false) in
    let got = queue-get b r.size r.tail k v.tail_in (omega (arith, v.fits, less)) in
    let whole : k + (r.available - k) ≡ r.available = omega (arith, less) in
    rw (ready, v.stored, some_left)
      (record {
        live = taken_out r b k ready' v less (λ h. ground arith);
        taken =
            ap (queue b r.size r.tail) (sym whole)
            ∙ queue-split b r.size r.tail k (r.available - k) v.tail_in
                (omega (arith, v.fits, less))
            ∙ ap₂ ◌++◌ (sym got.0) (ap (λ (t : ℕ). queue b r.size t (r.available - k)) (sym got.1));
        count = ap length got.0 ∙ length-queue b r.size r.tail k ∙ ground arith;
        same_drops = refl;
      })

enters :
    (r : Ringbuf) (b : List ℕ) (max_len : ℕ)
    → IsLive r b
    → ringbuf_read r max_len ≡ read_wake r max_len
unfolding ringbuf_read
enters r b max_len v = rw (v.stored, v.mutex)

timed_out : (r : Ringbuf) (max_len : ℕ) → r.data_ready ≡ false → read_wake r max_len ≡ (r, [])
unfolding read_wake
timed_out r max_len e = rw e

found_empty :
    (r : Ringbuf) (b : List ℕ) (max_len : ℕ)
    → r.buf ≡ some b
    → r.data_ready ≡ true
    → (r.available == 0) ≡ true
    → read_wake r max_len ≡ (record r { data_ready = false }, [])
unfolding read_wake
found_empty r b max_len s e z = rw (s, e, z)

-- `ringbuf_read` on an allocated ring returns the oldest bytes, as many as wait up to `max_len`,
-- and leaves the rest in order; it returns nothing, by timeout or otherwise, only if no byte waits
-- or `max_len` is 0. The ring stays well formed and the count of drops does not change.
pub ringbuf_read-WasRead :
    (r : Ringbuf) (b : List ℕ) (max_len : ℕ)
    → IsLive r b
    → WasRead r b max_len (ringbuf_read r max_len)
ringbuf_read-WasRead r b max_len v = rw (enters r b max_len v) (elim (Bool-cases r.data_ready) [
  | inr quiet ↦
      let none_left : r.available ≡ 0 = ground (arith, v.signalled, quiet) in
      rw (timed_out r max_len quiet) (nothing r b max_len v none_left)
  | inl ready ↦ elim (Bool-cases (r.available == 0)) [
    | inr some_left ↦ read_some r b max_len v ready some_left
    | inl zero_left ↦
        let none_left : r.available ≡ 0 = ground (arith, zero_left) in
        rw (found_empty r b max_len v.stored ready zero_left) (record {
          live = record {
            stored = v.stored;
            mutex = v.mutex;
            sized = v.sized;
            tail_in = v.tail_in;
            fits = v.fits;
            head_at = v.head_at;
            signalled = λ h. absurd (omega (arith, none_left, h));
          };
          taken = refl;
          count = omega (arith, none_left);
          same_drops = refl;
        })
  ]
])
