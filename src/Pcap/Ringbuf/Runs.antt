-- ===== src/Pcap/Ringbuf/Runs.antt =====
-- A capture session as a sequence of writes by the packet hooks and reads by the server task
-- (pcap_ringbuf.c), and the operations that race with the release of the buffer.
use esp32_pppo_e_router.Base.{
  ℕ, ◌+◌, ◌<◌, ◌≡◌, refl, ap, sym, ◌∙◌, arith, Bool, true, false, List, [], ◌∷◌, ◌++◌, none, some,
  append-nil, append_assoc, length, leb, if◌then◌else◌, u32, tabulate,
}
use esp32_pppo_e_router.Pcap.Ringbuf.{
  Ringbuf, ringbuf_alloc, ringbuf_free, ringbuf_write, ringbuf_read, skip_locked, read_wake,
}
use esp32_pppo_e_router.Pcap.Ringbuf.Fifo.{queue, length-queue}
use esp32_pppo_e_router.Pcap.Ringbuf.Steps.{
  IsLive, contents, ringbuf_write-Written, ringbuf_read-WasRead,
}

-- A write with whether it finds the mutex taken, or a read of at most so many bytes.
pub data Event : Type 0 where
  write : Bool → List ℕ → Event
  read : ℕ → Event

-- the ring at the end, the bytes of the writes that returned true, and the bytes that were read
pub record Trace : Type 0 where
  pub ring : Ringbuf
  pub accepted : List ℕ
  pub delivered : List ℕ

abbrev pub after_write : List ℕ → Bool → Trace → Trace
after_write src kept t = record t { accepted = if kept then src ++ t.accepted else t.accepted }

abbrev pub after_read : List ℕ → Trace → Trace
after_read got t = record t { delivered = got ++ t.delivered }

unfoldable pub run : Ringbuf → List Event → Trace
run r [] = record { ring = r; accepted = []; delivered = [] }
run r (write busy src ∷ es) =
    let (r', kept) = ringbuf_write r busy src in after_write src kept (run r' es)
run r (read n ∷ es) = let (r', got) = ringbuf_read r n in after_read got (run r' es)

-- A write that finds the mutex taken changes nothing but the count of drops.
busy_write :
    (r : Ringbuf) (b src : List ℕ)
    → IsLive r b
    → ringbuf_write r true src ≡ (record r { dropped_packets = u32 (r.dropped_packets + 1) }, false)
unfolding ringbuf_write
busy_write r b src v = rw (v.stored, v.mutex)

-- what a run over `es` from `r` keeps
record Conserves (r : Ringbuf) (b : List ℕ) (t : Trace) : Type 0 where
  storage : List ℕ
  live : IsLive t.ring storage
  same : contents r b ++ t.accepted ≡ t.delivered ++ contents t.ring storage

-- An accepted write moves its bytes from the input to the ring, a refused one moves nothing.
wrote :
    (before src rest out now : List ℕ) (fits kept : Bool)
    → kept ≡ fits
    → now ≡ (if fits then before ++ src else before)
    → now ++ rest ≡ out
    → before ++ (if kept then src ++ rest else rest) ≡ out
wrote before src rest out now true kept k a e =
    rw k (sym (append_assoc before src rest) ∙ ap (λ c. c ++ rest) (sym a) ∙ e)
wrote before src rest out now false kept k a e = rw k (ap (λ c. c ++ rest) (sym a) ∙ e)

run-Conserves : (r : Ringbuf) (b : List ℕ) (es : List Event) → IsLive r b → Conserves r b (run r es)
unfolding run
run-Conserves r b [] v = record { storage = b; live = v; same = append-nil (contents r b) }
run-Conserves r b (write true src ∷ es) v =
    let ih =
      run-Conserves (record r { dropped_packets = u32 (r.dropped_packets + 1) }) b es
        (record {
          stored = v.stored;
          mutex = v.mutex;
          sized = v.sized;
          tail_in = v.tail_in;
          fits = v.fits;
          head_at = v.head_at;
          signalled = v.signalled;
        }) in
    rw (busy_write r b src v) (record { storage = ih.storage; live = ih.live; same = ih.same })
run-Conserves r b (write false src ∷ es) v =
    let w = ringbuf_write-Written r b src v in
    let ih = run-Conserves (ringbuf_write r false src).0 w.storage es w.live in
    record {
      storage = ih.storage;
      live = ih.live;
      same =
          wrote (contents r b) src (run (ringbuf_write r false src).0 es).accepted _ _
            (leb (r.available + length src) r.size) (ringbuf_write r false src).1 w.accepted
            w.appended ih.same;
    }
run-Conserves r b (read n ∷ es) v =
    let got = ringbuf_read-WasRead r b n v in
    let out = (ringbuf_read r n).1 in
    let r' = (ringbuf_read r n).0 in
    let ih = run-Conserves r' b es got.live in
    record {
      storage = ih.storage;
      live = ih.live;
      same =
          ap (λ c. c ++ (run r' es).accepted) got.taken
          ∙ append_assoc out (contents r' b) (run r' es).accepted
          ∙ ap (λ c. out ++ c) ih.same
          ∙ sym (append_assoc out (run r' es).delivered (contents (run r' es).ring ih.storage));
    }

abbrev empty_ring : ℕ → List ℕ → Ringbuf
empty_ring size storage = record {
  buf = some storage;
  size = size;
  head = 0;
  tail = 0;
  available = 0;
  dropped_packets = 0;
  has_mutex = true;
  data_ready = false;
}

alloc-empty :
    (r : Ringbuf) (size : ℕ) (storage : List ℕ)
    → r.has_mutex ≡ true
    → r.buf ≡ none
    → ringbuf_alloc r size (some storage) ≡ (empty_ring size storage, true)
unfolding ringbuf_alloc
alloc-empty r size storage m e = rw (m, e)

empty_ring-IsLive :
    (size : ℕ) (storage : List ℕ)
    → 0 < size
    → length storage ≡ size
    → IsLive (empty_ring size storage) storage
empty_ring-IsLive size storage h e = record {
  stored = refl;
  mutex = refl;
  sized = e;
  tail_in = h;
  fits = omega arith;
  head_at = ground arith;
  signalled = λ p. absurd (omega arith);
}

-- In a capture session, from the allocation of a buffer of at least one byte and through any
-- sequence of packet writes and client reads, what the client has read is a prefix of the bytes of
-- the packets that were accepted, in order, none lost, repeated or split: the rest still waits in
-- the ring.
pub run-delivers :
    (r : Ringbuf) (size : ℕ) (storage : List ℕ) (es : List Event)
    → r.has_mutex ≡ true
    → r.buf ≡ none
    → 0 < size
    → length storage ≡ size
    → let t = run (ringbuf_alloc r size (some storage)).0 es in
      (waiting : List ℕ) × (t.accepted ≡ t.delivered ++ waiting)
      × (length waiting ≡ t.ring.available)
unfolding queue
run-delivers r size storage es m e h l =
    let c =
      run-Conserves (empty_ring size storage) storage es (empty_ring-IsLive size storage h l) in
    rw (alloc-empty r size storage m e) (
      contents (run (empty_ring size storage) es).ring c.storage,
      unfold tabulate in c.same,
      length-queue c.storage _ _ _,
    )

-- `ringbuf_skip` tests for a buffer before it has the mutex and not after: if the buffer of an
-- allocated ring is released in between, it divides by a size of 0. A read in the same place finds the buffer gone
-- and returns no bytes.
pub skip-after-free :
    (r : Ringbuf) (b : List ℕ) (len max_len : ℕ)
    → IsLive r b
    → (skip_locked (ringbuf_free r) len ≡ none) × ((read_wake (ringbuf_free r) max_len).1 ≡ [])
unfolding skip_locked ringbuf_free read_wake
skip-after-free r b len max_len v = ground (arith, v.stored, v.mutex)
