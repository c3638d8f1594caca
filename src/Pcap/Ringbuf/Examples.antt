-- ===== src/Pcap/Ringbuf/Examples.antt =====
-- The theorems on pcap_ringbuf.c at a ring of four bytes.
use esp32_pppo_e_router.Base.{
  ℕ, ◌≡◌, refl, arith, true, false, none, some, List, [], ◌∷◌, ◌++◌, length, bytes_at, copy_to,
  tabulate,
}
use esp32_pppo_e_router.Pcap.Ringbuf.{
  Ringbuf, ringbuf_alloc, ringbuf_free, ringbuf_write, ringbuf_read, skip_locked, read_wake,
}
use esp32_pppo_e_router.Pcap.Ringbuf.Steps.{IsLive}
use esp32_pppo_e_router.Pcap.Ringbuf.Runs.{Event, write, read, run, run-delivers, skip-after-free}

-- 8, then 9, round the end of the storage
abbrev cells : List ℕ
cells = 9 ∷ 0 ∷ 0 ∷ 8 ∷ []

abbrev wrapped : Ringbuf
wrapped = record {
  buf = some cells;
  size = 4;
  head = 1;
  tail = 3;
  available = 2;
  dropped_packets = 0;
  has_mutex = true;
  data_ready = true;
}

abbrev closed : Ringbuf
closed = record wrapped { buf = none; size = 0; available = 0 }

wrapped-IsLive : IsLive wrapped cells
wrapped-IsLive = record {
  stored = refl;
  mutex = refl;
  sized = refl;
  tail_in = omega arith;
  fits = omega arith;
  head_at = refl;
  signalled = λ _. refl;
}

abbrev session : List Event
session =
    write false (1 ∷ 2 ∷ 3 ∷ [])
    ∷ write false (4 ∷ 5 ∷ [])
    ∷ read 2
    ∷ write true (6 ∷ [])
    ∷ write false (7 ∷ 8 ∷ [])
    ∷ read 9
    ∷ []

run-delivers_example :
    let t = run (ringbuf_alloc closed 4 (some cells)).0 session in
    (waiting : List ℕ) × (t.accepted ≡ t.delivered ++ waiting) × (length waiting ≡ t.ring.available)
run-delivers_example = run-delivers closed 4 cells session refl refl (omega arith) refl

run-session :
    (run (ringbuf_alloc closed 4 (some cells)).0 session).delivered ≡ 1 ∷ 2 ∷ 3 ∷ 7 ∷ 8 ∷ []
unfolding run ringbuf_alloc ringbuf_write ringbuf_read bytes_at tabulate copy_to
run-session = refl

skip-after-free_example :
    (skip_locked (ringbuf_free wrapped) 1 ≡ none) × ((read_wake (ringbuf_free wrapped) 4).1 ≡ [])
skip-after-free_example = skip-after-free wrapped cells 1 4 wrapped-IsLive
