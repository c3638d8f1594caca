-- ===== src/Pcap/Capture/Examples.antt =====
-- The theorems on pcap_capture.c at a session with a small ring.
use esp32_pppo_e_router.Base.{
  ℕ, ◌≡◌, refl, arith, true, false, none, some, List, [], ◌∷◌, ◌++◌, take, length, replicate,
  length-replicate,
}
use esp32_pppo_e_router.Base.Buffers.{flat}
use esp32_pppo_e_router.Pcap.Ringbuf.{Ringbuf}
use esp32_pppo_e_router.Pcap.Ringbuf.Steps.{IsLive}
use esp32_pppo_e_router.Pcap.Capture.{
  mode_off, promiscuous, Capture, Chain, Created, packet_header, pcap_capture_packet,
}
use esp32_pppo_e_router.Pcap.Capture.Record.{Captured, pcap_capture_packet-Captured}
use esp32_pppo_e_router.Pcap.Capture.Session.{
  Operation, set_mode, set_snaplen, client_comes, client_goes, server_fails, capture, operate_all,
  IsReady, operate_all-IsReady,
}

abbrev area : List ℕ
area = replicate 1616 0

area-length : length area ≡ 1616
area-length = length-replicate {A = ℕ} 1616 0

-- 70 bytes in two segments
abbrev packet : Chain
packet = record { tot_len = 70; segments = replicate 40 7 ∷ replicate 30 9 ∷ [] }

abbrev storage : List ℕ
storage = replicate 100 0

abbrev small_ring : Ringbuf
small_ring = record {
  buf = some storage;
  size = 100;
  head = 0;
  tail = 0;
  available = 0;
  dropped_packets = 0;
  has_mutex = true;
  data_ready = false;
}

abbrev session : Capture
session = record {
  capture_mode = promiscuous;
  client_connected = true;
  has_handle = true;
  task_runs = true;
  captured_packets = 0;
  pcap_snaplen = 64;
  pcap_link_type = 1;
  ring = small_ring;
}

small_ring-IsLive : IsLive small_ring storage
small_ring-IsLive = record {
  stored = refl;
  mutex = refl;
  sized = refl;
  tail_in = omega arith;
  fits = omega arith;
  head_at = refl;
  signalled = λ p. absurd (omega (arith, p));
}

pcap_capture_packet-Captured_example :
    (o : Capture) × (pcap_capture_packet session (some packet) 5 6 area false ≡ some o)
    × Captured session storage (packet_header 5 6 64 70 ++ take 64 (flat packet.segments)) o
pcap_capture_packet-Captured_example =
    pcap_capture_packet-Captured session packet 5 6 area storage refl small_ring-IsLive
      (omega arith) (area-length) refl

-- the state at start
abbrev at_start : Capture
at_start = record session {
  capture_mode = mode_off;
  client_connected = false;
  has_handle = false;
  task_runs = false;
  ring = record small_ring { buf = none; size = 0; has_mutex = false };
}

at_start-IsReady : IsReady at_start
at_start-IsReady = record {
  snaplen_least = omega arith;
  snaplen_most = omega arith;
  served = λ e. absurd (cc);
  locked = λ e. absurd (cc);
}

abbrev all_made : Created
all_made = record { mutex = true; semaphore = true; task = true }

abbrev operations : List Operation
operations =
    set_mode promiscuous all_made
    ∷ server_fails
    ∷ client_comes 100 (some storage)
    ∷ set_snaplen 9
    ∷ capture (some packet) 5 6 area false
    ∷ client_goes
    ∷ []

operate_all-IsReady_example : (d : Capture) × (operate_all at_start operations ≡ some d) × IsReady d
operate_all-IsReady_example =
    operate_all-IsReady at_start operations at_start-IsReady
      (tt, (tt, (tt, (tt, (area-length, (tt, tt))))))
