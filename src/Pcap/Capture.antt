-- ===== src/Pcap/Capture.antt =====
-- components/pcap_capture/pcap_capture.c: what is captured, the record of a packet, and the state
-- of a capture session. The sockets are not modelled: a session starts when a client has been
-- accepted and ends at `client_disconnect`, and the server task, once created, does not end.
pub mod Record
pub mod Session
mod Examples
use esp32_pppo_e_router.Base.{
  ℕ, ◌+◌, ◌-◌, ◌*◌, ◌%◌, Bool, true, false, not, ◌&&◌, ◌||◌, Option, none, some, List, [], ◌∷◌,
  ◌++◌, length, take, leb, ltb, ◌==◌, if◌then◌else◌, u32,
}
use esp32_pppo_e_router.Base.Bytes.{◌>>=◌}
use esp32_pppo_e_router.Base.Buffers.{overwrite, le32, le16}
use esp32_pppo_e_router.Pcap.Ringbuf.{
  Ringbuf, ringbuf_init, ringbuf_alloc, ringbuf_free, ringbuf_reset, ringbuf_write,
}

-- `pcap_capture_mode_t`
pub data Mode : Type 0 where
  mode_off acl_monitor promiscuous : Mode

abbrev pub is_off : Mode → Bool
is_off mode_off = true
is_off acl_monitor = false
is_off promiscuous = false

-- The file's static variables, with those of the ring. `has_handle`: `pcap_task_handle` is set;
-- `task_runs`: the task it stands for has not ended.
pub record Capture : Type 0 where
  pub capture_mode : Mode
  pub client_connected : Bool
  pub has_handle : Bool
  pub task_runs : Bool
  pub captured_packets : ℕ  -- uint32
  pub pcap_snaplen : ℕ  -- uint16
  pub pcap_link_type : ℕ  -- uint32
  pub ring : Ringbuf

abbrev pub pcap_snaplen_max : ℕ
pcap_snaplen_max = 1600

abbrev pub pkt_hdr_size : ℕ
pkt_hdr_size = 16

-- a chain of packet buffers
pub record Chain : Type 0 where
  pub tot_len : ℕ  -- uint16
  pub segments : List (List ℕ)

unfoldable pub pcap_should_capture : Capture → Bool → Bool → Bool
pcap_should_capture c is_acl_monitored is_ap_interface =
    if not c.client_connected then false else (wanted c.capture_mode)
  where
    wanted : Mode → Bool
    wanted mode_off = false
    wanted acl_monitor = is_acl_monitored
    wanted promiscuous = not is_ap_interface

abbrev pub incl_len_of : ℕ → ℕ → ℕ
incl_len_of tot_len snaplen = if ltb snaplen tot_len then snaplen else tot_len

-- `pcap_packet_header_t` for a packet of `orig_len` bytes
abbrev pub packet_header : ℕ → ℕ → ℕ → ℕ → List ℕ
packet_header ts_sec ts_usec incl_len orig_len =
    le32 ts_sec ++ (le32 ts_usec ++ (le32 incl_len ++ le32 orig_len))

-- The loop that copies a chain into `pkt_buf` behind the header.
unfoldable pub copy_chain : List (List ℕ) → ℕ → ℕ → List ℕ → Option (List ℕ)
copy_chain [] copied incl_len buf = some buf
copy_chain (q ∷ qs) copied incl_len buf =
    if ltb copied incl_len
    then (let to_copy = if ltb incl_len (copied + length q) then incl_len - copied else length q in
        overwrite buf (pkt_hdr_size + copied) (take to_copy q)
        >>= (λ b. copy_chain qs (copied + to_copy) incl_len b))
    else some buf

-- The record that goes to the ring. `pkt_buf` is the stack area, `none` a write outside it.
unfoldable pub packet_record : ℕ → Chain → ℕ → ℕ → List ℕ → Option (List ℕ)
packet_record snaplen p ts_sec ts_usec pkt_buf =
    let incl_len = incl_len_of p.tot_len snaplen in
    do
      with_header ← overwrite pkt_buf 0 (packet_header ts_sec ts_usec incl_len p.tot_len)
      full ← copy_chain p.segments 0 incl_len with_header
      some (take (pkt_hdr_size + incl_len) full)

abbrev pub count_captured : Capture → Ringbuf × Bool → Capture
count_captured c (ring, kept) = record c {
  captured_packets = if kept then u32 (c.captured_packets + 1) else c.captured_packets;
  ring = ring;
}

-- `busy`: the ring's mutex is taken. `pkt_buf` is the area that the stack provides.
unfoldable pub pcap_capture_packet : Capture → Option Chain → ℕ → ℕ → List ℕ → Bool → Option Capture
pcap_capture_packet c none ts_sec ts_usec pkt_buf busy = some c
pcap_capture_packet c (some p) ts_sec ts_usec pkt_buf busy =
    if not c.client_connected
    then some c
    else packet_record c.pcap_snaplen p ts_sec ts_usec pkt_buf
      >>= (λ r. some (count_captured c (ringbuf_write c.ring busy r)))

-- What FreeRTOS could create: the mutex, the semaphore and the server task.
pub record Created : Type 0 where
  pub mutex : Bool
  pub semaphore : Bool
  pub task : Bool

unfoldable pub ensure_server_running : Capture → Created → Capture × Bool
ensure_server_running c made =
    if c.has_handle
    then (c, true)
    else let (ring, ready) = ringbuf_init c.ring made.mutex made.semaphore in
      let c' = record c { ring = ring } in
      if not ready
      then (c', false)
      else if not made.task
      then (c', false)
      else (record c' { has_handle = true; task_runs = true }, true)

abbrev set_running : Mode → Mode → Capture × Bool → Capture
set_running old_mode mode (c, running) =
    if not running
    then c
    else if is_off old_mode && not (is_off mode)
    then record c { capture_mode = mode; captured_packets = 0; ring = ringbuf_reset c.ring }
    else record c { capture_mode = mode }

unfoldable pub pcap_set_mode : Capture → Mode → Created → Capture
unfolding ensure_server_running
pcap_set_mode c mode made =
    set_running c.capture_mode mode
      (if is_off mode then (c, true) else ensure_server_running c made)

unfoldable pub pcap_set_snaplen : Capture → ℕ → Capture × Bool
pcap_set_snaplen c snaplen =
    if ltb snaplen 64 || ltb pcap_snaplen_max snaplen
    then (c, false)
    else (record c { pcap_snaplen = snaplen }, true)

unfoldable pub pcap_set_link_type : Capture → ℕ → Capture
pcap_set_link_type c dlt = record c { pcap_link_type = dlt }

-- `pcap_global_header_t`, 24 bytes
unfoldable pub pcap_global_header : Capture → List ℕ
pcap_global_header c =
    le32 0xa1b2c3d4
    ++ (le16 2
        ++ (le16 4 ++ (le32 0 ++ (le32 0 ++ (le32 c.pcap_snaplen ++ le32 c.pcap_link_type)))))

-- A client has been accepted; the result says whether its session goes on.
unfoldable pub session_start : Capture → ℕ → Option (List ℕ) → Capture × Bool
session_start c size storage =
    let (ring, ready) = ringbuf_alloc c.ring size storage in
    (record c { client_connected = true; ring = ring }, ready)

-- `client_disconnect`
unfoldable pub session_end : Capture → Capture
session_end c = record c { client_connected = false; ring = ringbuf_free c.ring }

-- The server task ends where it gets no socket, address or buffer. The handle stays set.
unfoldable pub server_failed : Capture → Capture
server_failed c = record c { task_runs = false }
