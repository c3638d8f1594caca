-- ===== src/Pcap/Capture/Session.antt =====
-- The state of pcap_capture.c over any sequence of its operations.
use esp32_pppo_e_router.Base.{
  ℕ, ◌+◌, ◌≤◌, ◌≡◌, refl, arith, Bool, true, false, Option, none, some, inl, inr, List, [], ◌∷◌,
  length, Bool-cases, Option-cases,
}
use esp32_pppo_e_router.Base.Bytes.{◌>>=◌}
use esp32_pppo_e_router.Pcap.Ringbuf.{
  Ringbuf, ringbuf_init, ringbuf_alloc, ringbuf_free, ringbuf_reset, ringbuf_write,
}
use esp32_pppo_e_router.Pcap.Capture.Record.{packet_record-some}
use esp32_pppo_e_router.Pcap.Capture.{
  Mode, mode_off, acl_monitor, promiscuous, is_off, Capture, Chain, Created, pcap_snaplen_max,
  pkt_hdr_size, count_captured, packet_record, pcap_capture_packet, ensure_server_running,
  pcap_set_mode, pcap_set_snaplen, pcap_set_link_type, session_start, session_end, server_failed,
}

-- An operation, with what the system gives it: the objects FreeRTOS could create, the storage that
-- `malloc` returns, or the clock, the stack area and whether the ring's mutex is taken.
pub data Operation : Type 0 where
  set_mode : Mode → Created → Operation
  set_snaplen : ℕ → Operation
  set_link_type : ℕ → Operation
  client_comes : ℕ → Option (List ℕ) → Operation
  client_goes server_fails : Operation
  capture : Option Chain → ℕ → ℕ → List ℕ → Bool → Operation

-- `none`: a packet was copied out of bounds
abbrev pub operate : Capture → Operation → Option Capture
operate c (set_mode mode made) = some (pcap_set_mode c mode made)
operate c (set_snaplen n) = some (pcap_set_snaplen c n).0
operate c (set_link_type dlt) = some (pcap_set_link_type c dlt)
operate c (client_comes size storage) = some (session_start c size storage).0
operate c client_goes = some (session_end c)
operate c server_fails = some (server_failed c)
operate c (capture p ts_sec ts_usec pkt_buf busy) =
    pcap_capture_packet c p ts_sec ts_usec pkt_buf busy

abbrev pub operate_all : Capture → List Operation → Option Capture
operate_all c [] = some c
operate_all c (o ∷ os) = operate c o >>= (λ d. operate_all d os)

-- The snap length is in its range, and capturing is on only when a server task has been created, be
-- it that it has ended since, and there is a ring to use.
pub record IsReady (c : Capture) : Type 0 where
  pub snaplen_least : 64 ≤ c.pcap_snaplen
  pub snaplen_most : c.pcap_snaplen ≤ pcap_snaplen_max
  pub served : is_off c.capture_mode ≡ false → c.has_handle ≡ true
  pub locked : c.has_handle ≡ true → c.ring.has_mutex ≡ true

set_mode-IsReady :
    (c : Capture) (mode : Mode) (made : Created) → IsReady c → IsReady (pcap_set_mode c mode made)
unfolding pcap_set_mode ensure_server_running ringbuf_init ringbuf_reset
set_mode-IsReady c mode_off made v = ground (arith, v)
set_mode-IsReady c acl_monitor made v = ground (arith, v)
set_mode-IsReady c promiscuous made v = ground (arith, v)

alloc-mutex :
    (r : Ringbuf) (size : ℕ) (storage : Option (List ℕ))
    → (ringbuf_alloc r size storage).0.has_mutex ≡ r.has_mutex
unfolding ringbuf_alloc
alloc-mutex r size none = ground arith
alloc-mutex r size (some st) = ground arith

free-mutex : (r : Ringbuf) → (ringbuf_free r).has_mutex ≡ r.has_mutex
unfolding ringbuf_free
free-mutex r = ground arith

write-mutex :
    (r : Ringbuf) (busy : Bool) (src : List ℕ)
    → (ringbuf_write r busy src).0.has_mutex ≡ r.has_mutex
unfolding ringbuf_write
write-mutex r busy src = elim (Option-cases r.buf) [
  | inl e ↦ rw e (ground arith)
  | inr (b, e) ↦ rw e (ground arith)
]

-- a change of the ring that keeps its mutex
with_ring :
    (c d : Capture)
    → IsReady c
    → d.capture_mode ≡ c.capture_mode
    → d.has_handle ≡ c.has_handle
    → d.pcap_snaplen ≡ c.pcap_snaplen
    → d.ring.has_mutex ≡ c.ring.has_mutex
    → IsReady d
with_ring c d v m t n r = record {
  snaplen_least = rw n v.snaplen_least;
  snaplen_most = rw n v.snaplen_most;
  served = rw (m, t) v.served;
  locked = rw (t, r) v.locked;
}

set_snaplen-IsReady : (c : Capture) (n : ℕ) → IsReady c → IsReady (pcap_set_snaplen c n).0
unfolding pcap_set_snaplen
set_snaplen-IsReady c n v = ground (arith, v)

captured_as :
    (c : Capture) (p : Chain) (ts_sec ts_usec : ℕ) (pkt_buf : List ℕ) (busy : Bool) (r : List ℕ)
    → c.client_connected ≡ true
    → packet_record c.pcap_snaplen p ts_sec ts_usec pkt_buf ≡ some r
    → pcap_capture_packet c (some p) ts_sec ts_usec pkt_buf busy
      ≡ some (count_captured c (ringbuf_write c.ring busy r))
unfolding pcap_capture_packet
captured_as c p ts_sec ts_usec pkt_buf busy r on good = rw (on, good) refl

not_captured :
    (c : Capture) (p : Chain) (ts_sec ts_usec : ℕ) (pkt_buf : List ℕ) (busy : Bool)
    → c.client_connected ≡ false
    → pcap_capture_packet c (some p) ts_sec ts_usec pkt_buf busy ≡ some c
unfolding pcap_capture_packet
not_captured c p ts_sec ts_usec pkt_buf busy off = rw off refl

-- a capture has the stack area of `pcap_capture_packet`
abbrev pub HasArea : Operation → Type 0
HasArea (set_mode _ _) = Unit
HasArea (set_snaplen _) = Unit
HasArea (set_link_type _) = Unit
HasArea (client_comes _ _) = Unit
HasArea client_goes = Unit
HasArea server_fails = Unit
HasArea (capture _ _ _ pkt_buf _) = length pkt_buf ≡ pkt_hdr_size + pcap_snaplen_max

abbrev pub HaveAreas : List Operation → Type 0
HaveAreas [] = Unit
HaveAreas (o ∷ os) = HasArea o × HaveAreas os

-- a step that succeeds and keeps `IsReady`
abbrev pub Goes : Option Capture → Type 0
Goes out = (d : Capture) × (out ≡ some d) × IsReady d

pub capture-Goes :
    (c : Capture) (p : Option Chain) (ts_sec ts_usec : ℕ) (pkt_buf : List ℕ) (busy : Bool)
    → IsReady c
    → length pkt_buf ≡ pkt_hdr_size + pcap_snaplen_max
    → Goes (pcap_capture_packet c p ts_sec ts_usec pkt_buf busy)
unfolding pcap_capture_packet
capture-Goes c none ts_sec ts_usec pkt_buf busy v l = (c, refl, v)
capture-Goes c (some p) ts_sec ts_usec pkt_buf busy v l = elim (Bool-cases c.client_connected) [
  | inr off ↦ (c, not_captured c p ts_sec ts_usec pkt_buf busy off, v)
  | inl on ↦
      let (r, good) = packet_record-some c.pcap_snaplen p ts_sec ts_usec pkt_buf v.snaplen_most l in
      let d = count_captured c (ringbuf_write c.ring busy r) in
      (
        d,
        captured_as c p ts_sec ts_usec pkt_buf busy r on good,
        with_ring c d v refl refl refl (write-mutex c.ring busy r),
      )
]

operate-Goes : (c : Capture) (o : Operation) → IsReady c → HasArea o → Goes (operate c o)
unfolding pcap_set_link_type session_start session_end server_failed
operate-Goes c (set_mode mode made) v a =
    (pcap_set_mode c mode made, refl, set_mode-IsReady c mode made v)
operate-Goes c (set_snaplen n) v a = ((pcap_set_snaplen c n).0, refl, set_snaplen-IsReady c n v)
operate-Goes c (set_link_type dlt) v a =
    (pcap_set_link_type c dlt, refl, with_ring c (pcap_set_link_type c dlt) v refl refl refl refl)
operate-Goes c (client_comes size storage) v a = (
  (session_start c size storage).0,
  refl,
  with_ring c (session_start c size storage).0 v refl refl refl (alloc-mutex c.ring size storage),
)
operate-Goes c client_goes v a =
    (session_end c, refl, with_ring c (session_end c) v refl refl refl (free-mutex c.ring))
operate-Goes c server_fails v a =
    (server_failed c, refl, with_ring c (server_failed c) v refl refl refl refl)
operate-Goes c (capture p ts_sec ts_usec pkt_buf busy) v a =
    capture-Goes c p ts_sec ts_usec pkt_buf busy v a

-- Any sequence of mode, snap length and link type changes, of clients coming and going, of failures
-- of the server task, and of captured packets, even with a wrong `tot_len`, runs without a write outside the stack area that
-- each capture has, and keeps this: the snap length is between 64 and 1600, and capturing is on
-- only when the handle of a server task is set, which it stays when that task has failed, and the
-- ring has its mutex.
pub operate_all-IsReady :
    (c : Capture) (os : List Operation)
    → IsReady c
    → HaveAreas os
    → (d : Capture) × (operate_all c os ≡ some d) × IsReady d
operate_all-IsReady c [] v a = (c, refl, v)
operate_all-IsReady c (o ∷ os) v a =
    let (c', e, v') = operate-Goes c o v a.0 in
    let (d, f, w) = operate_all-IsReady c' os v' a.1 in (d, rw (e, f) refl, w)
