-- ===== src/Pcap.antt =====
-- The packet capture of components/pcap_capture: the ring buffer between the packet hooks and the
-- TCP server task (pcap_ringbuf.c), and what is captured and how (pcap_capture.c).
pub mod Ringbuf
pub mod Capture
