-- ===== src/Hooks/Uplink/Examples.antt =====
-- The theorems on the uplink hooks at lists that deny web traffic, and at one TCP packet.
use esp32_pppo_e_router.Base.{
  ℕ, ◌+◌, ◌*◌, ◌≡◌, ◌++◌, refl, arith, true, false, some, List, [], ◌∷◌, replicate,
  length-replicate, keep, find_index,
}
use esp32_pppo_e_router.Base.Bytes.{be16}
use esp32_pppo_e_router.Acl.{Acl, AclEntry, zero_stats, new_entry, acl_init, acl_add}
use esp32_pppo_e_router.Acl.Requests.{add, perform_all, IsWellFormed, init_perform_all}
use esp32_pppo_e_router.Acl.Frame.{
  Headers, headers, parse_frame, layout, ethernet_layout, ethertype_layout, ip_parse, ports, addr32,
  parse_layout,
}
use esp32_pppo_e_router.Acl.Check.{rule_matches}
use esp32_pppo_e_router.Acl.Check.Verdict.{rule_matches_iff}
use esp32_pppo_e_router.Pcap.Capture.{Capture, promiscuous}
use esp32_pppo_e_router.Hooks.Ttl.{
  fold_sum, update_chksum, set_ttl, override_ethernet, override_raw,
}
use esp32_pppo_e_router.Hooks.Ttl.Header.{Rewritten, set_ttl-Rewritten}
use esp32_pppo_e_router.Hooks.Uplink.{
  Packet, Uplink, Env, freed, acl_to_esp, acl_from_esp, netif_input_hook, netif_linkoutput_hook,
  netif_output_hook, wrap_ip4_input,
}
use esp32_pppo_e_router.Hooks.Uplink.Filter.{IsSound, HasRoom, DeniedBy}
use esp32_pppo_e_router.Hooks.Uplink.Deny.{Stopped, netif_input_hook-denies}
use esp32_pppo_e_router.Hooks.Uplink.Total.{
  EndsInput, EndsOutput, netif_input_hook-EndsInput, netif_linkoutput_hook-EndsOutput,
}

abbrev blank : Acl
blank = record {
  lists = λ _. [];
  stats = λ _. zero_stats;
  rule_count = λ _. 0;
  last_deny_log_time = λ _. 0;
}

-- "deny tcp any any eq 80", in both directions
abbrev no_web : AclEntry
no_web = new_entry 0 0 0 0 6 0 80 0

abbrev tables : Acl
tables = perform_all (acl_init blank) (add 0 0 0 0 0 6 0 80 0 ∷ add 1 0 0 0 0 6 0 80 0 ∷ [])

tables-IsWellFormed : IsWellFormed tables
tables-IsWellFormed n h =
    (init_perform_all blank (add 0 0 0 0 0 6 0 80 0 ∷ add 1 0 0 0 0 6 0 80 0 ∷ []) n h).0

abbrev capture_state : Capture
capture_state = record {
  capture_mode = promiscuous;
  client_connected = true;
  has_handle = true;
  task_runs = true;
  captured_packets = 0;
  pcap_snaplen = 64;
  pcap_link_type = 1;
  ring = record {
    buf = some (replicate 100 0);
    size = 100;
    head = 0;
    tail = 0;
    available = 0;
    dropped_packets = 0;
    has_mutex = true;
    data_ready = false;
  };
}

abbrev uplink : Uplink
uplink = record {
  acl = tables;
  capture = capture_state;
  sta_bytes_received = 0;
  sta_bytes_sent = 0;
  led_toggle = false;
  leds = true;
  sta_ttl_override = 65;
  has_original = true;
}

uplink-IsSound : IsSound uplink
uplink-IsSound = record {
  acl = tables-IsWellFormed;
  capture = record {
    snaplen_least = omega arith;
    snaplen_most = omega arith;
    served = λ e. refl;
    locked = λ e. refl;
  };
}

abbrev env : Env
env = record { now = 9; ts_sec = 1; ts_usec = 2; pkt_buf = replicate 1616 0; busy = false }

env-HasRoom : HasRoom env
env-HasRoom = length-replicate {A = ℕ} 1616 0

abbrev ip_bytes : List ℕ
ip_bytes =
    0x45 ∷ 0 ∷ 0 ∷ 40 ∷ 0 ∷ 0 ∷ 0 ∷ 0 ∷ 64 ∷ 6 ∷ 102 ∷ 206 ∷ 10 ∷ 0 ∷ 0 ∷ 1 ∷ 10 ∷ 0 ∷ 0 ∷ 2 ∷ 0x12
    ∷ 0x34 ∷ 0 ∷ 80 ∷ 0 ∷ 0 ∷ 0 ∷ 0 ∷ 0 ∷ 0 ∷ 0 ∷ 0 ∷ 0x50 ∷ 2 ∷ 0 ∷ 0 ∷ 0 ∷ 0 ∷ 0 ∷ 0 ∷ []

-- TCP from 10.0.0.1 port 4660 to 10.0.0.2 port 80, in an Ethernet frame
abbrev web_packet : Packet
web_packet = record {
  payload = 2 ∷ 0 ∷ 0 ∷ 0 ∷ 0 ∷ 1 ∷ 2 ∷ 0 ∷ 0 ∷ 0 ∷ 0 ∷ 2 ∷ 8 ∷ 0 ∷ ip_bytes;
  more = [];
  tot_len = 54;
}

abbrev web_headers : Headers
web_headers = record {
  src_ip = 10 + 16777216;
  dest_ip = 10 + 33554432;
  proto = 6;
  src_port = 0x1234;
  dst_port = 80;
}

parse_web_packet : parse_frame web_packet.payload ≡ some (headers web_headers)
unfolding parse_frame layout ethernet_layout ethertype_layout parse_layout ip_parse ports addr32
    be16
parse_web_packet = refl

web_packet-DeniedBy :
    DeniedBy uplink acl_to_esp web_packet × DeniedBy uplink acl_from_esp web_packet
unfolding acl_init acl_add keep find_index rule_matches
web_packet-DeniedBy = (
  record {
    in_range = omega arith;
    bounded = omega arith;
    fields = web_headers;
    parsed = parse_web_packet;
    before = [];
    rule = no_web;
    after = [];
    split = refl;
    none_before = tt;
    applies = (rule_matches_iff web_headers no_web refl).0 refl;
    is_deny = refl;
  },
  record {
    in_range = omega arith;
    bounded = omega arith;
    fields = web_headers;
    parsed = parse_web_packet;
    before = [];
    rule = no_web;
    after = [];
    split = refl;
    none_before = tt;
    applies = (rule_matches_iff web_headers no_web refl).0 refl;
    is_deny = refl;
  },
)

netif_input_hook-denies_example :
    Stopped uplink freed (netif_input_hook uplink true env (some web_packet))
    × Stopped uplink freed (wrap_ip4_input uplink true env (some web_packet))
netif_input_hook-denies_example =
    netif_input_hook-denies uplink true env web_packet uplink-IsSound env-HasRoom
      web_packet-DeniedBy.0

netif_input_hook-EndsInput_example :
    EndsInput uplink true (some web_packet) (netif_input_hook uplink true env (some web_packet))
netif_input_hook-EndsInput_example =
    netif_input_hook-EndsInput uplink true env (some web_packet) uplink-IsSound env-HasRoom

netif_linkoutput_hook-EndsOutput_example :
    EndsOutput override_ethernet uplink true
      (some web_packet)
      (netif_linkoutput_hook uplink true env (some web_packet))
    × EndsOutput override_raw uplink true
        (some web_packet)
        (netif_output_hook uplink true env (some web_packet))
netif_linkoutput_hook-EndsOutput_example =
    netif_linkoutput_hook-EndsOutput uplink true env (some web_packet) uplink-IsSound env-HasRoom

abbrev ip_front : List ℕ
ip_front = 0x45 ∷ 0 ∷ 0 ∷ 40 ∷ 0 ∷ 0 ∷ 0 ∷ 0 ∷ []

abbrev ip_back : List ℕ
ip_back = 10 ∷ 0 ∷ 0 ∷ 1 ∷ 10 ∷ 0 ∷ 0 ∷ 2 ∷ []

set_ttl-Rewritten_example :
    (lo : ℕ) × (hi : ℕ) × (set_ttl (ip_front ++ (64 ∷ 6 ∷ 102 ∷ 206 ∷ ip_back)) 0 65
      ≡ some (ip_front ++ (65 ∷ 6 ∷ lo ∷ hi ∷ ip_back)))
    × Rewritten 65 64 6 102 206 lo hi
set_ttl-Rewritten_example =
    set_ttl-Rewritten ip_front ip_back 0 65 64 6 102 206 refl (omega arith) (omega arith)
      (omega arith) (omega arith) (omega arith)

-- a TTL that goes up by one takes one from the checksum's high byte in network order
ttl_up : update_chksum (102 + 256 * 206) (64 + 256 * 6) (65 + 256 * 6) ≡ 101 + 256 * 206
unfolding update_chksum fold_sum
ttl_up = refl
