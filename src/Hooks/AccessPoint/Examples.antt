-- ===== src/Hooks/AccessPoint/Examples.antt =====
-- The hooks of the access point (main/netif_hooks.c) at one TCP packet of a client, with the kill
-- switch on and the tunnel down.
use esp32_pppo_e_router.Base.{
  ℕ, ◌+◌, ◌*◌, refl, arith, true, false, some, List, [], ◌∷◌, replicate, inl, length-replicate,
}
use esp32_pppo_e_router.Acl.{Acl, zero_stats, acl_init}
use esp32_pppo_e_router.Acl.Requests.{perform_all, IsWellFormed, init_perform_all}
use esp32_pppo_e_router.Pcap.Capture.{Capture, promiscuous}
use esp32_pppo_e_router.Hooks.Uplink.{Packet, Uplink, freed}
use esp32_pppo_e_router.Hooks.Uplink.Filter.{IsSound, HasRoom}
use esp32_pppo_e_router.Hooks.AccessPoint.{AccessPoint, ApEnv, ap_netif_input_hook}
use esp32_pppo_e_router.Hooks.AccessPoint.Passing.{Ends, ap_netif_input_hook-Ends}
use esp32_pppo_e_router.Hooks.AccessPoint.Stopping.{
  FreedExactly, KilledBy, ap_netif_input_hook-kills,
}

abbrev blank : Acl
blank = record {
  lists = λ _. [];
  stats = λ _. zero_stats;
  rule_count = λ _. 0;
  last_deny_log_time = λ _. 0;
}

abbrev tables : Acl
tables = perform_all (acl_init blank) []

tables-IsWellFormed : IsWellFormed tables
tables-IsWellFormed n h = (init_perform_all blank [] n h).0

abbrev capture_state : Capture
capture_state = record {
  capture_mode = promiscuous;
  client_connected = true;
  has_handle = true;
  task_runs = true;
  captured_packets = 0;
  pcap_snaplen = 64;
  pcap_link_type = 1;
  ring = record {
    buf = some (replicate 100 0);
    size = 100;
    head = 0;
    tail = 0;
    available = 0;
    dropped_packets = 0;
    has_mutex = true;
    data_ready = false;
  };
}

abbrev shared : Uplink
shared = record {
  acl = tables;
  capture = capture_state;
  sta_bytes_received = 0;
  sta_bytes_sent = 0;
  led_toggle = false;
  leds = true;
  sta_ttl_override = 0;
  has_original = true;
}

shared-IsSound : IsSound shared
shared-IsSound = record {
  acl = tables-IsWellFormed;
  capture = record {
    snaplen_least = omega arith;
    snaplen_most = omega arith;
    served = λ e. refl;
    locked = λ e. refl;
  };
}

-- at 192.168.4.1, with a path MTU of 30 bytes
abbrev access_point : AccessPoint
access_point = record {
  shared = shared;
  clients = [];
  client_stats_enabled = true;
  ap_pmtu = 30;
  ap_mss_clamp = 1360;
  my_ap_ip = 192 + 168 * 256 + 4 * 65536 + 16777216;
  vpn_enabled = true;
  vpn_killswitch = true;
  vpn_route_all = true;
  has_linkoutput = true;
}

abbrev ap_env : ApEnv
ap_env = record {
  env = record { now = 9; ts_sec = 1; ts_usec = 2; pkt_buf = replicate 1616 0; busy = false };
  inet_chksum = λ bytes. 7;
  alloc = true;
  vpn_is_connected = false;
  vpn_in_subnet = λ dest. false;
}

ap_env-HasRoom : HasRoom ap_env.env
ap_env-HasRoom = length-replicate {A = ℕ} 1616 0

abbrev ip_bytes : List ℕ
ip_bytes =
    0x45 ∷ 0 ∷ 0 ∷ 40 ∷ 0 ∷ 0 ∷ 0x40 ∷ 0 ∷ 64 ∷ 6 ∷ 102 ∷ 206 ∷ 192 ∷ 168 ∷ 4 ∷ 2 ∷ 10 ∷ 0 ∷ 0 ∷ 2
    ∷ 0x12 ∷ 0x34 ∷ 0 ∷ 80 ∷ 0 ∷ 0 ∷ 0 ∷ 0 ∷ 0 ∷ 0 ∷ 0 ∷ 0 ∷ 0x50 ∷ 2 ∷ 0 ∷ 0 ∷ 0 ∷ 0 ∷ 0 ∷ 0 ∷ []

abbrev frame : List ℕ
frame = 2 ∷ 0 ∷ 0 ∷ 0 ∷ 0 ∷ 1 ∷ 2 ∷ 0 ∷ 0 ∷ 0 ∷ 0 ∷ 2 ∷ 8 ∷ 0 ∷ ip_bytes

abbrev packet : Packet
packet = record { payload = frame; more = []; tot_len = 54 }

packet-KilledBy : KilledBy access_point ap_env packet
packet-KilledBy = record {
  enabled = refl;
  killswitch = refl;
  down = refl;
  room = omega arith;
  type_high = refl;
  type_low = refl;
  v_hl = 0x45;
  version = refl;
  is_four = refl;
  a = 10;
  b = 0;
  c = 0;
  d = 2;
  byte0 = refl;
  byte1 = refl;
  byte2 = refl;
  byte3 = refl;
  remote = λ e. omega (arith, e);
  tunnel = inl refl;
}

ap_netif_input_hook-kills_example :
    FreedExactly access_point ap_env packet (ap_netif_input_hook access_point ap_env (some packet))
ap_netif_input_hook-kills_example =
    ap_netif_input_hook-kills access_point ap_env packet shared-IsSound ap_env-HasRoom

ap_netif_input_hook-Ends_example :
    Ends access_point freed (some packet) (ap_netif_input_hook access_point ap_env (some packet))
ap_netif_input_hook-Ends_example =
    ap_netif_input_hook-Ends access_point ap_env (some packet) shared-IsSound ap_env-HasRoom
