-- ===== src/Hooks/AccessPoint.antt =====
-- The hooks of main/netif_hooks.c on the access point: `ap_netif_input_hook` and
-- `ap_netif_linkoutput_hook`, with the kill switch of the VPN and `send_icmp_frag_needed`. What
-- `inet_chksum` and the VPN manager answer is an argument. `none` is an access out of bounds.
pub mod Icmp
pub mod Passing
pub mod Stopping
mod Examples
use esp32_pppo_e_router.Base.{
  ℕ, ◌+◌, ◌-◌, ◌*◌, ◌/◌, ◌%◌, ◌^◌, Bool, true, false, not, ◌&&◌, ◌||◌, Option, none, some, List, [],
  ◌∷◌, ◌++◌, length, take, drop, get_or, set, min, leb, ltb, ◌==◌, if◌then◌else◌, u32, u64,
}
use esp32_pppo_e_router.Base.Bytes.{◌>>=◌, byte, be16}
use esp32_pppo_e_router.Base.Buffers.{le16, le32}
use esp32_pppo_e_router.Hooks.Mss.{clamp_tcp_mss}
use esp32_pppo_e_router.Hooks.ClientStats.{ClientStats, no_client, find_client_stats}
use esp32_pppo_e_router.Hooks.Uplink.{
  Packet, Uplink, Env, Fate, freed, refused, unhooked, passed, Filtered, capture_if, filter,
}

-- memcpy out of a packet
abbrev pub slice : List ℕ → ℕ → ℕ → Option (List ℕ)
slice p at n = if leb (at + n) (length p) then some (take n (drop at p)) else none

-- a 16-bit field, in network byte order
abbrev pub be_bytes : ℕ → List ℕ
be_bytes n = n / 256 % 256 ∷ n % 256 ∷ []

abbrev pub icmp_proto : ℕ
icmp_proto = 1

-- the IP header of the answer, behind it the checksum of these bytes
abbrev pub answer_header : (List ℕ → ℕ) → ℕ → List ℕ → ℕ → List ℕ
answer_header inet_chksum my_ap_ip client new_ip_len =
    let head = 0x45 ∷ 0 ∷ (be_bytes new_ip_len ++ (0 ∷ 0 ∷ 0 ∷ 0 ∷ 64 ∷ icmp_proto ∷ [])) in
    let addresses = le32 my_ap_ip ++ client in
    head ++ (le16 (inet_chksum (head ++ (0 ∷ 0 ∷ addresses))) ++ addresses)

-- the ICMP message, with its checksum, about the bytes that are quoted
abbrev pub answer_message : (List ℕ → ℕ) → ℕ → List ℕ → List ℕ
answer_message inet_chksum mtu quoted =
    let body = 0 ∷ 0 ∷ (be_bytes mtu ++ quoted) in
    3 ∷ 4 ∷ (le16 (inet_chksum (3 ∷ 4 ∷ 0 ∷ 0 ∷ body)) ++ body)

-- the first data bytes that are there, eight at most
abbrev pub avail_data : List ℕ → ℕ → ℕ
avail_data p ihl = min 8 (length p - 14 - ihl)

abbrev pub answer : (List ℕ → ℕ) → ℕ → List ℕ → ℕ → ℕ → Option (List ℕ)
answer inet_chksum my_ap_ip p mtu ihl = do
  sender ← slice p 6 6
  router ← slice p 0 6
  client ← slice p 26 4
  quoted ← slice p 14 ihl
  data_ ← slice p (14 + ihl) (avail_data p ihl)
  some (
      sender
      ++ (router
          ++ (8
              ∷ 0
              ∷ (answer_header inet_chksum my_ap_ip client (20 + (8 + ihl + avail_data p ihl))
                  ++ answer_message inet_chksum mtu (quoted ++ data_)))))

-- Whether the frame is an IPv4 packet longer than the MTU that may not be split, and the length of
-- its header if all of it is there.
abbrev pub too_big : List ℕ → ℕ → Option (Option ℕ)
too_big p mtu = if ltb (length p) 34 then some none else (do
  type_high ← byte p 12
  type_low ← byte p 13
  v_hl ← byte p 14
  ip_total_len ← be16 p 16
  flags_offset ← be16 p 20
  proto ← byte p 23
  if not (type_high == 8 && type_low == 0) || not (v_hl / 16 == 4)
      then some none
      else if leb ip_total_len mtu
      then some none
      else if flags_offset / 2 ^ 14 % 2 == 0
          || not (flags_offset % 2 ^ 13 == 0)
          || proto == icmp_proto
      then some none
      else if ltb (v_hl % 16 * 4) 20
          || ltb 60 (v_hl % 16 * 4)
          || ltb (length p) (14 + v_hl % 16 * 4)
      then some none
      else some (some (v_hl % 16 * 4)))

abbrev pub answer_to : (List ℕ → ℕ) → Bool → ℕ → List ℕ → ℕ → Option ℕ → Option (Option (List ℕ))
answer_to inet_chksum alloc my_ap_ip p mtu none = some none
answer_to inet_chksum alloc my_ap_ip p mtu (some ihl) =
    if alloc
    then answer inet_chksum my_ap_ip p mtu ihl >>= (λ frame. some (some frame))
    else some none

-- The frame that is sent back, if any. `alloc`: `pbuf_alloc` has memory.
unfoldable pub send_icmp_frag_needed :
    (List ℕ → ℕ) → Bool → ℕ → List ℕ → ℕ → Option (Option (List ℕ))
unfolding be16
send_icmp_frag_needed inet_chksum alloc my_ap_ip p mtu =
    too_big p mtu >>= answer_to inet_chksum alloc my_ap_ip p mtu

-- The variables of the access point's hooks, beside those that all hooks share. `has_original` of
-- `shared` is for the hook in question; `has_linkoutput`: the replaced `linkoutput` is known.
pub record AccessPoint : Type 0 where
  pub shared : Uplink
  pub clients : List ClientStats
  pub client_stats_enabled : Bool
  pub ap_pmtu : ℕ
  pub ap_mss_clamp : ℕ
  pub my_ap_ip : ℕ
  pub vpn_enabled : Bool
  pub vpn_killswitch : Bool
  pub vpn_route_all : Bool
  pub has_linkoutput : Bool

-- What the system gives a call, beside what it gives all hooks: the checksum of lwIP, memory for
-- an answer, and the state of the tunnel.
pub record ApEnv : Type 0 where
  pub env : Env
  pub inet_chksum : List ℕ → ℕ
  pub alloc : Bool
  pub vpn_is_connected : Bool
  pub vpn_in_subnet : ℕ → Bool

abbrev pub acl_to_ap : ℕ
acl_to_ap = 2

abbrev pub acl_from_ap : ℕ
acl_from_ap = 3

-- how a packet leaves a hook, with the ICMP frame that was sent
pub record ApHooked : Type 0 where
  pub state : AccessPoint
  pub fate : Fate
  pub icmp : Option (List ℕ)

-- a 32-bit word in the processor's order
abbrev pub le_word : List ℕ → ℕ → Option ℕ
le_word p i = do
  a ← byte p i
  b ← byte p (i + 1)
  c ← byte p (i + 2)
  d ← byte p (i + 3)
  some (a + b * 256 + c * 65536 + d * 16777216)

-- the addresses are in one subnet of 256
abbrev pub is_local : ℕ → ℕ → Bool
is_local my_ap_ip dest = dest % 2 ^ 24 == my_ap_ip % 2 ^ 24

-- whether the kill switch keeps back a destination
abbrev pub kept_back : AccessPoint → ApEnv → ℕ → Bool
kept_back s e dest =
    if is_local s.my_ap_ip dest then false else s.vpn_route_all || e.vpn_in_subnet dest

abbrev pub kill_switch_on : AccessPoint → ApEnv → Bool
kill_switch_on s e = s.vpn_enabled && s.vpn_killswitch && not e.vpn_is_connected

-- the kill switch: whether the packet is freed
unfoldable pub killed : AccessPoint → ApEnv → Option Packet → Option Bool
killed s e none = some false
killed s e (some p) =
    if not (kill_switch_on s e) || ltb (length p.payload) 34 then some false else (do
      type_high ← byte p.payload 12
      type_low ← byte p.payload 13
      v_hl ← byte p.payload 14
      dest ← le_word p.payload 30
      some (type_high == 8 && type_low == 0 && v_hl / 16 == 4 && kept_back s e dest))

abbrev pub answered : AccessPoint → ApEnv → Option Packet → Option (Option (List ℕ))
unfolding send_icmp_frag_needed
answered s e none = some none
answered s e (some p) =
    if ltb 0 s.ap_pmtu && s.has_linkoutput
    then send_icmp_frag_needed e.inet_chksum e.alloc s.my_ap_ip p.payload s.ap_pmtu
    else some none

abbrev pub clamped : ℕ → Option Packet → Option (Option Packet)
clamped max_mss none = some none
clamped max_mss (some p) =
    clamp_tcp_mss p.payload max_mss >>= (λ b. some (some (record p { payload = b })))

abbrev pub add_received : ℕ → ClientStats → ClientStats
add_received n e = record e {
  bytes_received = u64 (e.bytes_received + n);
  packets_received = u32 (e.packets_received + 1);
}

abbrev pub add_sent : ℕ → ClientStats → ClientStats
add_sent n e = record e {
  bytes_sent = u64 (e.bytes_sent + n);
  packets_sent = u32 (e.packets_sent + 1);
}

abbrev pub change_at : (ClientStats → ClientStats) → List ClientStats → Option ℕ → List ClientStats
change_at change es none = es
change_at change es (some i) = set es i (change (get_or es i no_client))

-- the counts of the client whose address stands at `at` in the frame
abbrev pub count_client :
    (ℕ → ClientStats → ClientStats) → ℕ → AccessPoint → Option Packet → Option AccessPoint
unfolding find_client_stats
count_client add at s none = some s
count_client add at s (some p) =
    if s.client_stats_enabled && leb 14 (length p.payload)
    then slice p.payload at 6 >>= (λ mac. some (record s {
      clients = change_at (add p.tot_len) s.clients (find_client_stats s.clients mac);
    }))
    else some s

-- the last steps of both hooks: the clamp, the count, the capture and the replaced function
abbrev pub hand_on :
    (ℕ → ClientStats → ClientStats)
    → ℕ
    → AccessPoint
    → ApEnv
    → Bool
    → Option Packet
    → Option (List ℕ)
    → Option ApHooked
hand_on add at s e is_acl_monitored p icmp = do
  q ← clamped s.ap_mss_clamp p
  t ← count_client add at s q
  u ← capture_if t.shared is_acl_monitored true e.env q
  some (record {
    state = record t { shared = u };
    fate = if t.shared.has_original then passed q else unhooked;
    icmp = icmp;
  })

abbrev pub let_in : ApEnv → Option Packet → AccessPoint → Bool → Bool → Option ApHooked
let_in e p s is_acl_monitored kill =
    if kill
    then some (record { state = s; fate = freed; icmp = none })
    else answered s e p >>= (λ icmp. hand_on add_received 6 s e is_acl_monitored p icmp)

abbrev pub on_filtered_in : AccessPoint → ApEnv → Option Packet → Filtered → Option ApHooked
unfolding killed
on_filtered_in s e p f =
    if f.denied
    then some (record { state = record s { shared = f.state }; fate = freed; icmp = none })
    else killed (record s { shared = f.state }) e p
      >>= let_in e p (record s { shared = f.state }) f.is_acl_monitored

unfoldable pub ap_netif_input_hook : AccessPoint → ApEnv → Option Packet → Option ApHooked
ap_netif_input_hook s e p = filter s.shared acl_to_ap true e.env p >>= on_filtered_in s e p

abbrev pub on_filtered_out : AccessPoint → ApEnv → Option Packet → Filtered → Option ApHooked
on_filtered_out s e p f =
    if f.denied
    then some (record { state = record s { shared = f.state }; fate = refused; icmp = none })
    else hand_on add_sent 0 (record s { shared = f.state }) e f.is_acl_monitored p none

unfoldable pub ap_netif_linkoutput_hook : AccessPoint → ApEnv → Option Packet → Option ApHooked
ap_netif_linkoutput_hook s e p = filter s.shared acl_from_ap true e.env p >>= on_filtered_out s e p
