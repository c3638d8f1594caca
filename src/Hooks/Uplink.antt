-- ===== src/Hooks/Uplink.antt =====
-- The hooks of main/netif_hooks.c on the uplink: `netif_input_hook`, `netif_linkoutput_hook`,
-- `netif_output_hook` and `__wrap_ip4_input`. Each filters by an access list, captures, counts
-- bytes and calls what it replaced. The level of the LED pin is not modelled.
pub mod Filter
pub mod Deny
pub mod Total
mod Examples
use esp32_pppo_e_router.Base.{
  ℕ, ◌+◌, ◌/◌, ◌%◌, Bool, true, false, not, ◌&&◌, Option, none, some, List, ◌∷◌, ◌==◌,
  if◌then◌else◌, u64,
}
use esp32_pppo_e_router.Base.Bytes.{◌>>=◌}
use esp32_pppo_e_router.Acl.{Acl, acl_is_empty}
use esp32_pppo_e_router.Acl.Frame.{Pbuf}
use esp32_pppo_e_router.Acl.Check.{Outcome, acl_no_match, acl_check_packet}
use esp32_pppo_e_router.Pcap.Capture.{Capture, Chain, pcap_should_capture, pcap_capture_packet}
use esp32_pppo_e_router.Hooks.Ttl.{override_ethernet, override_raw}

-- `struct pbuf`: its first segment, the segments that follow, and the length of all
pub record Packet : Type 0 where
  pub payload : List ℕ
  pub more : List (List ℕ)
  pub tot_len : ℕ

-- what the filter and the capture see of a packet
abbrev pub view : Option Packet → Option Pbuf
view none = none
view (some p) = some (record { payload = p.payload; tot_len = p.tot_len })

abbrev pub chain : Option Packet → Option Chain
chain none = none
chain (some p) = some (record { tot_len = p.tot_len; segments = p.payload ∷ p.more })

-- The statics and globals that the hooks use. `leds`: an LED pin is set and the uplink is up.
-- `has_original`: the function that the hook in question replaced is known.
pub record Uplink : Type 0 where
  pub acl : Acl
  pub capture : Capture
  pub sta_bytes_received : ℕ  -- uint64
  pub sta_bytes_sent : ℕ  -- uint64
  pub led_toggle : Bool
  pub leds : Bool
  pub sta_ttl_override : ℕ  -- uint8
  pub has_original : Bool

-- what the system gives a call: the clocks, the stack area of a capture, and whether the ring's
-- mutex is taken
pub record Env : Type 0 where
  pub now : ℕ
  pub ts_sec : ℕ
  pub ts_usec : ℕ
  pub pkt_buf : List ℕ
  pub busy : Bool

abbrev pub acl_to_esp : ℕ
acl_to_esp = 0

abbrev pub acl_from_esp : ℕ
acl_from_esp = 1

-- What a hook does with the packet: `freed` and `refused` answer ERR_OK, the first after
-- `pbuf_free`; `passed` answers what the replaced function answers; `unhooked` is an error.
pub data Fate : Type 0 where
  freed refused unhooked : Fate
  passed : Option Packet → Fate

pub record Hooked : Type 0 where
  pub state : Uplink
  pub fate : Fate

unfoldable pub capture_now : Uplink → Env → Option Packet → Option Uplink
capture_now s env p =
    pcap_capture_packet s.capture (chain p) env.ts_sec env.ts_usec env.pkt_buf env.busy
    >>= (λ c. some (record s { capture = c }))

abbrev pub capture_if : Uplink → Bool → Bool → Env → Option Packet → Option Uplink
capture_if s is_acl_monitored is_ap env p =
    if pcap_should_capture s.capture is_acl_monitored is_ap then capture_now s env p else some s

-- the filter at the start of every hook
pub record Filtered : Type 0 where
  pub state : Uplink
  pub denied : Bool
  pub is_acl_monitored : Bool

abbrev pub monitors : ℕ → Bool
monitors result = not (result == acl_no_match) && not (result / 2 % 2 == 0)

abbrev pub denies : ℕ → Bool
denies result = result % 2 == 0 && not (result == acl_no_match)

unfoldable pub on_outcome : Uplink → Bool → Env → Option Packet → Outcome → Option Filtered
on_outcome s is_ap env p o =
    let t = record s { acl = o.state } in
    if denies o.result
    then (if monitors o.result then capture_if t true is_ap env p else some t)
      >>= (λ u. some (record { state = u; denied = true; is_acl_monitored = monitors o.result }))
    else some (record { state = t; denied = false; is_acl_monitored = monitors o.result })

unfoldable pub filter : Uplink → ℕ → Bool → Env → Option Packet → Option Filtered
unfolding on_outcome
filter s acl_no is_ap env p =
    if not (acl_is_empty s.acl acl_no)
    then acl_check_packet s.acl acl_no env.now (view p) >>= on_outcome s is_ap env p
    else some (record { state = s; denied = false; is_acl_monitored = false })

abbrev pub toggle_led : Uplink → Uplink
toggle_led s = if s.leds then record s { led_toggle = not s.led_toggle } else s

-- the byte counts of a packet of the uplink
abbrev pub count_received : Uplink → Bool → Option Packet → Uplink
count_received s is_sta none = s
count_received s is_sta (some p) =
    if is_sta
    then toggle_led (record s { sta_bytes_received = u64 (s.sta_bytes_received + p.tot_len) })
    else s

abbrev pub count_sent : Uplink → Bool → Option Packet → Uplink
count_sent s is_sta none = s
count_sent s is_sta (some p) =
    if is_sta
    then toggle_led (record s { sta_bytes_sent = u64 (s.sta_bytes_sent + p.tot_len) })
    else s

abbrev pub pass : Uplink → Option Packet → Hooked
pass s p = record { state = s; fate = if s.has_original then passed p else unhooked }

-- `is_sta`: the packet is on the interface that is hooked
abbrev pub received : Bool → Env → Option Packet → Filtered → Option Hooked
received is_sta env p f =
    if f.denied
    then some (record { state = f.state; fate = freed })
    else capture_if f.state f.is_acl_monitored false env p
      >>= (λ s. some (pass (count_received s is_sta p) p))

unfoldable pub netif_input_hook : Uplink → Bool → Env → Option Packet → Option Hooked
netif_input_hook s is_sta env p = filter s acl_to_esp false env p >>= received is_sta env p

-- the TTL override, on the first segment
abbrev pub with_ttl : (List ℕ → ℕ → Option (List ℕ)) → ℕ → Option Packet → Option (Option Packet)
with_ttl override ttl none = some none
with_ttl override ttl (some p) =
    override p.payload ttl >>= (λ b. some (some (record p { payload = b })))

abbrev pub sent :
    (List ℕ → ℕ → Option (List ℕ)) → Bool → Env → Option Packet → Filtered → Option Hooked
sent override is_sta env p f =
    if f.denied
    then some (record { state = f.state; fate = refused })
    else with_ttl override f.state.sta_ttl_override p >>= (λ q.
      capture_if f.state f.is_acl_monitored false env q
      >>= (λ s. some (pass (count_sent s is_sta q) q)))

unfoldable pub netif_linkoutput_hook : Uplink → Bool → Env → Option Packet → Option Hooked
netif_linkoutput_hook s is_sta env p =
    filter s acl_from_esp false env p >>= sent override_ethernet is_sta env p

-- The same for a PPP interface, whose packets have no link header.
unfoldable pub netif_output_hook : Uplink → Bool → Env → Option Packet → Option Hooked
netif_output_hook s is_sta env p =
    filter s acl_from_esp false env p >>= sent override_raw is_sta env p

-- `__real_ip4_input` is always there.
abbrev pub ip4_received : Env → Option Packet → Filtered → Option Hooked
ip4_received env p f =
    if f.denied
    then some (record { state = f.state; fate = freed })
    else capture_if f.state f.is_acl_monitored false env p
      >>= (λ s. some (record { state = count_received s true p; fate = passed p }))

unfoldable pub wrap_ip4_input : Uplink → Bool → Env → Option Packet → Option Hooked
wrap_ip4_input s is_sta env none = some (record { state = s; fate = passed none })
wrap_ip4_input s is_sta env (some p) =
    if is_sta
    then filter s acl_to_esp false env (some p) >>= ip4_received env (some p)
    else some (record { state = s; fate = passed (some p) })
