-- ===== src/Hooks/AccessPoint/Passing.antt =====
-- What the access point's hooks of main/netif_hooks.c do with any packet.
use esp32_pppo_e_router.Base.{
  ℕ, ◌+◌, ◌*◌, ◌/◌, ◌≤◌, ◌<◌, ◌≡◌, ◌⊎◌, refl, ap, arith, inl, inr, Bool-cases, Bool, true, false,
  not, ◌&&◌, ◌||◌, Option, none, some, List, length, get_elem?-lt, leb, ltb, ◌==◌, if◌then◌else◌,
  take, drop,
}
use esp32_pppo_e_router.Hooks.Mss.Safety.{clamp_tcp_mss-length}
use esp32_pppo_e_router.Hooks.ClientStats.{ClientStats, find_client_stats}
use esp32_pppo_e_router.Hooks.Uplink.{Packet, Uplink, Fate, freed, refused, unhooked, passed}
use esp32_pppo_e_router.Hooks.Uplink.Filter.{
  IsSound, HasRoom, moved, filter-Filters, capture_if-CaptureOnly,
}
use esp32_pppo_e_router.Hooks.AccessPoint.{
  AccessPoint, ApEnv, ApHooked, acl_to_ap, acl_from_ap, le_word, kept_back, kill_switch_on, killed,
  answered, clamped, add_received, add_sent, change_at, count_client, hand_on, on_filtered_in,
  ap_netif_input_hook, ap_netif_linkoutput_hook,
}
use esp32_pppo_e_router.Hooks.AccessPoint.Icmp.{slice-some, send_icmp_frag_needed-Quotes}

le_word-lt : (p : List ℕ) (i : ℕ) → i + 3 < length p → (x : ℕ) × (le_word p i ≡ some x)
le_word-lt p i h =
    let (a, ea) = get_elem?-lt p i (omega (arith, h)) in
    let (b, eb) = get_elem?-lt p (i + 1) (omega (arith, h)) in
    let (c, ec) = get_elem?-lt p (i + 2) (omega (arith, h)) in
    let (d, ed) = get_elem?-lt p (i + 3) h in
    (a + b * 256 + c * 65536 + d * 16777216, rw (ea, eb, ec, ed) refl)

pub killed-some :
    (s : AccessPoint) (e : ApEnv) (p : Option Packet) → (b : Bool) × (killed s e p ≡ some b)
unfolding killed
killed-some s e none = (false, refl)
killed-some s e (some p) =
    elim (Bool-cases (not (kill_switch_on s e) || ltb (length p.payload) 34)) [
      | inl off ↦ (false, rw off refl)
      | inr on ↦
          let room : 34 ≤ length p.payload = ground (arith, on) in
          let (a, ea) = get_elem?-lt p.payload 12 (omega (arith, room)) in
          let (b, eb) = get_elem?-lt p.payload 13 (omega (arith, room)) in
          let (c, ec) = get_elem?-lt p.payload 14 (omega (arith, room)) in
          let (d, ed) = le_word-lt p.payload 30 (omega (arith, room)) in
          (a == 8 && b == 0 && c / 16 == 4 && kept_back s e d, rw (on, ea, eb, ec, ed) refl)
    ]

pub answered-some :
    (s : AccessPoint) (e : ApEnv) (p : Option Packet)
    → (icmp : Option (List ℕ)) × (answered s e p ≡ some icmp)
unfolding answered
answered-some s e none = (none, refl)
answered-some s e (some p) = elim (Bool-cases (ltb 0 s.ap_pmtu && s.has_linkoutput)) [
  | inr off ↦ (none, rw off refl)
  | inl on ↦
      let (out, sent, quotes) =
        send_icmp_frag_needed-Quotes e.inet_chksum e.alloc s.my_ap_ip p.payload s.ap_pmtu in
      (out, rw on sent)
]

clamped-some :
    (max_mss : ℕ) (p : Option Packet) → (q : Option Packet) × (clamped max_mss p ≡ some q)
clamped-some max_mss none = (none, refl)
clamped-some max_mss (some p) =
    let (b, e, size) = clamp_tcp_mss-length p.payload max_mss in
    (some (record p { payload = b }), rw e refl)

-- The count changes only the clients.
count_client-some :
    (add : ℕ → ClientStats → ClientStats) (at : ℕ) (s : AccessPoint) (p : Option Packet)
    → at + 6 ≤ 14
    → (cs : List ClientStats) × (count_client add at s p ≡ some (record s { clients = cs }))
unfolding count_client
count_client-some add at s none low = (s.clients, refl)
count_client-some add at s (some p) low =
    elim (Bool-cases (s.client_stats_enabled && leb 14 (length p.payload))) [
      | inr off ↦ (s.clients, rw off refl)
      | inl on ↦
          let room : 14 ≤ length p.payload = ground (arith, on) in
          let mac = take 6 (drop at p.payload) in
          let e = slice-some p.payload at 6 (omega (arith, low, room)) in
          (change_at (add p.tot_len) s.clients (find_client_stats s.clients mac), rw (on, e) refl)
    ]

-- a packet that is handed on, clamped, or for which there is no function
pub record HandedOn (s : AccessPoint) (p : Option Packet) (icmp : Option (List ℕ))
    (out : Option ApHooked) : Type 0 where
  pub after : AccessPoint
  pub changed : Option Packet
  pub ends :
      out
      ≡ some (record {
        state = after;
        fate = if s.shared.has_original then passed changed else unhooked;
        icmp = icmp;
      })
  pub rewritten : clamped s.ap_mss_clamp p ≡ some changed
  pub sound : IsSound after.shared

pub hand_on-HandedOn :
    (add : ℕ → ClientStats → ClientStats) (at : ℕ) (s : AccessPoint) (e : ApEnv) (monitored : Bool)
    (p : Option Packet) (icmp : Option (List ℕ))
    → at + 6 ≤ 14
    → IsSound s.shared
    → HasRoom e.env
    → HandedOn s p icmp (hand_on add at s e monitored p icmp)
hand_on-HandedOn add at s e monitored p icmp low v r =
    let (q, eq) = clamped-some s.ap_mss_clamp p in
    let (cs, ec) = count_client-some add at s q low in
    let (c, ek, k) = capture_if-CaptureOnly s.shared monitored true e.env q v.capture r in
    record {
      after = record s { clients = cs; shared = moved s.shared s.shared.acl c };
      changed = q;
      ends = rw (eq, ec, ek) refl;
      rewritten = eq;
      sound = record { acl = v.acl; capture = k };
    }

-- How a hook ends that stops a packet with `fate`.
pub record Ends (s : AccessPoint) (stop : Fate) (p : Option Packet) (out : Option ApHooked)
    : Type 0 where
  pub hooked : ApHooked
  pub ends : out ≡ some hooked
  pub sound : IsSound hooked.state.shared
  pub outcome :
      ((hooked.fate ≡ stop) × (hooked.state.clients ≡ s.clients) × (hooked.icmp ≡ none))
      ⊎ ((q : Option Packet) × (clamped s.ap_mss_clamp p ≡ some q)
          × (hooked.fate ≡ (if s.shared.has_original then passed q else unhooked)))

-- a packet that goes no further
pub stopped :
    (s : AccessPoint) (u : Uplink) (stop : Fate) (p : Option Packet)
    → IsSound u
    → Ends s stop p (some (record { state = record s { shared = u }; fate = stop; icmp = none }))
stopped s u stop p sound = record {
  hooked = record { state = record s { shared = u }; fate = stop; icmp = none };
  ends = refl;
  sound = sound;
  outcome = inl (refl, refl, refl);
}

went_on :
    (s : AccessPoint) (u : Uplink) (stop : Fate) (p : Option Packet) (icmp : Option (List ℕ))
    (out : Option ApHooked)
    → u.has_original ≡ s.shared.has_original
    → HandedOn (record s { shared = u }) p icmp out
    → Ends s stop p out
went_on s u stop p icmp out same h = record {
  hooked = record {
    state = h.after;
    fate = if u.has_original then passed h.changed else unhooked;
    icmp = icmp;
  };
  ends = h.ends;
  sound = h.sound;
  outcome = inr (h.changed, h.rewritten, ap (λ b. if b then passed h.changed else unhooked) same);
}

-- For every packet, NULL included, on sound lists and a sound capture with its stack area: the
-- input hook of the access point makes no access out of bounds and keeps them sound. It frees the
-- packet, then nothing is counted or sent; or it clamps the MSS, and then hands the packet on, or,
-- when the replaced function is not known, neither frees it nor hands it on.
pub ap_netif_input_hook-Ends :
    (s : AccessPoint) (e : ApEnv) (p : Option Packet)
    → IsSound s.shared
    → HasRoom e.env
    → Ends s freed p (ap_netif_input_hook s e p)
unfolding ap_netif_input_hook on_filtered_in
ap_netif_input_hook-Ends s e p v r =
    let (denied, f) = filter-Filters s.shared acl_to_ap true e.env p v r in
    let u = moved s.shared f.lists f.taken in
    let t : AccessPoint = record s { shared = u } in
    let sound : IsSound u = record { acl = f.lists_ok; capture = f.capture_ok } in
    let (kill, ek) = killed-some t e p in
    let (icmp, ei) = answered-some t e p in
    elim (Bool-cases denied) [
      | inl refused_ ↦ rw (f.answer, refused_) (stopped s u freed p sound)
      | inr allowed ↦ elim (Bool-cases kill) [
        | inl on ↦ rw (f.answer, allowed, ek, on) (stopped s u freed p sound)
        | inr off ↦
            rw (f.answer, allowed, ek, off, ei)
              (went_on s u freed p icmp _ refl
                (hand_on-HandedOn add_received 6 t e f.monitored p icmp (omega arith) sound r))
      ]
    ]

-- The same for the output hook, which refuses a packet in place of freeing it.
pub ap_netif_linkoutput_hook-Ends :
    (s : AccessPoint) (e : ApEnv) (p : Option Packet)
    → IsSound s.shared
    → HasRoom e.env
    → Ends s refused p (ap_netif_linkoutput_hook s e p)
unfolding ap_netif_linkoutput_hook
ap_netif_linkoutput_hook-Ends s e p v r =
    let (denied, f) = filter-Filters s.shared acl_from_ap true e.env p v r in
    let u = moved s.shared f.lists f.taken in
    let t : AccessPoint = record s { shared = u } in
    let sound : IsSound u = record { acl = f.lists_ok; capture = f.capture_ok } in
    elim (Bool-cases denied) [
      | inl refused_ ↦ rw (f.answer, refused_) (stopped s u refused p sound)
      | inr allowed ↦
          rw (f.answer, allowed)
            (went_on s u refused p none _ refl
              (hand_on-HandedOn add_sent 0 t e f.monitored p none (omega arith) sound r))
    ]
