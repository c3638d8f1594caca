-- ===== src/Hooks/AccessPoint/Stopping.antt =====
-- The packets that the access point's hooks of main/netif_hooks.c keep back.
use esp32_pppo_e_router.Base.{
  ℕ, not, ◌&&◌, sym, ap, ◌∙◌, ==_iff, if◌then◌else◌, get_elem?-lt, ◌+◌, ◌*◌, ◌%◌, ◌^◌, ◌⊎◌, ◌≢◌,
  ◌||◌, ◌==◌, ◌/◌, ◌≤◌, ◌≡◌, refl, arith, inl, inr, Bool-cases, Bool, true, false, Option, none,
  some, length, ltb,
}
use mathlib.Core.Option.{some-injective}
use esp32_pppo_e_router.Base.Bytes.{byte}
use esp32_pppo_e_router.Hooks.Uplink.{
  Packet, Uplink, Fate, freed, refused, passed, unhooked, Filtered, filter,
}
use esp32_pppo_e_router.Hooks.Uplink.Filter.{
  IsSound, HasRoom, moved, filter-Filters, DeniedBy, filter-denies,
}
use esp32_pppo_e_router.Hooks.AccessPoint.Passing.{killed-some, answered-some, hand_on-HandedOn}
use esp32_pppo_e_router.Hooks.AccessPoint.{
  add_received, AccessPoint, ApEnv, ApHooked, acl_to_ap, acl_from_ap, kept_back, kill_switch_on,
  killed, on_filtered_in, ap_netif_input_hook, ap_netif_linkoutput_hook,
}

-- The packet's way ends with `fate`: it is not counted, and nothing is sent back.
pub record StopsWith (s : AccessPoint) (fate : Fate) (out : Option ApHooked) : Type 0 where
  pub shared : Uplink
  pub ends : out ≡ some (record { state = record s { shared = shared }; fate = fate; icmp = none })
  pub sound : IsSound shared

-- While the VPN is enabled with its kill switch and is not connected: an IPv4 packet to `dest`,
-- whose four bytes are the destination field, that is not in the access point's own subnet of 256
-- addresses, when all traffic goes through the tunnel or this address does.
pub record KilledBy (s : AccessPoint) (e : ApEnv) (p : Packet) : Type 0 where
  pub enabled : s.vpn_enabled ≡ true
  pub killswitch : s.vpn_killswitch ≡ true
  pub down : e.vpn_is_connected ≡ false
  pub room : 34 ≤ length p.payload
  pub type_high : byte p.payload 12 ≡ some 8
  pub type_low : byte p.payload 13 ≡ some 0
  pub v_hl : ℕ
  pub version : byte p.payload 14 ≡ some v_hl
  pub is_four : v_hl / 16 ≡ 4
  pub a : ℕ
  pub b : ℕ
  pub c : ℕ
  pub d : ℕ
  pub byte0 : byte p.payload 30 ≡ some a
  pub byte1 : byte p.payload 31 ≡ some b
  pub byte2 : byte p.payload 32 ≡ some c
  pub byte3 : byte p.payload 33 ≡ some d
  pub remote : (a + b * 256 + c * 65536 + d * 16777216) % 2 ^ 24 ≢ s.my_ap_ip % 2 ^ 24
  pub tunnel :
      (s.vpn_route_all ≡ true) ⊎ (e.vpn_in_subnet (a + b * 256 + c * 65536 + d * 16777216) ≡ true)

kept_back-tunnel :
    (s : AccessPoint) (e : ApEnv) (dest : ℕ)
    → dest % 2 ^ 24 ≢ s.my_ap_ip % 2 ^ 24
    → ((s.vpn_route_all ≡ true) ⊎ (e.vpn_in_subnet dest ≡ true))
    → kept_back s e dest ≡ true
kept_back-tunnel s e dest far (inl all) =
    let away : (dest % 2 ^ 24 == s.my_ap_ip % 2 ^ 24) ≡ false = ground (arith, far) in
    rw (away, all) refl
kept_back-tunnel s e dest far (inr this) =
    let away : (dest % 2 ^ 24 == s.my_ap_ip % 2 ^ 24) ≡ false = ground (arith, far) in
    rw (away, this) (either s.vpn_route_all)
  where
    either : (b : Bool) → (b || true) ≡ true
    either true = refl
    either false = refl

killed-KilledBy :
    (s : AccessPoint) (e : ApEnv) (p : Packet) → KilledBy s e p → killed s e (some p) ≡ some true
unfolding killed
killed-KilledBy s e p k =
    let long : ltb (length p.payload) 34 ≡ false = ground (arith, k.room) in
    let back = kept_back-tunnel s e _ k.remote k.tunnel in
    rw
      (
        k.enabled, k.killswitch, k.down, long, k.type_high, k.type_low, k.version, k.is_four,
        k.byte0, k.byte1, k.byte2, k.byte3, back,
      )
      refl

kept_back→tunnel :
    (s : AccessPoint) (e : ApEnv) (dest : ℕ)
    → kept_back s e dest ≡ true
    → (dest % 2 ^ 24 ≢ s.my_ap_ip % 2 ^ 24)
      × ((s.vpn_route_all ≡ true) ⊎ (e.vpn_in_subnet dest ≡ true))
kept_back→tunnel s e dest h = elim (Bool-cases (dest % 2 ^ 24 == s.my_ap_ip % 2 ^ 24)) [
  | inl near ↦
      let stays : kept_back s e dest ≡ false = rw near refl in absurd (ground (arith, h, stays))
  | inr far ↦
      let routed : (s.vpn_route_all || e.vpn_in_subnet dest) ≡ true =
        sym (ap (λ b. if b then false else s.vpn_route_all || e.vpn_in_subnet dest) far) ∙ h in
      ((λ q. ground (arith, far, q)), which s.vpn_route_all (e.vpn_in_subnet dest) routed)
]
  where
    which : (x y : Bool) → (x || y) ≡ true → (x ≡ true) ⊎ (y ≡ true)
    which true y h = inl refl
    which false y h = inr h

five_tests :
    (a b c d : Bool) → (a && b && c && d) ≡ true → (a ≡ true) × (b ≡ true) × (c ≡ true) × (d ≡ true)
five_tests true true true true h = (refl, refl, refl, refl)
five_tests true true true false h = absurd (ground (arith, h))
five_tests true true false d h = absurd (ground (arith, h))
five_tests true false c d h = absurd (ground (arith, h))
five_tests false b c d h = absurd (ground (arith, h))

-- Nothing else is killed.
killed→KilledBy :
    (s : AccessPoint) (e : ApEnv) (p : Packet) → killed s e (some p) ≡ some true → KilledBy s e p
unfolding killed
killed→KilledBy s e p h =
    elim (Bool-cases (not (kill_switch_on s e) || ltb (length p.payload) 34)) [
      | inl off ↦
          let kept : killed s e (some p) ≡ some false = rw off refl in
          absurd (ground (arith, some-injective _ _ (sym kept ∙ h)))
      | inr on ↦
          let room : 34 ≤ length p.payload = ground (arith, on) in
          let (x, ex) = get_elem?-lt p.payload 12 (omega (arith, room)) in
          let (y, ey) = get_elem?-lt p.payload 13 (omega (arith, room)) in
          let (z, ez) = get_elem?-lt p.payload 14 (omega (arith, room)) in
          let (a, ea) = get_elem?-lt p.payload 30 (omega (arith, room)) in
          let (b, eb) = get_elem?-lt p.payload 31 (omega (arith, room)) in
          let (c, ec) = get_elem?-lt p.payload 32 (omega (arith, room)) in
          let (d, ed) = get_elem?-lt p.payload 33 (omega (arith, room)) in
          let dest = a + b * 256 + c * 65536 + d * 16777216 in
          let tests : killed s e (some p)
              ≡ some (x == 8 && y == 0 && z / 16 == 4 && kept_back s e dest) =
            rw (on, ex, ey, ez, ea, eb, ec, ed) refl in
          let (high, low, four, back) =
            five_tests (x == 8) (y == 0) (z / 16 == 4) (kept_back s e dest)
              (some-injective _ _ (sym tests ∙ h)) in
          let routed = kept_back→tunnel s e dest back in
          record {
            enabled = ground (arith, on);
            killswitch = ground (arith, on);
            down = ground (arith, on);
            room = room;
            type_high = ex ∙ ap some ((==_iff x 8).0 high);
            type_low = ey ∙ ap some ((==_iff y 0).0 low);
            v_hl = z;
            version = ez;
            is_four = (==_iff (z / 16) 4).0 four;
            a = a;
            b = b;
            c = c;
            d = d;
            byte0 = ea;
            byte1 = eb;
            byte2 = ec;
            byte3 = ed;
            remote = routed.0;
            tunnel = routed.1;
          }
    ]

-- the first rule that applies in the list of the access point's incoming packets denies
abbrev pub FilterDenies : AccessPoint → ApEnv → Packet → Type 0
FilterDenies s e p =
    (f : Filtered) × (filter s.shared acl_to_ap true e.env (some p) ≡ some f) × (f.denied ≡ true)

-- A packet is freed, and then nothing is counted or sent back, or it is not.
pub record FreedExactly (s : AccessPoint) (e : ApEnv) (p : Packet) (out : Option ApHooked)
    : Type 0 where
  pub hooked : ApHooked
  pub ends : out ≡ some hooked
  pub sound : IsSound hooked.state.shared
  pub outcome :
      ((FilterDenies s e p ⊎ KilledBy s e p)
        × (hooked.fate ≡ freed)
        × (hooked.state.clients ≡ s.clients)
        × (hooked.icmp ≡ none))
      ⊎ ((¬ FilterDenies s e p) × (¬ KilledBy s e p) × (hooked.fate ≢ freed))

not_freed : (b : Bool) (q : Option Packet) → (if b then passed q else unhooked) ≢ freed
not_freed true q h = ground (arith, h)
not_freed false q h = ground (arith, h)

not_denied :
    (s : AccessPoint) (e : ApEnv) (p : Packet) (g : Filtered)
    → filter s.shared acl_to_ap true e.env (some p) ≡ some g
    → g.denied ≡ false
    → ¬ FilterDenies s e p
not_denied s e p g answer no_ (f, same, yes_) =
    let one : g ≡ f = some-injective _ _ (sym answer ∙ same) in
    let both : true ≡ false = sym yes_ ∙ ap (λ (x : Filtered). x.denied) (sym one) ∙ no_ in
    ground (arith, both)

-- On sound lists and a sound capture with its stack area, a packet of a client is freed exactly
-- when the filter denies it or the kill switch keeps it back: the VPN is enabled with its kill
-- switch and is not connected, it is an IPv4 packet to a destination outside the access point's
-- subnet, and all traffic goes through the tunnel or this destination does. A packet that is freed
-- does not reach the clients' counts, and nothing is sent back.
pub ap_netif_input_hook-kills :
    (s : AccessPoint) (e : ApEnv) (p : Packet)
    → IsSound s.shared
    → HasRoom e.env
    → FreedExactly s e p (ap_netif_input_hook s e (some p))
unfolding ap_netif_input_hook on_filtered_in killed
ap_netif_input_hook-kills s e p v r =
    let (denied, f) = filter-Filters s.shared acl_to_ap true e.env (some p) v r in
    let u = moved s.shared f.lists f.taken in
    let t : AccessPoint = record s { shared = u } in
    let sound : IsSound u = record { acl = f.lists_ok; capture = f.capture_ok } in
    let (kill, ek) = killed-some t e (some p) in
    let (icmp, ei) = answered-some t e (some p) in
    let stopped_here : ApHooked = record { state = t; fate = freed; icmp = none } in
    elim (Bool-cases denied) [
      | inl yes_ ↦ record {
        hooked = stopped_here;
        ends = rw (f.answer, yes_) refl;
        sound = sound;
        outcome = inl (inl (_, f.answer, yes_), refl, refl, refl);
      }
      | inr no_ ↦ elim (Bool-cases kill) [
        | inl on ↦ record {
          hooked = stopped_here;
          ends = rw (f.answer, no_, ek, on) refl;
          sound = sound;
          outcome = inl (inr (killed→KilledBy s e p (ek ∙ ap some on)), refl, refl, refl);
        }
        | inr off ↦
            let h =
              hand_on-HandedOn add_received 6 t e f.monitored (some p) icmp (omega arith) sound r in
            let kept : killed s e (some p) ≡ some false = ek ∙ ap some off in
            record {
              hooked = record {
                state = h.after;
                fate = if u.has_original then passed h.changed else unhooked;
                icmp = icmp;
              };
              ends = rw (f.answer, no_, ek, off, ei) h.ends;
              sound = h.sound;
              outcome = inr (
                not_denied s e p _ f.answer no_,
                (λ k. ground (arith, some-injective _ _ (sym kept ∙ killed-KilledBy s e p k))),
                not_freed u.has_original h.changed,
              );
            }
      ]
    ]

-- A packet that the first rule which applies denies goes no further, in both directions.
pub ap_hooks-deny :
    (s : AccessPoint) (e : ApEnv) (p q : Packet)
    → IsSound s.shared
    → HasRoom e.env
    → DeniedBy s.shared acl_to_ap p
    → DeniedBy s.shared acl_from_ap q
    → StopsWith s freed (ap_netif_input_hook s e (some p))
      × StopsWith s refused (ap_netif_linkoutput_hook s e (some q))
unfolding ap_netif_input_hook ap_netif_linkoutput_hook on_filtered_in
ap_hooks-deny s e p q v r dp dq =
    let f = filter-denies s.shared acl_to_ap true e.env p v r dp in
    let g = filter-denies s.shared acl_from_ap true e.env q v r dq in
    (
      rw f.answer (record {
        shared = moved s.shared f.lists f.taken;
        ends = refl;
        sound = record { acl = f.lists_ok; capture = f.capture_ok };
      }),
      rw g.answer (record {
        shared = moved s.shared g.lists g.taken;
        ends = refl;
        sound = record { acl = g.lists_ok; capture = g.capture_ok };
      }),
    )
