-- ===== src/Hooks/Uplink/Deny.antt =====
-- What the uplink hooks of netif_hooks.c do with a packet: a denied one goes no further and is not
-- counted, any other one is handed on.
use esp32_pppo_e_router.Base.{◌≡◌, refl, Bool, true, false, Option, some}
use esp32_pppo_e_router.Base.Bytes.{◌>>=◌}
use esp32_pppo_e_router.Hooks.Uplink.{
  Packet, Uplink, Env, Filtered, Fate, freed, refused, Hooked, acl_to_esp, acl_from_esp,
  netif_input_hook, netif_linkoutput_hook, netif_output_hook, wrap_ip4_input,
}
use esp32_pppo_e_router.Hooks.Uplink.Filter.{
  IsSound, HasRoom, moved, Filters, DeniedBy, filter-denies,
}

-- A hook that ends the packet's way, in state `s`, with `fate`: nothing is counted.
pub record Stopped (s : Uplink) (fate : Fate) (out : Option Hooked) : Type 0 where
  pub hooked : Hooked
  pub ends : out ≡ some hooked
  pub fate_is : hooked.fate ≡ fate
  pub received : hooked.state.sta_bytes_received ≡ s.sta_bytes_received
  pub sent : hooked.state.sta_bytes_sent ≡ s.sta_bytes_sent
  pub sound : IsSound hooked.state

stop :
    (s : Uplink) (fate : Fate) (out : Option Filtered) (next : Filtered → Option Hooked)
    → Filters s true out
    → ((f : Filtered) → f.denied ≡ true → next f ≡ some (record { state = f.state; fate = fate }))
    → Stopped s fate (out >>= next)
stop s fate out next f h = record {
  hooked = record { state = moved s f.lists f.taken; fate = fate };
  ends = rw f.answer (h _ refl);
  fate_is = refl;
  received = refl;
  sent = refl;
  sound = record { acl = f.lists_ok; capture = f.capture_ok };
}

-- On sound lists and a sound capture with its stack area, a packet for which the first rule that
-- applies in the list of incoming packets denies is freed by both input hooks: neither hands it on or counts it, and lists and capture
-- stay sound.
pub netif_input_hook-denies :
    (s : Uplink) (is_sta : Bool) (env : Env) (p : Packet)
    → IsSound s
    → HasRoom env
    → DeniedBy s acl_to_esp p
    → Stopped s freed (netif_input_hook s is_sta env (some p))
      × Stopped s freed (wrap_ip4_input s true env (some p))
unfolding netif_input_hook wrap_ip4_input
netif_input_hook-denies s is_sta env p v r d =
    let f = filter-denies s acl_to_esp false env p v r d in
    (stop s freed _ _ f (λ g e. rw e refl), stop s freed _ _ f (λ g e. rw e refl))

-- On sound lists and a sound capture with its stack area, a packet for which the first rule that
-- applies in the list of outgoing packets denies is refused by both output hooks: neither hands it on, changes its TTL or counts it, and
-- lists and capture stay sound.
pub netif_linkoutput_hook-denies :
    (s : Uplink) (is_sta : Bool) (env : Env) (p : Packet)
    → IsSound s
    → HasRoom env
    → DeniedBy s acl_from_esp p
    → Stopped s refused (netif_linkoutput_hook s is_sta env (some p))
      × Stopped s refused (netif_output_hook s is_sta env (some p))
unfolding netif_linkoutput_hook netif_output_hook
netif_linkoutput_hook-denies s is_sta env p v r d =
    let f = filter-denies s acl_from_esp false env p v r d in
    (stop s refused _ _ f (λ g e. rw e refl), stop s refused _ _ f (λ g e. rw e refl))
