-- ===== src/Hooks/Uplink/Total.antt =====
-- The uplink hooks of netif_hooks.c on any packet: each ends, without an access out of bounds, and
-- either stops the packet or hands it on.
use esp32_pppo_e_router.Base.{
  ℕ, ◌+◌, ◌≡◌, ◌⊎◌, refl, ap, arith, Bool, false, Option, none, some, inl, inr, List, length,
  if◌then◌else◌, Bool-cases, u64,
}
use esp32_pppo_e_router.Base.Bytes.{◌>>=◌}
use esp32_pppo_e_router.Hooks.Ttl.{override_ethernet, override_raw}
use esp32_pppo_e_router.Hooks.Ttl.Header.{override_ethernet-length}
use esp32_pppo_e_router.Hooks.Uplink.{
  Packet, Uplink, Env, Fate, freed, refused, unhooked, passed, Hooked, filter, acl_to_esp,
  acl_from_esp, sent, count_received, count_sent, pass, with_ttl, netif_input_hook,
  netif_linkoutput_hook, netif_output_hook,
}
use esp32_pppo_e_router.Hooks.Uplink.Filter.{
  IsSound, HasRoom, moved, filter-Filters, capture_if-CaptureOnly,
}

-- a byte counter after a packet, if it is on the hooked interface
abbrev pub counted : ℕ → Bool → Option Packet → ℕ
counted n is_sta none = n
counted n is_sta (some p) = if is_sta then u64 (n + p.tot_len) else n

abbrev handed_on : Uplink → Option Packet → Fate
handed_on s p = if s.has_original then passed p else unhooked

-- How an input hook ends.
pub record EndsInput (s : Uplink) (is_sta : Bool) (p : Option Packet) (out : Option Hooked)
    : Type 0 where
  pub hooked : Hooked
  pub ends : out ≡ some hooked
  pub sound : IsSound hooked.state
  pub sent_same : hooked.state.sta_bytes_sent ≡ s.sta_bytes_sent
  pub outcome :
      ((hooked.fate ≡ freed) × (hooked.state.sta_bytes_received ≡ s.sta_bytes_received))
      ⊎ ((hooked.fate ≡ (if s.has_original then passed p else unhooked))
          × (hooked.state.sta_bytes_received ≡ counted s.sta_bytes_received is_sta p))

count_received-lem :
    (s : Uplink) (is_sta : Bool) (p : Option Packet)
    → ((count_received s is_sta p).sta_bytes_received ≡ counted s.sta_bytes_received is_sta p)
      × ((count_received s is_sta p).sta_bytes_sent ≡ s.sta_bytes_sent)
      × ((count_received s is_sta p).acl ≡ s.acl)
      × ((count_received s is_sta p).capture ≡ s.capture)
      × ((count_received s is_sta p).has_original ≡ s.has_original)
count_received-lem s is_sta none = (refl, refl, refl, refl, refl)
count_received-lem s is_sta (some p) = ground arith

count_sent-lem :
    (s : Uplink) (is_sta : Bool) (p : Option Packet)
    → ((count_sent s is_sta p).sta_bytes_sent ≡ counted s.sta_bytes_sent is_sta p)
      × ((count_sent s is_sta p).sta_bytes_received ≡ s.sta_bytes_received)
      × ((count_sent s is_sta p).acl ≡ s.acl)
      × ((count_sent s is_sta p).capture ≡ s.capture)
      × ((count_sent s is_sta p).has_original ≡ s.has_original)
count_sent-lem s is_sta none = (refl, refl, refl, refl, refl)
count_sent-lem s is_sta (some p) = ground arith

IsSound-same : (s t : Uplink) → IsSound s → t.acl ≡ s.acl → t.capture ≡ s.capture → IsSound t
IsSound-same s t v a c = record { acl = rw a v.acl; capture = rw c v.capture }

-- For every packet, NULL included, `netif_input_hook` on sound lists and a sound capture with its stack area ends without an access out of
-- bounds and keeps them sound; it either frees the packet and counts nothing, or adds its length to
-- the received bytes of the hooked interface, modulo 2 ^ 64, and then hands the packet on as it is,
-- or, when the replaced function is not known, neither frees it nor hands it on.
pub netif_input_hook-EndsInput :
    (s : Uplink) (is_sta : Bool) (env : Env) (p : Option Packet)
    → IsSound s
    → HasRoom env
    → EndsInput s is_sta p (netif_input_hook s is_sta env p)
unfolding netif_input_hook
netif_input_hook-EndsInput s is_sta env p v r =
    let (denied, f) = filter-Filters s acl_to_esp false env p v r in
    elim (Bool-cases denied) [
      | inl e ↦
          rw (f.answer, e)
            (record {
              hooked = record { state = moved s f.lists f.taken; fate = freed };
              ends = refl;
              sound = record { acl = f.lists_ok; capture = f.capture_ok };
              sent_same = refl;
              outcome = inl (refl, refl);
            })
      | inr e ↦
          let t = moved s f.lists f.taken in
          let (c, ec, k) = capture_if-CaptureOnly t f.monitored false env p f.capture_ok r in
          let u = moved t t.acl c in
          let n = count_received-lem u is_sta p in
          let sound_u : IsSound u = record { acl = f.lists_ok; capture = k } in
          rw (f.answer, e, ec)
            (record {
              hooked = pass (count_received u is_sta p) p;
              ends = refl;
              sound = IsSound-same u (count_received u is_sta p) sound_u n.2 n.3;
              sent_same = n.1;
              outcome = inr (ap (λ b. if b then passed p else unhooked) n.4, n.0);
            })
    ]

-- How an output hook ends that rewrites the TTL by `override`.
pub record EndsOutput (override : List ℕ → ℕ → Option (List ℕ)) (s : Uplink) (is_sta : Bool)
    (p : Option Packet) (out : Option Hooked) : Type 0 where
  pub hooked : Hooked
  pub changed : Option Packet
  pub ends : out ≡ some hooked
  pub rewritten : with_ttl override s.sta_ttl_override p ≡ some changed
  pub sound : IsSound hooked.state
  pub received_same : hooked.state.sta_bytes_received ≡ s.sta_bytes_received
  pub outcome :
      ((hooked.fate ≡ refused) × (hooked.state.sta_bytes_sent ≡ s.sta_bytes_sent))
      ⊎ ((hooked.fate ≡ (if s.has_original then passed changed else unhooked))
          × (hooked.state.sta_bytes_sent ≡ counted s.sta_bytes_sent is_sta changed))

-- an override that keeps to the packet
abbrev KeepsTo : (List ℕ → ℕ → Option (List ℕ)) → Type 0
KeepsTo override =
    (payload : List ℕ) (ttl : ℕ)
    → (out : List ℕ) × (override payload ttl ≡ some out) × (length out ≡ length payload)

with_ttl-some :
    (override : List ℕ → ℕ → Option (List ℕ)) (ttl : ℕ) (p : Option Packet)
    → KeepsTo override
    → (q : Option Packet) × (with_ttl override ttl p ≡ some q)
with_ttl-some override ttl none k = (none, refl)
with_ttl-some override ttl (some p) k =
    let (out, e, _) = k p.payload ttl in (some (record p { payload = out }), rw e refl)

sent-EndsOutput :
    (override : List ℕ → ℕ → Option (List ℕ)) (s : Uplink) (is_sta : Bool) (env : Env)
    (p : Option Packet)
    → KeepsTo override
    → IsSound s
    → HasRoom env
    → EndsOutput override s is_sta p
        (filter s acl_from_esp false env p >>= sent override is_sta env p)
sent-EndsOutput override s is_sta env p over v r =
    let (denied, f) = filter-Filters s acl_from_esp false env p v r in
    let (q, eq) = with_ttl-some override s.sta_ttl_override p over in
    elim (Bool-cases denied) [
      | inl e ↦
          rw (f.answer, e)
            (record {
              hooked = record { state = moved s f.lists f.taken; fate = refused };
              changed = q;
              ends = refl;
              rewritten = eq;
              sound = record { acl = f.lists_ok; capture = f.capture_ok };
              received_same = refl;
              outcome = inl (refl, refl);
            })
      | inr e ↦
          let t = moved s f.lists f.taken in
          let (c, ec, k) = capture_if-CaptureOnly t f.monitored false env q f.capture_ok r in
          let u = moved t t.acl c in
          let n = count_sent-lem u is_sta q in
          let sound_u : IsSound u = record { acl = f.lists_ok; capture = k } in
          rw (f.answer, e)
            (record {
              hooked = pass (count_sent u is_sta q) q;
              changed = q;
              ends = rw (eq, ec) refl;
              rewritten = eq;
              sound = IsSound-same u (count_sent u is_sta q) sound_u n.2 n.3;
              received_same = n.1;
              outcome = inr (ap (λ b. if b then passed q else unhooked) n.4, n.0);
            })
    ]

-- For every packet, NULL included, both output hooks on sound lists and a sound capture with its stack area end without an access out of
-- bounds and keep them sound; each either refuses the packet and counts nothing, or applies the TTL
-- override and adds the length to the sent bytes of the hooked interface, modulo 2 ^ 64, and then
-- hands the packet on, or, when the replaced function is not known, returns an error.
pub netif_linkoutput_hook-EndsOutput :
    (s : Uplink) (is_sta : Bool) (env : Env) (p : Option Packet)
    → IsSound s
    → HasRoom env
    → EndsOutput override_ethernet s is_sta p (netif_linkoutput_hook s is_sta env p)
      × EndsOutput override_raw s is_sta p (netif_output_hook s is_sta env p)
unfolding netif_linkoutput_hook netif_output_hook
netif_linkoutput_hook-EndsOutput s is_sta env p v r = (
  sent-EndsOutput override_ethernet s is_sta env p (λ b t. (override_ethernet-length b t).0) v r,
  sent-EndsOutput override_raw s is_sta env p (λ b t. (override_ethernet-length b t).1) v r,
)
