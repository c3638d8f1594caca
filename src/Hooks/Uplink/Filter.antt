-- ===== src/Hooks/Uplink/Filter.antt =====
-- The filter that starts every hook of netif_hooks.c: it always ends, and changes only the access
-- lists and the capture.
use esp32_pppo_e_router.Base.{
  ℕ, ◌+◌, ◌<◌, ◌≡◌, refl, ap, ◌∙◌, arith, Bool, true, false, Option, some, inl, inr, List, ◌∷◌,
  ◌++◌, length, Bool-cases, length-append,
}
use esp32_pppo_e_router.Acl.{Acl, AclEntry, max_acl_lists, acl_is_empty}
use esp32_pppo_e_router.Acl.Table.{rules, IsListOk}
use esp32_pppo_e_router.Acl.Requests.{IsWellFormed}
use esp32_pppo_e_router.Acl.Frame.{Pbuf, Headers, headers, parse_frame}
use esp32_pppo_e_router.Acl.Check.{Outcome, action_bit, verdict}
use esp32_pppo_e_router.Acl.Check.Verdict.{
  Applies, NoneApplies, StatsBounded, acl_check_packet-first,
}
use esp32_pppo_e_router.Acl.Check.Bounds.{acl_check_packet-total}
use esp32_pppo_e_router.Pcap.Capture.{Capture, pcap_snaplen_max, pkt_hdr_size, pcap_should_capture}
use esp32_pppo_e_router.Pcap.Capture.Session.{IsReady, capture-Goes}
use esp32_pppo_e_router.Hooks.Uplink.{
  Packet, Uplink, Env, Filtered, view, chain, capture_now, capture_if, on_outcome, filter, monitors,
  denies,
}

-- the access lists and the capture are in order
pub record IsSound (s : Uplink) : Type 0 where
  pub acl : IsWellFormed s.acl
  pub capture : IsReady s.capture

-- the stack area of `pcap_capture_packet`
abbrev pub HasRoom : Env → Type 0
HasRoom env = length env.pkt_buf ≡ pkt_hdr_size + pcap_snaplen_max

-- `s` with other lists and another capture
abbrev pub moved : Uplink → Acl → Capture → Uplink
moved s a c = record s { acl = a; capture = c }

-- a step that succeeds and changes only the capture
abbrev CaptureOnly : Uplink → Option Uplink → Type 0
CaptureOnly s out = (c : Capture) × (out ≡ some (moved s s.acl c)) × IsReady c

capture_now-CaptureOnly :
    (s : Uplink) (env : Env) (p : Option Packet)
    → IsReady s.capture
    → HasRoom env
    → CaptureOnly s (capture_now s env p)
unfolding capture_now
capture_now-CaptureOnly s env p v r =
    let (c, e, w) =
      capture-Goes s.capture (chain p) env.ts_sec env.ts_usec env.pkt_buf env.busy v r in
    (c, rw e refl, w)

pub capture_if-CaptureOnly :
    (s : Uplink) (monitored is_ap : Bool) (env : Env) (p : Option Packet)
    → IsReady s.capture
    → HasRoom env
    → CaptureOnly s (capture_if s monitored is_ap env p)
capture_if-CaptureOnly s monitored is_ap env p v r =
    elim (Bool-cases (pcap_should_capture s.capture monitored is_ap)) [
      | inr off ↦ (s.capture, rw off refl, v)
      | inl on ↦ let (c, e, w) = capture_now-CaptureOnly s env p v r in (c, rw on e, w)
    ]

-- what the filter answers: the lists and the capture that it leaves, and its two flags
pub record Filters (s : Uplink) (denied : Bool) (out : Option Filtered) : Type 0 where
  pub lists : Acl
  pub taken : Capture
  pub monitored : Bool
  pub answer :
      out
      ≡ some (record { state = moved s lists taken; denied = denied; is_acl_monitored = monitored })
  pub lists_ok : IsWellFormed lists
  pub capture_ok : IsReady taken

on_outcome-Filters :
    (s : Uplink) (is_ap : Bool) (env : Env) (p : Option Packet) (o : Outcome)
    → IsWellFormed o.state
    → IsReady s.capture
    → HasRoom env
    → Filters s (denies o.result) (on_outcome s is_ap env p o)
unfolding on_outcome
on_outcome-Filters s is_ap env p o w v r = elim (Bool-cases (denies o.result)) [
  | inr allowed ↦ rw allowed (record {
    lists = o.state;
    taken = s.capture;
    monitored = monitors o.result;
    answer = refl;
    lists_ok = w;
    capture_ok = v;
  })
  | inl refused ↦ elim (Bool-cases (monitors o.result)) [
    | inr quiet ↦
        rw (refused, quiet)
          (record {
            lists = o.state;
            taken = s.capture;
            monitored = false;
            answer = refl;
            lists_ok = w;
            capture_ok = v;
          })
    | inl watched ↦
        let (c, e, k) = capture_if-CaptureOnly (record s { acl = o.state }) true is_ap env p v r in
        rw (refused, watched, e)
          (record {
            lists = o.state;
            taken = c;
            monitored = true;
            answer = refl;
            lists_ok = w;
            capture_ok = k;
          })
  ]
]

-- On sound lists and a sound capture, the filter ends for every packet, NULL included, without an
-- access out of bounds, and leaves them sound.
pub filter-Filters :
    (s : Uplink) (n : ℕ) (is_ap : Bool) (env : Env) (p : Option Packet)
    → IsSound s
    → HasRoom env
    → (denied : Bool) × Filters s denied (filter s n is_ap env p)
unfolding filter
filter-Filters s n is_ap env p v r = elim (Bool-cases (acl_is_empty s.acl n)) [
  | inl empty ↦ (
    false,
    rw empty (record {
      lists = s.acl;
      taken = s.capture;
      monitored = false;
      answer = refl;
      lists_ok = v.acl;
      capture_ok = v.capture;
    }),
  )
  | inr full ↦
      let (o, e, _, w) = acl_check_packet-total s.acl n env.now (view p) v.acl in
      (denies o.result, rw (full, e) (on_outcome-Filters s is_ap env p o w v.capture r))
]

-- a packet that the first rule which applies denies
pub record DeniedBy (s : Uplink) (n : ℕ) (p : Packet) : Type 0 where
  pub in_range : n < max_acl_lists
  pub bounded : StatsBounded (s.acl.stats n)
  pub fields : Headers
  pub parsed : parse_frame p.payload ≡ some (headers fields)
  pub before : List AclEntry
  pub rule : AclEntry
  pub after : List AclEntry
  pub split : rules s.acl n ≡ before ++ (rule ∷ after)
  pub none_before : NoneApplies fields before
  pub applies : Applies fields rule
  pub is_deny : action_bit rule.allow ≡ 0

not_empty :
    (a : Acl) (n : ℕ) (before : List AclEntry) (rule : AclEntry) (after : List AclEntry)
    → n < max_acl_lists
    → IsListOk a n
    → rules a n ≡ before ++ (rule ∷ after)
    → acl_is_empty a n ≡ false
unfolding acl_is_empty
not_empty a n before rule after h v e =
    let size = v.counted ∙ ap length e ∙ length-append before (rule ∷ after) in
    ground (arith, size, h)

denies-verdict : (rule : AclEntry) → action_bit rule.allow ≡ 0 → denies (verdict rule) ≡ true
denies-verdict rule h = ground (arith, h)

-- The filter denies such a packet.
pub filter-denies :
    (s : Uplink) (n : ℕ) (is_ap : Bool) (env : Env) (p : Packet)
    → IsSound s
    → HasRoom env
    → DeniedBy s n p
    → Filters s true (filter s n is_ap env (some p))
unfolding filter
filter-denies s n is_ap env p v r d =
    let full = not_empty s.acl n d.before d.rule d.after d.in_range (v.acl n d.in_range) d.split in
    let pbuf : Pbuf = record { payload = p.payload; tot_len = p.tot_len } in
    let (o, e, decided) =
      acl_check_packet-first s.acl n env.now pbuf d.fields d.before d.rule d.after d.in_range
        d.bounded d.parsed d.split d.none_before d.applies in
    let (o', e', _, w) = acl_check_packet-total s.acl n env.now (some pbuf) v.acl in
    let same : o' ≡ o = cc in
    let refused : denies o'.result ≡ true =
      rw (same, decided.result) (denies-verdict d.rule d.is_deny) in
    let done = on_outcome-Filters s is_ap env (some p) o' w v.capture r in
    rw (full, e') (denied_so (denies o'.result) done refused)
  where
    denied_so : {out : Option Filtered} (b : Bool) → Filters s b out → b ≡ true → Filters s true out
    denied_so b f e = rw e at f
