-- ===== src/Acl/Check/Bounds.antt =====
-- `acl_check_packet` on any packet and any tables: it always answers, with one of five codes, and
-- keeps the tables well formed. And what it answers for frames that look like IPv6.
use esp32_pppo_e_router.Base.{
  ℕ, suc, ◌+◌, ◌*◌, ◌%◌, ◌≢◌, ◌++◌, ◌/◌, ◌<◌, ◌≡◌, ◌⊎◌, refl, sym, ap, ◌∙◌, arith, true, false,
  Option, none, some, inl, inr, List, ◌∷◌, length, get_or, set, length-set, find_index-some, leb,
  ◌==◌, if◌then◌else◌, ==_iff, get_or_of_get_elem?, Bool-cases, Option-cases, Compact-set_used,
  length-keep-set,
}
use esp32_pppo_e_router.Acl.{Acl, AclEntry, max_acl_lists, zero_entry, is_valid}
use esp32_pppo_e_router.Acl.Table.{IsListOk, rules, update_self}
use esp32_pppo_e_router.Acl.Requests.{IsWellFormed, IsListOk-of_same}
use esp32_pppo_e_router.Acl.Frame.{
  Pbuf, Headers, Parsed, unfiltered, headers, pass, layout, parse_layout, parse_frame,
}
use esp32_pppo_e_router.Acl.Frame.Safety.{parse_frame-some}
use esp32_pppo_e_router.Acl.Check.{
  Outcome, acl_no_match, rule_matches, hit, settle, ignored, matched, check_parsed,
  acl_check_packet,
}
use esp32_pppo_e_router.Acl.Check.Verdict.{
  matches→valid, StatsBounded, NoneApplies, Applies, acl_check_packet-first,
}

-- A table after a hit on the slot that the search found is well formed if it was.
settle-hit :
    (s : Acl) (k now : ℕ) (h : Headers) (i : ℕ)
    → matched s k h ≡ some i
    → IsListOk s k
    → IsListOk (settle s k now (some i)).state k
unfolding settle
settle-hit s k now h i e v =
    let (r, there, ok, lt) = find_index-some (rule_matches h) (s.lists k) i e in
    let known = get_or_of_get_elem? (s.lists k) i r zero_entry there in
    let used : is_valid (get_or (s.lists k) i zero_entry) ≡ true =
      rw known (matches→valid h r ok) in
    let written =
      update_self s.lists k (set (s.lists k) i (hit (get_or (s.lists k) i zero_entry))) in
    record {
      slots = rw written (length-set (s.lists k) i _ ∙ v.slots);
      compact =
          rw written (Compact-set_used is_valid (s.lists k) i _ zero_entry v.compact lt used used);
      counted =
          rw written
            (v.counted ∙ sym (length-keep-set is_valid (s.lists k) i _ zero_entry lt used used));
    }

settle-IsListOk :
    (s : Acl) (n k now : ℕ) (h : Headers)
    → IsListOk s n
    → IsListOk (settle s k now (matched s k h)).state n
unfolding settle
settle-IsListOk s n k now h v = elim (Option-cases (matched s k h)) [
  | inl e ↦ rw e (IsListOk-of_same v refl refl)
  | inr (i, e) ↦ rw e (elim (Bool-cases (n == k)) [
    | inl q ↦
        let same : n ≡ k = (==_iff n k).0 q in rw same (settle-hit s k now h i e (rw same at v))
    | inr q ↦
        IsListOk-of_same v
          (ap
            (λ b.
              if b then set (s.lists k) i (hit (get_or (s.lists k) i zero_entry)) else s.lists n)
            q)
          refl
  ])
]

abbrev IsCode : ℕ → Type 0
IsCode r = (r < 4) ⊎ (r ≡ acl_no_match)

check_parsed-IsCode : (s : Acl) (n now : ℕ) (x : Parsed) → IsCode (check_parsed s n now x).result
unfolding check_parsed settle
check_parsed-IsCode s n now unfiltered = inr refl
check_parsed-IsCode s n now (headers h) = elim (Option-cases (matched s n h)) [
  | inl e ↦ rw e (inr refl)
  | inr (i, e) ↦ rw e (inl (omega arith))
]

check_parsed-IsWellFormed :
    (s : Acl) (k now : ℕ) (x : Parsed)
    → IsWellFormed s
    → IsWellFormed (check_parsed s k now x).state
unfolding check_parsed
check_parsed-IsWellFormed s k now unfiltered w = w
check_parsed-IsWellFormed s k now (headers h) w = λ n lt. settle-IsListOk s n k now h (w n lt)

-- For every list number, packet and time, a NULL packet and a frame cut short included,
-- `acl_check_packet` answers without a read out of bounds, the answer is a pair of an action and a
-- monitor flag or ACL_NO_MATCH, and tables that are well formed stay so.
pub acl_check_packet-total :
    (s : Acl) (n now : ℕ) (p : Option Pbuf)
    → IsWellFormed s
    → (o : Outcome) × (acl_check_packet s n now p ≡ some o)
      × ((o.result < 4) ⊎ (o.result ≡ acl_no_match))
      × IsWellFormed o.state
unfolding acl_check_packet
acl_check_packet-total s n now none w = (ignored s, refl, inr refl, w)
acl_check_packet-total s n now (some p) w = elim (Bool-cases (leb max_acl_lists n)) [
  | inl far ↦ (ignored s, rw far, inr refl, w)
  | inr near ↦
      let (x, e) = parse_frame-some p.payload in
      (
        check_parsed s n now x,
        rw (near, e),
        check_parsed-IsCode s n now x,
        check_parsed-IsWellFormed s n now x w,
      )
]

layout-six : (first : ℕ) (rest : List ℕ) → first / 16 ≡ 6 → layout (first ∷ rest) ≡ some pass
unfolding layout
layout-six first rest six =
    let one : leb 1 (suc (length rest)) ≡ true = ground arith in
    let four : (first / 16 == 4) ≡ false = ground (arith, six) in rw (one, four, six)

passes-six :
    (s : Acl) (n now : ℕ) (p : Pbuf) (first : ℕ) (rest : List ℕ)
    → p.payload ≡ first ∷ rest
    → first / 16 ≡ 6
    → acl_check_packet s n now (some p) ≡ some (ignored s)
unfolding acl_check_packet parse_frame parse_layout check_parsed
passes-six s n now p first rest e six = elim (Bool-cases (leb max_acl_lists n)) [
  | inl far ↦ rw far
  | inr near ↦ rw (near, e, layout-six first rest six)
]

-- Where a frame is denied by the first rule of a list that applies, the same frame with a first
-- byte of high nibble 6, to another MAC address, meets no rule: the answer is ACL_NO_MATCH, nothing
-- is counted, and no rule is hit. For a list with counters of 32 bits and a frame whose headers are
-- read.
pub acl_check_packet-six :
    (s : Acl) (n now first other : ℕ) (rest : List ℕ) (tot_len : ℕ) (h : Headers)
    (before : List AclEntry) (rule : AclEntry) (after : List AclEntry)
    → n < max_acl_lists
    → StatsBounded (s.stats n)
    → parse_frame (other ∷ rest) ≡ some (headers h)
    → rules s n ≡ before ++ (rule ∷ after)
    → NoneApplies h before
    → Applies h rule
    → rule.allow % 2 ≡ 0
    → first / 16 ≡ 6
    → ((o : Outcome) × (acl_check_packet s n now
            (some (record { payload = other ∷ rest; tot_len = tot_len }))
          ≡ some o)
        × ((o.result ≡ 0) ⊎ (o.result ≡ 2)))
      × (acl_check_packet s n now (some (record { payload = first ∷ rest; tot_len = tot_len }))
          ≡ some (record { state = s; result = 255; should_log = false }))
acl_check_packet-six s n now first other rest tot_len h before rule after lt b parsed split
      none_before a deny six =
    let (o, e, done) =
      acl_check_packet-first s n now (record { payload = other ∷ rest; tot_len = tot_len }) h before
        rule after lt b parsed split none_before a in
    (
      (o, e, denied o rule.allow deny done.result),
      passes-six s n now (record { payload = first ∷ rest; tot_len = tot_len }) first rest refl six,
    )
  where
    denied :
        (o : Outcome) (allow : ℕ)
        → allow % 2 ≡ 0
        → o.result ≡ allow % 2 + allow / 2 % 2 * 2
        → (o.result ≡ 0) ⊎ (o.result ≡ 2)
    denied o allow deny e = elim (Bool-cases (allow / 2 % 2 == 0)) [
      | inl quiet ↦ inl (omega (arith, (==_iff (allow / 2 % 2) 0).0 quiet, e, deny))
      | inr watched ↦
          let ne : (allow / 2 % 2) ≢ 0 = (λ q. ground (arith, watched, q)) in
          inr (omega (arith, ne, e, deny))
    ]
