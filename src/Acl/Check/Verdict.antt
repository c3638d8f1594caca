-- ===== src/Acl/Check/Verdict.antt =====
-- What `acl_check_packet` answers, in terms of the ordered rules of a list.
use esp32_pppo_e_router.Base.{
  ℕ, ◌+◌, ◌-◌, ◌*◌, ◌/◌, ◌%◌, ◌^◌, ◌<◌, ◌≡◌, ◌≢◌, ◌↔◌, ◌⊎◌, refl, ap, ◌∙◌, arith, true, false, not,
  none, some, inl, inr, List, [], ◌∷◌, ◌++◌, keep, Every, Bool-cases, u32, bit_and, Found,
  find_index-first, find_index-no_hit, keep-middle,
}
use esp32_pppo_e_router.Acl.{Acl, AclEntry, AclStats, max_acl_lists, zero_entry, is_valid}
use esp32_pppo_e_router.Acl.Table.{rules, out_of_range, update_self, update-ne}
use esp32_pppo_e_router.Acl.Frame.{Pbuf, Headers, headers, parse_frame}
use esp32_pppo_e_router.Acl.Check.{
  Outcome, acl_no_match, rule_matches, action_bit, hit, count_action, settle, check_parsed,
  acl_check_packet,
}

-- a port filter: 0 stands for any port
abbrev PortIs : ℕ → ℕ → Type 0
PortIs filter port = (filter ≡ 0) ⊎ (filter ≡ port)

-- What a rule says of a packet: protocol and addresses agree, and a rule with a port filter is
-- about TCP and UDP only.
pub record Applies (h : Headers) (rule : AclEntry) : Type 0 where
  pub proto : (rule.proto ≡ 0) ⊎ (rule.proto ≡ h.proto)
  pub src : bit_and h.src_ip rule.s_mask ≡ rule.src
  pub dest : bit_and h.dest_ip rule.d_mask ≡ rule.dest
  pub ports :
      ((rule.s_port ≡ 0) × (rule.d_port ≡ 0))
      ⊎ (((h.proto ≡ 6) ⊎ (h.proto ≡ 17))
          × PortIs rule.s_port h.src_port
          × PortIs rule.d_port h.dst_port)

-- The tests of the matching loop pass exactly for the rules that apply.
pub rule_matches_iff :
    (h : Headers) (rule : AclEntry)
    → is_valid rule ≡ true
    → (rule_matches h rule ≡ true) ↔ Applies h rule
unfolding rule_matches
rule_matches_iff h rule v = ((λ e. ground arith), (λ a. ground arith))

pub matches→valid :
    (h : Headers) (rule : AclEntry) → rule_matches h rule ≡ true → is_valid rule ≡ true
unfolding rule_matches
matches→valid h rule e = ground arith

-- No rule of a list applies.
abbrev pub NoneApplies : Headers → List AclEntry → Type 0
NoneApplies h [] = Unit
NoneApplies h (r ∷ rs) = (¬ Applies h r) × NoneApplies h rs

no_match :
    (h : Headers) (rs : List AclEntry) → NoneApplies h rs → Every (λ y. not (rule_matches h y)) rs
no_match h [] a = tt
no_match h (r ∷ rs) a = (skipped, no_match h rs a.1)
  where
    skipped : not (rule_matches h r) ≡ true
    skipped = elim (Bool-cases (rule_matches h r)) [
      | inl e ↦ absurd (a.0 ((rule_matches_iff h r (matches→valid h r e)).0 e))
      | inr e ↦ ap not e
    ]

-- the counters after a packet met `rule`
pub record Counted (before after : AclStats) (rule : AclEntry) : Type 0 where
  pub allowed : after.packets_allowed ≡ (before.packets_allowed + rule.allow % 2) % 2 ^ 32
  pub denied : after.packets_denied ≡ (before.packets_denied + (1 - rule.allow % 2)) % 2 ^ 32
  pub nomatch : after.packets_nomatch ≡ before.packets_nomatch

-- the counters of a list are 32-bit words
pub record StatsBounded (st : AclStats) : Type 0 where
  pub allowed : st.packets_allowed < 2 ^ 32
  pub denied : st.packets_denied < 2 ^ 32

count_action-Counted :
    (st : AclStats) (rule : AclEntry)
    → StatsBounded st
    → Counted st (count_action st (action_bit rule.allow)) rule
unfolding count_action
count_action-Counted st rule b = ground arith

-- what a packet does that `rule` decides, with `before` and `after` round it in list `n`
pub record Decided (s : Acl) (n : ℕ) (before : List AclEntry) (rule : AclEntry)
    (after : List AclEntry) (o : Outcome) : Type 0 where
  pub result : o.result ≡ rule.allow % 2 + rule.allow / 2 % 2 * 2
  pub rules_after :
      rules o.state n
      ≡ before ++ (record rule { hit_count = (rule.hit_count + 1) % 2 ^ 32 } ∷ after)
  pub counted : Counted (s.stats n) (o.state.stats n) rule
  pub others : (m : ℕ) → m ≢ n → (o.state.lists m ≡ s.lists m) × (o.state.stats m ≡ s.stats m)

settle-Decided :
    (s : Acl) (n now : ℕ) (h : Headers) (before : List AclEntry) (rule : AclEntry)
    (after : List AclEntry)
    (f : Found is_valid (rule_matches h) (s.lists n) before rule after zero_entry)
    → StatsBounded (s.stats n)
    → is_valid rule ≡ true
    → Decided s n before rule after (settle s n now (some f.index))
unfolding settle
settle-Decided s n now h before rule after f b v = record {
  result = rw f.there;
  rules_after =
      ap (keep is_valid) (update_self s.lists n _) ∙ (rw f.there (f.written (hit rule) v));
  counted = rw (update_self s.stats n _, f.there) (count_action-Counted (s.stats n) rule b);
  others = λ m q. (update-ne s.lists n _ m q, update-ne s.stats n _ m q);
}

-- For one of the four lists, with counters of 32 bits, and a packet whose headers are read as `h`,
-- the first rule of the list that applies decides:
-- the result has its action in bit 0 and its monitor flag in bit 1, and no other bit; its hit counter and the list's allowed or denied
-- counter go up by one (modulo 2 ^ 32), and no other rule, list or counter changes.
pub acl_check_packet-first :
    (s : Acl) (n now : ℕ) (p : Pbuf) (h : Headers) (before : List AclEntry) (rule : AclEntry)
    (after : List AclEntry)
    → n < max_acl_lists
    → StatsBounded (s.stats n)
    → parse_frame p.payload ≡ some (headers h)
    → rules s n ≡ before ++ (rule ∷ after)
    → NoneApplies h before
    → Applies h rule
    → (o : Outcome) × (acl_check_packet s n now (some p) ≡ some o) × Decided s n before rule after o
unfolding acl_check_packet check_parsed
acl_check_packet-first s n now p h before rule after lt b parsed split none_before a =
    let v = keep-middle is_valid (s.lists n) before rule after split in
    let m = (rule_matches_iff h rule v).1 a in
    let f =
      find_index-first is_valid (rule_matches h) (matches→valid h) zero_entry (s.lists n) before
        rule after split (no_match h before none_before) m in
    (
      settle s n now (some f.index),
      rw (out_of_range n lt, parsed, f.found),
      settle-Decided s n now h before rule after f b v,
    )

-- For one of the four lists, a packet whose headers are read and to which no rule of the list
-- applies gets ACL_NO_MATCH, with no log line; the list's no-match counter goes up by one, modulo
-- 2 ^ 32, and no rule of any list changes.
pub acl_check_packet-none :
    (s : Acl) (n now : ℕ) (p : Pbuf) (h : Headers)
    → n < max_acl_lists
    → parse_frame p.payload ≡ some (headers h)
    → NoneApplies h (rules s n)
    → (o : Outcome) × (acl_check_packet s n now (some p) ≡ some o)
      × (o.result ≡ acl_no_match)
      × (o.should_log ≡ false)
      × ((o.state.stats n).packets_nomatch ≡ u32 ((s.stats n).packets_nomatch + 1))
      × (o.state.lists ≡ s.lists)
unfolding acl_check_packet check_parsed settle
acl_check_packet-none s n now p h lt parsed all =
    let miss =
      find_index-no_hit is_valid (rule_matches h) (matches→valid h) zero_entry (s.lists n)
        (no_match h (rules s n) all) in
    (
      settle s n now none,
      rw (out_of_range n lt, parsed, miss),
      refl,
      refl,
      ap (λ (st : AclStats). st.packets_nomatch) (update_self s.stats n _),
      refl,
    )
