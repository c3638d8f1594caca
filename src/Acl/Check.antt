-- ===== src/Acl/Check.antt =====
-- `acl_check_packet` (components/acl/acl.c): the rules that a frame meets, the verdict, and the
-- counters that it leaves. The text that is logged is not modelled; that a line is due is.
pub mod Verdict
pub mod Bounds
use esp32_pppo_e_router.Base.{
  ℕ, ◌+◌, ◌-◌, ◌*◌, ◌/◌, ◌%◌, Bool, true, false, not, ◌&&◌, ◌||◌, Option, none, some, List, leb,
  ◌==◌, if◌then◌else◌, get_or, set, find_index, u32, bit_and,
}
use esp32_pppo_e_router.Acl.{Acl, AclEntry, AclStats, max_acl_lists, zero_entry, is_valid, update}
use esp32_pppo_e_router.Acl.Frame.{Pbuf, Headers, Parsed, unfiltered, headers, parse_frame}

abbrev pub acl_no_match : ℕ
acl_no_match = 0xFF

abbrev pub acl_log_interval_us : ℕ
acl_log_interval_us = 500000

-- what the caller gets, with whether a line is logged
pub record Outcome : Type 0 where
  pub state : Acl
  pub result : ℕ
  pub should_log : Bool

-- The tests of the loop's body, in its order: `false` is `continue`.
unfoldable pub ports_match : Headers → AclEntry → Bool
ports_match h rule =
    if not (rule.s_port == 0) || not (rule.d_port == 0)
    then (if not (h.proto == 6) && not (h.proto == 17)
        then false
        else if not (rule.s_port == 0) && not (rule.s_port == h.src_port)
        then false
        else if not (rule.d_port == 0) && not (rule.d_port == h.dst_port)
        then false
        else true)
    else true

unfoldable pub rule_matches : Headers → AclEntry → Bool
unfolding ports_match
rule_matches h rule =
    if not (is_valid rule)
    then false
    else if not (rule.proto == 0) && not (rule.proto == h.proto)
    then false
    else if not (bit_and h.src_ip rule.s_mask == rule.src)
    then false
    else if not (bit_and h.dest_ip rule.d_mask == rule.dest)
    then false
    else ports_match h rule

-- `rule->allow & 0x01` and `rule->allow & ACL_MONITOR`
abbrev pub action_bit : ℕ → ℕ
action_bit allow = allow % 2

abbrev pub monitor_bit : ℕ → ℕ
monitor_bit allow = allow / 2 % 2 * 2

-- `action | monitor`, of two different bits
abbrev pub verdict : AclEntry → ℕ
verdict rule = action_bit rule.allow + monitor_bit rule.allow

abbrev hit : AclEntry → AclEntry
hit rule = record rule { hit_count = u32 (rule.hit_count + 1) }

unfoldable pub count_action : AclStats → ℕ → AclStats
count_action st action =
    if action == 1
    then record st { packets_allowed = u32 (st.packets_allowed + 1) }
    else record st { packets_denied = u32 (st.packets_denied + 1) }

-- a denied packet is logged at most once in the interval; times do not go back
abbrev log_due : Acl → ℕ → AclEntry → ℕ → Bool
log_due s acl_no rule now =
    not (action_bit rule.allow == 1) && leb acl_log_interval_us (now - s.last_deny_log_time acl_no)

unfoldable pub settle : Acl → ℕ → ℕ → Option ℕ → Outcome
unfolding count_action
settle s acl_no now none =
    let st = s.stats acl_no in
    record {
      state = record s {
        stats =
            update s.stats acl_no (record st { packets_nomatch = u32 (st.packets_nomatch + 1) });
      };
      result = acl_no_match;
      should_log = false;
    }
settle s acl_no now (some i) =
    let es = s.lists acl_no in
    let rule = get_or es i zero_entry in
    let logs = log_due s acl_no rule now in
    record {
      state = record s {
        lists = update s.lists acl_no (set es i (hit rule));
        stats = update s.stats acl_no (count_action (s.stats acl_no) (action_bit rule.allow));
        last_deny_log_time =
            if logs then update s.last_deny_log_time acl_no now else s.last_deny_log_time;
      };
      result = verdict rule;
      should_log = logs;
    }

abbrev pub ignored : Acl → Outcome
ignored s = record { state = s; result = acl_no_match; should_log = false }

abbrev pub matched : Acl → ℕ → Headers → Option ℕ
matched s acl_no h = find_index (rule_matches h) (s.lists acl_no)

unfoldable pub check_parsed : Acl → ℕ → ℕ → Parsed → Outcome
unfolding settle rule_matches
check_parsed s acl_no now unfiltered = ignored s
check_parsed s acl_no now (headers h) = settle s acl_no now (matched s acl_no h)

-- `none` as a packet is NULL; `none` as the outcome would be a read out of bounds
unfoldable pub acl_check_packet : Acl → ℕ → ℕ → Option Pbuf → Option Outcome
acl_check_packet s acl_no now none = some (ignored s)
acl_check_packet s acl_no now (some p) =
    if leb max_acl_lists acl_no then some (ignored s) else elim (parse_frame p.payload) [
      | none ↦ none
      | some parsed ↦ some (check_parsed s acl_no now parsed)
    ]
