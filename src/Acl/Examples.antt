-- ===== src/Acl/Examples.antt =====
-- The theorems on acl.c at concrete tables and frames, and tests of its functions.
use esp32_pppo_e_router.Base.{
  drop, false, ◌⊎◌, ℕ, ◌+◌, ◌≡◌, ◌↔◌, refl, arith, true, some, keep, find_index, List, [], ◌∷◌,
}
use esp32_pppo_e_router.Base.Bytes.{be16}
use esp32_pppo_e_router.Acl.{
  Acl, AclEntry, zero_stats, new_entry, acl_init, acl_is_empty, acl_add, acl_delete,
}
use esp32_pppo_e_router.Acl.Table.{
  IsListOk, rules, Deleted, acl_init-IsListOk, acl_add-Added, acl_delete-Deleted,
}
use esp32_pppo_e_router.Acl.Requests.{
  Request, add, delete, clear, recount, perform_all, IsWellFormed, init_perform_all,
}
use esp32_pppo_e_router.Acl.Frame.{
  Pbuf, Headers, headers, parse_frame, layout, ethernet_layout, ethertype_layout, ip_parse, ports,
  addr32, parse_layout,
}
use esp32_pppo_e_router.Acl.Check.{Outcome, acl_check_packet, rule_matches}
use esp32_pppo_e_router.Acl.Check.Verdict.{
  Applies, NoneApplies, StatsBounded, Decided, rule_matches_iff, acl_check_packet-first,
}
use esp32_pppo_e_router.Acl.Check.Bounds.{acl_check_packet-six}

-- the tables before `acl_init`
abbrev blank : Acl
blank = record {
  lists = λ _. [];
  stats = λ _. zero_stats;
  rule_count = λ _. 7;
  last_deny_log_time = λ _. 0;
}

abbrev fresh : Acl
fresh = acl_init blank

-- "deny tcp any any eq 80"
abbrev no_web : AclEntry
no_web = new_entry 0 0 0 0 6 0 80 0

-- list 0 with that rule
abbrev one_rule : Acl
one_rule = (acl_add fresh 0 0 0 0 0 6 0 80 0).0

fresh-IsWellFormed : IsWellFormed fresh
fresh-IsWellFormed n h = acl_init-IsListOk blank n

one_rule-IsListOk : IsListOk one_rule 0
one_rule-IsListOk =
    (acl_add-Added fresh 0 0 0 0 0 6 0 80 0 (omega arith) (fresh-IsWellFormed 0 (omega arith))).kept

acl_delete-Deleted_example : Deleted one_rule 0 0 (acl_delete one_rule 0 0)
acl_delete-Deleted_example = acl_delete-Deleted one_rule 0 0 (omega arith) one_rule-IsListOk

abbrev requests : List Request
requests = add 0 0 0 0 0 6 0 80 0 ∷ add 9 0 0 0 0 6 0 80 0 ∷ delete 0 3 ∷ clear 1 ∷ recount 0 ∷ []

init_perform_all_example :
    let t = perform_all (acl_init blank) requests in
    IsListOk t 0 × ((acl_is_empty t 0 ≡ true) ↔ (rules t 0 ≡ []))
init_perform_all_example = init_perform_all blank requests 0 (omega arith)

-- TCP from 10.0.0.1 port 4660 to 10.0.0.2 port 80, in an Ethernet frame
abbrev web_frame : List ℕ
web_frame =
    2 ∷ 0 ∷ 0 ∷ 0 ∷ 0 ∷ 1 ∷ 2 ∷ 0 ∷ 0 ∷ 0 ∷ 0 ∷ 2 ∷ 8 ∷ 0 ∷ 0x45 ∷ 0 ∷ 0 ∷ 40 ∷ 0 ∷ 0 ∷ 0 ∷ 0 ∷ 64
    ∷ 6 ∷ 0 ∷ 0 ∷ 10 ∷ 0 ∷ 0 ∷ 1 ∷ 10 ∷ 0 ∷ 0 ∷ 2 ∷ 0x12 ∷ 0x34 ∷ 0 ∷ 80 ∷ 0 ∷ 0 ∷ 0 ∷ 0 ∷ 0 ∷ 0 ∷ 0
    ∷ 0 ∷ 0x50 ∷ 2 ∷ 0 ∷ 0 ∷ 0 ∷ 0 ∷ 0 ∷ 0 ∷ []

abbrev web_headers : Headers
web_headers = record {
  src_ip = 10 + 16777216;
  dest_ip = 10 + 33554432;
  proto = 6;
  src_port = 0x1234;
  dst_port = 80;
}

abbrev web_packet : Pbuf
web_packet = record { payload = web_frame; tot_len = 54 }

parse_web_frame : parse_frame web_frame ≡ some (headers web_headers)
unfolding parse_frame layout ethernet_layout ethertype_layout parse_layout ip_parse ports addr32
    be16
parse_web_frame = refl

no_web-Applies : Applies web_headers no_web
no_web-Applies = (rule_matches_iff web_headers no_web refl).0 (unfold rule_matches in refl)

rules-one_rule : rules one_rule 0 ≡ no_web ∷ []
unfolding acl_add acl_init keep find_index
rules-one_rule = refl

one_rule-StatsBounded : StatsBounded (one_rule.stats 0)
unfolding acl_add acl_init find_index
one_rule-StatsBounded = omega arith

fresh-NoneApplies : NoneApplies web_headers (rules fresh 1)
unfolding acl_init keep
fresh-NoneApplies = tt

acl_check_packet-first_example :
    (o : Outcome) × (acl_check_packet one_rule 0 9 (some web_packet) ≡ some o)
    × Decided one_rule 0 [] no_web [] o
acl_check_packet-first_example =
    acl_check_packet-first one_rule 0 9 web_packet web_headers [] no_web [] (omega arith)
      one_rule-StatsBounded parse_web_frame rules-one_rule tt no_web-Applies

-- the frame to port 80, to a MAC address that starts with 6A
acl_check_packet-six_example :
    ((o : Outcome) × (acl_check_packet one_rule 0 9 (some web_packet) ≡ some o)
      × ((o.result ≡ 0) ⊎ (o.result ≡ 2)))
    × (acl_check_packet one_rule 0 9
          (some (record { payload = 0x6A ∷ drop 1 web_frame; tot_len = 54 }))
        ≡ some (record { state = one_rule; result = 255; should_log = false }))
acl_check_packet-six_example =
    acl_check_packet-six one_rule 0 9 0x6A 2 (drop 1 web_frame) 54 web_headers [] no_web []
      (omega arith) one_rule-StatsBounded parse_web_frame rules-one_rule tt no_web-Applies refl refl
