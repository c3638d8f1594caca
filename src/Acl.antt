-- ===== src/Acl.antt =====
-- The rule tables of components/acl/acl.c and acl.h: the four lists, their counters and the
-- operations that change them. An array that the C file indexes by `acl_no` is a function of the
-- number, so an operation writes at one number; a list of entries is a List of 16 slots.
-- The mutex serialises the operations: each is one step here.
pub mod Table
pub mod Requests
pub mod Frame
pub mod Check
pub mod Text
pub mod Storage
mod Examples
use esp32_pppo_e_router.Base.{
  ◌||◌, ℕ, zero, suc, ◌+◌, ◌-◌, Bool, true, false, not, Option, none, some, List, map, leb, ltb,
  ◌==◌, if◌then◌else◌, get_or, set, replicate, find_index, count, u8, bit_and,
}

abbrev pub max_acl_lists : ℕ
max_acl_lists = 4

abbrev pub max_acl_entries : ℕ
max_acl_entries = 16

-- `acl_entry_t`. `valid` is a byte: any value but 0 makes the slot a rule.
pub record AclEntry : Type 0 where
  pub src : ℕ  -- uint32
  pub s_mask : ℕ  -- uint32
  pub dest : ℕ  -- uint32
  pub d_mask : ℕ  -- uint32
  pub s_port : ℕ  -- uint16
  pub d_port : ℕ  -- uint16
  pub proto : ℕ  -- uint8
  pub allow : ℕ  -- uint8
  pub hit_count : ℕ  -- uint32
  pub valid : ℕ  -- uint8

-- what `memset(entry, 0, sizeof(acl_entry_t))` leaves
abbrev pub zero_entry : AclEntry
zero_entry = record {
  src = 0;
  s_mask = 0;
  dest = 0;
  d_mask = 0;
  s_port = 0;
  d_port = 0;
  proto = 0;
  allow = 0;
  hit_count = 0;
  valid = 0;
}

abbrev pub is_valid : AclEntry → Bool
is_valid e = not (e.valid == 0)

-- `acl_stats_t`
pub record AclStats : Type 0 where
  pub packets_allowed : ℕ  -- uint32
  pub packets_denied : ℕ  -- uint32
  pub packets_nomatch : ℕ  -- uint32

abbrev pub zero_stats : AclStats
zero_stats = record { packets_allowed = 0; packets_denied = 0; packets_nomatch = 0 }

-- the file's static variables
pub record Acl : Type 0 where
  pub lists : ℕ → List AclEntry
  pub stats : ℕ → AclStats
  pub rule_count : ℕ → ℕ  -- uint8
  pub last_deny_log_time : ℕ → ℕ  -- microseconds

-- a write to one element of an array
abbrev pub update {ℓ} : {A : Type ℓ} → (ℕ → A) → ℕ → A → ℕ → A
update f k v j = if j == k then v else f j

abbrev pub no_rules : List AclEntry
no_rules = replicate max_acl_entries zero_entry

unfoldable pub acl_init : Acl → Acl
acl_init s = record s { lists = λ _. no_rules; stats = λ _. zero_stats; rule_count = λ _. 0 }

unfoldable pub acl_is_empty : Acl → ℕ → Bool
acl_is_empty s acl_no = if leb max_acl_lists acl_no then true else s.rule_count acl_no == 0

unfoldable pub acl_get_count : Acl → ℕ → ℕ
acl_get_count s acl_no = if leb max_acl_lists acl_no then 0 else s.rule_count acl_no

unfoldable pub acl_recount : Acl → ℕ → Acl
acl_recount s acl_no =
    if leb max_acl_lists acl_no
    then s
    else record s { rule_count = update s.rule_count acl_no (u8 (count is_valid (s.lists acl_no))) }

unfoldable pub acl_clear : Acl → ℕ → Acl
acl_clear s acl_no = if leb max_acl_lists acl_no then s else record s {
  lists = update s.lists acl_no no_rules;
  rule_count = update s.rule_count acl_no 0;
}

abbrev pub reset_hits : AclEntry → AclEntry
reset_hits e = record e { hit_count = 0 }

unfoldable pub acl_clear_stats : Acl → ℕ → Acl
acl_clear_stats s acl_no = if leb max_acl_lists acl_no then s else record s {
  stats = update s.stats acl_no zero_stats;
  lists = update s.lists acl_no (map reset_hits (s.lists acl_no));
}

-- the entry that `acl_add` stores, with the addresses masked
abbrev pub new_entry : ℕ → ℕ → ℕ → ℕ → ℕ → ℕ → ℕ → ℕ → AclEntry
new_entry src s_mask dest d_mask proto s_port d_port allow = record {
  src = bit_and src s_mask;
  s_mask = s_mask;
  dest = bit_and dest d_mask;
  d_mask = d_mask;
  s_port = s_port;
  d_port = d_port;
  proto = proto;
  allow = allow;
  hit_count = 0;
  valid = 1;
}

-- the first empty slot
abbrev pub free_slot : List AclEntry → Option ℕ
free_slot es = find_index (λ e. not (is_valid e)) es

abbrev store_at : Acl → ℕ → AclEntry → Option ℕ → Acl × Bool
store_at s acl_no e none = (s, false)
store_at s acl_no e (some slot) = (
  record s {
    lists = update s.lists acl_no (set (s.lists acl_no) slot e);
    rule_count = update s.rule_count acl_no (u8 (s.rule_count acl_no + 1));
  },
  true,
)

unfoldable pub acl_add : Acl → ℕ → ℕ → ℕ → ℕ → ℕ → ℕ → ℕ → ℕ → ℕ → Acl × Bool
acl_add s acl_no src s_mask dest d_mask proto s_port d_port allow =
    if leb max_acl_lists acl_no
    then (s, false)
    else store_at s acl_no (new_entry src s_mask dest d_mask proto s_port d_port allow)
        (free_slot (s.lists acl_no))

-- The compacting loop of `acl_delete` from slot `i`, with `n` rounds left: a rule in the next slot
-- moves up, an empty one ends the loop.
unfoldable pub move_up : ℕ → ℕ → List AclEntry → List AclEntry
move_up zero i es = es
move_up (suc n) i es =
    let next = get_or es (suc i) zero_entry in
    let rest = move_up n (suc i) (set (set es i next) (suc i) zero_entry) in
    if is_valid next then rest else es

unfoldable pub acl_delete : Acl → ℕ → ℕ → Acl × Bool
acl_delete s acl_no rule_idx =
    if leb max_acl_lists acl_no || leb max_acl_entries rule_idx
    then (s, false)
    else if not (is_valid (get_or (s.lists acl_no) rule_idx zero_entry))
    then (s, false)
    else let es = set (s.lists acl_no) rule_idx zero_entry in
      let left = s.rule_count acl_no in
      (
        record s {
          lists = update s.lists acl_no (move_up (max_acl_entries - 1 - rule_idx) rule_idx es);
          rule_count = update s.rule_count acl_no (if ltb 0 left then left - 1 else left);
        },
        true,
      )

-- `acl_get_rules` and `acl_get_stats`; `none` is NULL
unfoldable pub acl_get_rules : Acl → ℕ → Option (List AclEntry)
acl_get_rules s acl_no = if leb max_acl_lists acl_no then none else some (s.lists acl_no)

unfoldable pub acl_get_stats : Acl → ℕ → Option AclStats
acl_get_stats s acl_no = if leb max_acl_lists acl_no then none else some (s.stats acl_no)
