-- ===== src/Acl/Table.antt =====
-- The rule tables of acl.c as ordered lists of rules: what the slots stand for, and what adding,
-- deleting and clearing do to that list. `Moves` has the compacting loop.
pub mod Moves
use esp32_pppo_e_router.Base.{
  ℕ, zero, suc, ◌+◌, ◌-◌, ◌%◌, ◌^◌, ◌≤◌, ◌<◌, ◌≡◌, ◌≢◌, refl, sym, ap, ◌∙◌, arith, Bool, true,
  false, not, ◌||◌, Option, none, some, inl, inr, List, [], ◌∷◌, ◌++◌, map, length, get_or, set,
  replicate, length-set, length-replicate, length-map, length-append, keep, count, count-keep,
  length-keep, lt→ltb, tests, find_index, find_index-none, keep-full, keep-set_free,
  Compact-set_free, keep-none, Compact, Compact-of_none, Every, Every-replicate, leb, ltb, ◌==◌,
  if◌then◌else◌, Bool-cases, Option-cases, u8,
}
use esp32_pppo_e_router.Acl.{
  Acl, AclEntry, max_acl_lists, max_acl_entries, zero_entry, zero_stats, is_valid, no_rules,
  reset_hits, new_entry, free_slot, update, store_at, acl_init, acl_is_empty, acl_get_count,
  acl_recount, acl_clear, acl_clear_stats, acl_add, acl_delete, move_up,
}
use esp32_pppo_e_router.Acl.Table.Moves.{
  erase_at, move_up-set, length-erase_at, keep-le, erase_at-beyond,
}

-- the rules of a list, in the order in which packets meet them
abbrev pub rules : Acl → ℕ → List AclEntry
rules s n = keep is_valid (s.lists n)

-- What holds of list `n` between two operations: 16 slots, the rules first, and the counter that
-- the packet path reads without the lock is their number.
pub record IsListOk (s : Acl) (n : ℕ) : Type 0 where
  pub slots : length (s.lists n) ≡ max_acl_entries
  pub compact : Compact is_valid (s.lists n)
  pub counted : s.rule_count n ≡ length (rules s n)

-- A list has at most 16 rules.
pub rules_capped : {s : Acl} {n : ℕ} → IsListOk s n → length (rules s n) ≤ max_acl_entries
rules_capped {s} {n} v = omega (arith, length-keep is_valid (s.lists n), v.slots)

no_rules-Every : Every (λ y. not (is_valid y)) no_rules
no_rules-Every = Every-replicate is_valid 16 zero_entry refl

pub no_rules-Compact : Compact is_valid no_rules
no_rules-Compact = Compact-of_none is_valid no_rules no_rules-Every

pub acl_init-IsListOk : (s : Acl) (n : ℕ) → IsListOk (acl_init s) n
unfolding acl_init
acl_init-IsListOk s n = record {
  slots = refl;
  compact = no_rules-Compact;
  counted = unfold keep in refl;
}

-- a list is full exactly when no slot is free
pub free_slot-none :
    {s : Acl} {n : ℕ}
    → IsListOk s n
    → free_slot (s.lists n) ≡ none
    → length (rules s n) ≡ max_acl_entries
free_slot-none {s} {n} v e = ap length (keep-full is_valid (s.lists n) e) ∙ v.slots

-- the room for one more rule
stored :
    {s : Acl} {n : ℕ} (i : ℕ) (e : AclEntry)
    → IsListOk s n
    → is_valid e ≡ true
    → free_slot (s.lists n) ≡ some i
    → (keep is_valid (set (s.lists n) i e) ≡ rules s n ++ (e ∷ []))
      × Compact is_valid (set (s.lists n) i e)
      × (length (set (s.lists n) i e) ≡ max_acl_entries)
      × (length (rules s n) < max_acl_entries)
stored {s} {n} i e v ok f =
    let grown = keep-set_free is_valid (s.lists n) i e v.compact f ok in
    let sized = length-set (s.lists n) i e ∙ v.slots in
    (
      grown,
      Compact-set_free is_valid (s.lists n) i e v.compact f ok,
      sized,
      omega (
        arith,
        sized,
        length-keep is_valid (set (s.lists n) i e),
        ap length grown,
        length-append (rules s n) (e ∷ []),
      ),
    )

pub out_of_range : (n : ℕ) → n < max_acl_lists → leb max_acl_lists n ≡ false
out_of_range n h = ground arith

pub update_self {ℓ} : {A : Type ℓ} (f : ℕ → A) (k : ℕ) (v : A) → update f k v k ≡ v
update_self f k v = ground arith

pub update-ne {ℓ} : {A : Type ℓ} (f : ℕ → A) (k : ℕ) (v : A) (j : ℕ) → j ≢ k → update f k v j ≡ f j
update-ne f k v j h = ground arith

-- `s` with other slots and another counter at `n`
abbrev pub replaced : Acl → ℕ → List AclEntry → ℕ → Acl
replaced s n es c = record s { lists = update s.lists n es; rule_count = update s.rule_count n c }

-- an operation on list `n` leaves the other lists alone
pub record OthersKept (s : Acl) (n : ℕ) (t : Acl) : Type 0 where
  pub lists : (m : ℕ) → m ≢ n → t.lists m ≡ s.lists m
  pub rule_count : (m : ℕ) → m ≢ n → t.rule_count m ≡ s.rule_count m

pub replaced-IsListOk :
    (s : Acl) (n : ℕ) (es : List AclEntry) (c : ℕ)
    → length es ≡ max_acl_entries
    → Compact is_valid es
    → c ≡ length (keep is_valid es)
    → IsListOk (replaced s n es c) n
replaced-IsListOk s n es c h k q =
    let there = update_self s.lists n es in
    record {
      slots = rw there h;
      compact = rw there k;
      counted = rw (update_self s.rule_count n c, there) q;
    }

pub replaced-OthersKept :
    (s : Acl) (n : ℕ) (es : List AclEntry) (c : ℕ) → OthersKept s n (replaced s n es c)
replaced-OthersKept s n es c = record {
  lists = λ m h. update-ne s.lists n es m h;
  rule_count = λ m h. update-ne s.rule_count n c m h;
}

pub unchanged : (s : Acl) (n : ℕ) → OthersKept s n s
unchanged s n = record { lists = λ m h. refl; rule_count = λ m h. refl }

-- what `acl_add` does to list `n`
pub record Added (s : Acl) (n : ℕ) (e : AclEntry) (out : Acl × Bool) : Type 0 where
  pub accepted : out.1 ≡ ltb (length (rules s n)) max_acl_entries
  pub appended :
      rules out.0 n
      ≡ (if ltb (length (rules s n)) max_acl_entries then rules s n ++ (e ∷ []) else rules s n)
  pub kept : IsListOk out.0 n
  pub others : OthersKept s n out.0

store_at-Added :
    (s : Acl) (n : ℕ) (e : AclEntry) (o : Option ℕ)
    → IsListOk s n
    → is_valid e ≡ true
    → free_slot (s.lists n) ≡ o
    → Added s n e (store_at s n e o)
store_at-Added s n e none v ok f =
    let full = free_slot-none v f in
    record {
      accepted = ground (arith, full);
      appended = rw full refl;
      kept = v;
      others = unchanged s n;
    }
store_at-Added s n e (some i) v ok f =
    let put = stored i e v ok f in
    let es = set (s.lists n) i e in
    let room = lt→ltb (length (rules s n)) max_acl_entries put.3 in
    record {
      accepted = sym room;
      appended = rw (update_self s.lists n es, room) put.0;
      kept =
          replaced-IsListOk s n es (u8 (s.rule_count n + 1)) put.2 put.1
            (omega (arith, put.3, v.counted, ap length put.0, length-append (rules s n) (e ∷ [])));
      others = replaced-OthersKept s n es (u8 (s.rule_count n + 1));
    }

-- `acl_add` on a well-formed list with fewer than 16 rules succeeds and appends the rule, its addresses
-- masked, behind the others; on a full list it fails and changes no rule. Either way the list
-- stays well formed, its counter is exact, and the other lists keep their slots and counters.
pub acl_add-Added :
    (s : Acl) (n src s_mask dest d_mask proto s_port d_port allow : ℕ)
    → n < max_acl_lists
    → IsListOk s n
    → Added s n
        (new_entry src s_mask dest d_mask proto s_port d_port allow)
        (acl_add s n src s_mask dest d_mask proto s_port d_port allow)
unfolding acl_add
acl_add-Added s n src s_mask dest d_mask proto s_port d_port allow h v = rw (out_of_range n h) (
    store_at-Added s n (new_entry src s_mask dest d_mask proto s_port d_port allow)
      (free_slot (s.lists n)) v refl refl)

-- what `acl_delete` does to list `n`
pub record Deleted (s : Acl) (n i : ℕ) (out : Acl × Bool) : Type 0 where
  pub accepted : out.1 ≡ ltb i (length (rules s n))
  pub erased : rules out.0 n ≡ erase_at (rules s n) i
  pub kept : IsListOk out.0 n
  pub others : OthersKept s n out.0

not_there : (s : Acl) (n i : ℕ) → IsListOk s n → length (rules s n) ≤ i → Deleted s n i (s, false)
not_there s n i v h = record {
  accepted = ground arith;
  erased = sym (erase_at-beyond (rules s n) i h);
  kept = v;
  others = unchanged s n;
}

taken_out :
    (s : Acl) (n i : ℕ)
    → IsListOk s n
    → i < max_acl_entries
    → is_valid (get_or (s.lists n) i zero_entry) ≡ true
    → Deleted s n i (
      replaced s n
          (move_up (15 - i) i (set (s.lists n) i zero_entry))
          (if ltb 0 (s.rule_count n) then s.rule_count n - 1 else s.rule_count n),
      true,
    )
taken_out s n i v h e =
    let es = move_up (15 - i) i (set (s.lists n) i zero_entry) in
    let c = (if ltb 0 (s.rule_count n) then s.rule_count n - 1 else s.rule_count n) in
    let moved = move_up-set (15 - i) i (s.lists n) (omega (arith, v.slots)) v.compact e in
    let c' : c ≡ s.rule_count n - 1 = ground arith in
    record {
      accepted = sym (lt→ltb i (length (rules s n)) moved.3);
      erased = rw (update_self s.lists n es) moved.0;
      kept =
          replaced-IsListOk s n es c (moved.2 ∙ v.slots) moved.1 (
            omega (arith, c', v.counted, ap length moved.0, length-erase_at (rules s n) i moved.3));
      others = replaced-OthersKept s n es c;
    }

-- On a well-formed list, `acl_delete` succeeds exactly when rule `i` is there; it removes that rule and keeps the order
-- of the others, so what they match before one another does not change. The list stays well
-- formed, its counter is exact, and the other lists keep their slots and counters.
pub acl_delete-Deleted :
    (s : Acl) (n i : ℕ) → n < max_acl_lists → IsListOk s n → Deleted s n i (acl_delete s n i)
unfolding acl_delete
acl_delete-Deleted s n i h v = rw (out_of_range n h) (elim (Bool-cases (leb max_acl_entries i)) [
  | inl far ↦ rw far (not_there s n i v (omega (tests, rules_capped v, far)))
  | inr near ↦ elim (Bool-cases (is_valid (get_or (s.lists n) i zero_entry))) [
    | inl e ↦ rw (near, e) (taken_out s n i v (ground arith) e)
    | inr e ↦ rw (near, e) (not_there s n i v (keep-le (s.lists n) i v.compact e))
  ]
])
