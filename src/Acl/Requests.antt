-- ===== src/Acl/Requests.antt =====
-- Sequences of the changes that the console and the web pages make to the tables of acl.c: what
-- holds after any of them.
use esp32_pppo_e_router.Base.{
  ℕ, ◌<◌, ◌≡◌, ◌≢◌, refl, sym, ap, ◌∙◌, arith, true, not, inl, inr, List, [], ◌∷◌, map, length,
  keep, count-keep, length-keep, length-map, Compact, Every, leb, ◌==◌, ==_iff, ◌↔◌, Bool-cases,
}
use esp32_pppo_e_router.Acl.{
  Acl, AclEntry, max_acl_lists, max_acl_entries, is_valid, no_rules, reset_hits, acl_init,
  acl_is_empty, acl_recount, acl_clear, acl_clear_stats, acl_add, acl_delete,
}
use esp32_pppo_e_router.Acl.Table.{
  IsListOk, rules, OthersKept, acl_init-IsListOk, acl_add-Added, acl_delete-Deleted,
  replaced-IsListOk, replaced-OthersKept, out_of_range, no_rules-Compact, update_self, update-ne,
}

-- The requests of the console and the web pages that change the tables.
pub data Request : Type 0 where
  add : ℕ → ℕ → ℕ → ℕ → ℕ → ℕ → ℕ → ℕ → ℕ → Request
  delete : ℕ → ℕ → Request
  clear : ℕ → Request
  clear_stats : ℕ → Request
  recount : ℕ → Request

abbrev pub perform : Acl → Request → Acl
perform s (add n src s_mask dest d_mask proto s_port d_port allow) =
    (acl_add s n src s_mask dest d_mask proto s_port d_port allow).0
perform s (delete n i) = (acl_delete s n i).0
perform s (clear n) = acl_clear s n
perform s (clear_stats n) = acl_clear_stats s n
perform s (recount n) = acl_recount s n

abbrev pub perform_all : Acl → List Request → Acl
perform_all s [] = s
perform_all s (r ∷ rs) = perform_all (perform s r) rs

pub IsListOk-of_same :
    {s t : Acl} {n : ℕ}
    → IsListOk s n
    → t.lists n ≡ s.lists n
    → t.rule_count n ≡ s.rule_count n
    → IsListOk t n
IsListOk-of_same v l c = record {
  slots = rw l v.slots;
  compact = rw l v.compact;
  counted = rw (l, c) v.counted;
}

keep-reset_hits :
    (es : List AclEntry) → keep is_valid (map reset_hits es) ≡ map reset_hits (keep is_valid es)
unfolding keep
keep-reset_hits [] = refl
keep-reset_hits (e ∷ es) = ground (arith, keep-reset_hits es)

Every-reset_hits :
    (es : List AclEntry)
    → Every (λ y. not (is_valid y)) es
    → Every (λ y. not (is_valid y)) (map reset_hits es)
Every-reset_hits [] h = tt
Every-reset_hits (e ∷ es) h = (h.0, Every-reset_hits es h.1)

Compact-reset_hits :
    (es : List AclEntry) → Compact is_valid es → Compact is_valid (map reset_hits es)
Compact-reset_hits [] h = tt
Compact-reset_hits (e ∷ es) h = ((λ f. Every-reset_hits es (h.0 f)), Compact-reset_hits es h.1)

clear-IsListOk : (s : Acl) (n : ℕ) → n < max_acl_lists → IsListOk (acl_clear s n) n
unfolding acl_clear keep
clear-IsListOk s n h =
    rw (out_of_range n h) (replaced-IsListOk s n no_rules 0 refl no_rules-Compact refl)

clear_stats-IsListOk :
    (s : Acl) (n : ℕ) → n < max_acl_lists → IsListOk s n → IsListOk (acl_clear_stats s n) n
unfolding acl_clear_stats
clear_stats-IsListOk s n h v =
    let es = map reset_hits (s.lists n) in
    let there = update_self s.lists n es in
    rw (out_of_range n h) (record {
      slots = rw there (length-map (s.lists n) reset_hits ∙ v.slots);
      compact = rw there (Compact-reset_hits (s.lists n) v.compact);
      counted = rw (there, keep-reset_hits, length-map) v.counted;
    })

-- `acl_recount` sets the counter right whatever it was.
pub recount-IsListOk :
    (s : Acl) (n : ℕ)
    → n < max_acl_lists
    → length (s.lists n) ≡ max_acl_entries
    → Compact is_valid (s.lists n)
    → IsListOk (acl_recount s n) n
unfolding acl_recount
recount-IsListOk s n h l c = rw (out_of_range n h) (record {
  slots = l;
  compact = c;
  counted =
      update_self s.rule_count n _
      ∙ omega (arith, count-keep is_valid (s.lists n), length-keep is_valid (s.lists n), l);
})

-- all four lists are well formed
abbrev pub IsWellFormed : Acl → Type 0
IsWellFormed s = (n : ℕ) → n < max_acl_lists → IsListOk s n

-- An operation that keeps the list it is about, and leaves the others alone, keeps them all.
all_kept : (s t : Acl) (k : ℕ) → IsWellFormed s → IsListOk t k → OthersKept s k t → IsWellFormed t
all_kept s t k w v o n h = elim (Bool-cases (n == k)) [
  | inl e ↦ let e' : k ≡ n = sym ((==_iff n k).0 e) in rw e' at v
  | inr e ↦
      let ne : n ≢ k = (λ q. ground (arith, e, q)) in
      IsListOk-of_same (w n h) (o.lists n ne) (o.rule_count n ne)
]

-- the list that a request is about
abbrev subject : Request → ℕ
subject (add n _ _ _ _ _ _ _ _) = n
subject (delete n _) = n
subject (clear n) = n
subject (clear_stats n) = n
subject (recount n) = n

-- A request about a list that is not there changes nothing.
perform-far : (s : Acl) (r : Request) → leb max_acl_lists (subject r) ≡ true → perform s r ≡ s
unfolding acl_add acl_delete acl_clear acl_clear_stats acl_recount
perform-far s (add n a b c d e f g i) h = ground arith
perform-far s (delete n i) h = ground arith
perform-far s (clear n) h = ground arith
perform-far s (clear_stats n) h = ground arith
perform-far s (recount n) h = ground arith

perform-near :
    (s : Acl) (r : Request)
    → IsWellFormed s
    → subject r < max_acl_lists
    → IsListOk (perform s r) (subject r) × OthersKept s (subject r) (perform s r)
unfolding acl_clear acl_clear_stats acl_recount
perform-near s (add n a b c d e f g i) w h =
    let done = acl_add-Added s n a b c d e f g i h (w n h) in (done.kept, done.others)
perform-near s (delete n i) w h =
    let done = acl_delete-Deleted s n i h (w n h) in (done.kept, done.others)
perform-near s (clear n) w h =
    (clear-IsListOk s n h, rw (out_of_range n h) (replaced-OthersKept s n no_rules 0))
perform-near s (clear_stats n) w h = (
  clear_stats-IsListOk s n h (w n h),
  rw (out_of_range n h)
      (record { lists = λ m q. update-ne s.lists n _ m q; rule_count = λ m q. refl }),
)
perform-near s (recount n) w h = (
  recount-IsListOk s n h (w n h).slots (w n h).compact,
  rw (out_of_range n h)
      (record { lists = λ m q. refl; rule_count = λ m q. update-ne s.rule_count n _ m q }),
)

pub perform-IsWellFormed : (s : Acl) (r : Request) → IsWellFormed s → IsWellFormed (perform s r)
perform-IsWellFormed s r w = elim (Bool-cases (leb max_acl_lists (subject r))) [
  | inl far ↦ rw (perform-far s r far) w
  | inr near ↦
      let done = perform-near s r w (ground (arith, near)) in
      all_kept s (perform s r) (subject r) w done.0 done.1
]

perform_all-IsWellFormed :
    (s : Acl) (rs : List Request) → IsWellFormed s → IsWellFormed (perform_all s rs)
perform_all-IsWellFormed s [] w = w
perform_all-IsWellFormed s (r ∷ rs) w =
    perform_all-IsWellFormed (perform s r) rs (perform-IsWellFormed s r w)

-- After `acl_init` and any sequence of additions, deletions, clearings, statistics resets and
-- recounts, valid or not, each of the four lists has its rules in front of its empty slots and a
-- counter equal to their number, and `acl_is_empty`, by which the packet path decides whether to
-- look at the rules at all, is true exactly of a list with no rule.
pub init_perform_all :
    (s : Acl) (rs : List Request) (n : ℕ)
    → n < max_acl_lists
    → let t = perform_all (acl_init s) rs in
      IsListOk t n × ((acl_is_empty t n ≡ true) ↔ (rules t n ≡ []))
unfolding acl_is_empty
init_perform_all s rs n h =
    let t = perform_all (acl_init s) rs in
    let v = perform_all-IsWellFormed (acl_init s) rs (λ k _. acl_init-IsListOk s k) n h in
    (
      v,
      rw (out_of_range n h) (
        (λ e. empty_of_length (rules t n) (ground (arith, e, v.counted))),
        (λ e. (==_iff _ 0).1 (v.counted ∙ ap length e)),
      ),
    )
  where
    empty_of_length : (es : List AclEntry) → length es ≡ 0 → es ≡ []
    empty_of_length [] e = refl
    empty_of_length (x ∷ xs) e = absurd (omega arith)
