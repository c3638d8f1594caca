-- ===== src/Acl/Storage/Restored.antt =====
-- The lists that `save_acl_rules` has written are the ones that `load_acl_rules` reads
-- (components/acl/acl_nvs.c).
use esp32_pppo_e_router.Base.{
  ℕ, zero, suc, ◌+◌, ◌≤◌, ◌<◌, ◌≡◌, ◌≢◌, refl, sym, ap, ◌∙◌, arith, not, inl, inr, Option, none,
  some, List, [], ◌∷◌, ◌++◌, append-nil, map, length, drop, keep, Compact, Every, ◌==◌, ==_iff,
  Bool-cases, length-map,
}
use esp32_pppo_e_router.Dhcp.Reservations.{esp_ok}
use esp32_pppo_e_router.Acl.{
  Acl, AclEntry, max_acl_lists, max_acl_entries, is_valid, reset_hits, acl_init, acl_recount,
  acl_get_rules,
}
use esp32_pppo_e_router.Acl.Table.{IsListOk, rules, out_of_range, update_self, update-ne}
use esp32_pppo_e_router.Acl.Requests.{IsListOk-of_same, IsWellFormed, recount-IsListOk}
use esp32_pppo_e_router.Acl.Storage.{
  Storage, save_lists, save_acl_rules, load_entry, loaded, load_lists, recount_lists,
  load_acl_rules,
}

-- What is documented of NVS, while no write fails: a blob that was written is read back, and
-- writing it or committing leaves the others.
pub record IsStorage {F : Type 0} (nvs : Storage F) : Type 0 where
  pub written :
      (f : F) (k : ℕ) (es : List AclEntry) → nvs.get_blob ((nvs.set_blob f k es).1) k ≡ (esp_ok, es)
  pub others :
      (f : F) (k : ℕ) (es : List AclEntry) (j : ℕ)
      → j ≢ k
      → nvs.get_blob ((nvs.set_blob f k es).1) j ≡ nvs.get_blob f j
  pub committed : (f : F) (j : ℕ) → nvs.get_blob ((nvs.commit f).1) j ≡ nvs.get_blob f j

keep-load_entry :
    (es : List AclEntry) → keep is_valid (map load_entry es) ≡ map reset_hits (keep is_valid es)
unfolding keep
keep-load_entry [] = refl
keep-load_entry (e ∷ es) = ground (arith, keep-load_entry es)

is_valid-load_entry : (e : AclEntry) → is_valid (load_entry e) ≡ is_valid e
is_valid-load_entry e = ground arith

Every-load_entry :
    (es : List AclEntry)
    → Every (λ y. not (is_valid y)) es
    → Every (λ y. not (is_valid y)) (map load_entry es)
Every-load_entry [] h = tt
Every-load_entry (e ∷ es) h = (ap not (is_valid-load_entry e) ∙ h.0, Every-load_entry es h.1)

Compact-load_entry :
    (es : List AclEntry) → Compact is_valid es → Compact is_valid (map load_entry es)
Compact-load_entry [] h = tt
Compact-load_entry (e ∷ es) h =
    ((λ f. Every-load_entry es (h.0 (sym (is_valid-load_entry e) ∙ f))), Compact-load_entry es h.1)

-- The loop that writes from number `i` on leaves the lists before `i`.
save_lists-before :
    {F : Type 0} (nvs : Storage F) (s : Acl) (n i : ℕ) (f : F) (j : ℕ)
    → IsStorage nvs
    → j < i
    → nvs.get_blob (save_lists nvs s n i f) j ≡ nvs.get_blob f j
unfolding save_lists
save_lists-before nvs s zero i f j ok h = refl
save_lists-before nvs s (suc n) i f j ok h =
    save_lists-before nvs s n (suc i) ((nvs.set_blob f i (s.lists i)).1) j ok (omega (arith, h))
    ∙ ok.others f i (s.lists i) j (λ e. omega (arith, h, e))

-- Each list that it writes is there afterwards.
save_lists-written :
    {F : Type 0} (nvs : Storage F) (s : Acl) (n i : ℕ) (f : F) (j : ℕ)
    → IsStorage nvs
    → i ≤ j
    → j < i + n
    → nvs.get_blob (save_lists nvs s n i f) j ≡ (esp_ok, s.lists j)
unfolding save_lists
save_lists-written nvs s zero i f j ok low high = absurd (omega (arith, low, high))
save_lists-written nvs s (suc n) i f j ok low high =
    let next = (nvs.set_blob f i (s.lists i)).1 in
    elim (Bool-cases (j == i)) [
      | inl e ↦
          let same = (==_iff j i).0 e in
          save_lists-before nvs s n (suc i) next j ok (omega (arith, same))
          ∙ rw same (ok.written f i (s.lists i))
      | inr e ↦
          let ne : j ≢ i = (λ q. ground (arith, e, q)) in
          save_lists-written nvs s n (suc i) next j ok (omega (arith, low, ne))
            (omega (arith, high))
    ]

saved :
    {F : Type 0} (nvs : Storage F) (s : Acl) (f : F) (j : ℕ)
    → IsStorage nvs
    → nvs.open_err f ≡ esp_ok
    → j < max_acl_lists
    → nvs.get_blob ((save_acl_rules nvs s f).1) j ≡ (esp_ok, s.lists j)
unfolding save_acl_rules
saved nvs s f j ok opened h = rw ((==_iff (nvs.open_err f) esp_ok).1 opened) (
    ok.committed (save_lists nvs s max_acl_lists 0 f) j
    ∙ save_lists-written nvs s max_acl_lists 0 f j ok (omega arith) (omega (arith, h)))

-- a list of which a whole blob is there
loaded-there :
    (s : Acl) (i : ℕ) (old es : List AclEntry)
    → length old ≡ length es
    → (loaded s i (some old) (esp_ok, es)).lists i ≡ map load_entry es
loaded-there s i old es h =
    update_self s.lists i (map load_entry (es ++ drop (length es) old))
    ∙ ap (λ rest. map load_entry (es ++ rest)) (drop-all old (length es) h)
    ∙ ap (map load_entry) (append-nil es)
  where
    drop-all : (xs : List AclEntry) (n : ℕ) → length xs ≡ n → drop n xs ≡ []
    drop-all [] zero h = refl
    drop-all [] (suc n) h = refl
    drop-all (x ∷ xs) zero h = absurd (omega (arith, h))
    drop-all (x ∷ xs) (suc n) h = drop-all xs n (omega (arith, h))

loaded-elsewhere :
    (s : Acl) (i : ℕ) (old : Option (List AclEntry)) (answer : ℕ × List AclEntry) (j : ℕ)
    → j ≢ i
    → (loaded s i old answer).lists j ≡ s.lists j
loaded-elsewhere s i none answer j h = refl
loaded-elsewhere s i (some es) (err, blob) j h = elim (Bool-cases (err == esp_ok)) [
  | inl e ↦ rw e (update-ne s.lists i _ j h)
  | inr e ↦ rw e refl
]

load_lists-before :
    {F : Type 0} (nvs : Storage F) (f : F) (n i : ℕ) (s : Acl) (j : ℕ)
    → j < i
    → (load_lists nvs f n i s).lists j ≡ s.lists j
unfolding load_lists
load_lists-before nvs f zero i s j h = refl
load_lists-before nvs f (suc n) i s j h =
    load_lists-before nvs f n (suc i) (loaded s i (acl_get_rules s i) (nvs.get_blob f i)) j
      (omega (arith, h))
    ∙ loaded-elsewhere s i (acl_get_rules s i) (nvs.get_blob f i) j (λ e. omega (arith, h, e))

-- Each list that the loop reads is the stored one.
load_lists-there :
    {F : Type 0} (nvs : Storage F) (f : F) (n i : ℕ) (s : Acl) (j : ℕ) (es : List AclEntry)
    → i ≤ j
    → j < i + n
    → j < max_acl_lists
    → nvs.get_blob f j ≡ (esp_ok, es)
    → length (s.lists j) ≡ length es
    → (load_lists nvs f n i s).lists j ≡ map load_entry es
unfolding load_lists acl_get_rules
load_lists-there nvs f zero i s j es low high range there size = absurd (omega (arith, low, high))
load_lists-there nvs f (suc n) i s j es low high range there size =
    let next = loaded s i (acl_get_rules s i) (nvs.get_blob f i) in
    elim (Bool-cases (j == i)) [
      | inl e ↦
          let same : i ≡ j = sym ((==_iff j i).0 e) in
          load_lists-before nvs f n (suc i) next j (omega (arith, same))
          ∙ rw (same, out_of_range j range, there) (loaded-there s j (s.lists j) es size)
      | inr e ↦
          let ne : j ≢ i = (λ q. ground (arith, e, q)) in
          let kept = loaded-elsewhere s i (acl_get_rules s i) (nvs.get_blob f i) j ne in
          load_lists-there nvs f n (suc i) next j es (omega (arith, low, ne)) (omega (arith, high))
            range there (ap length kept ∙ size)
    ]

acl_recount-lists : (s : Acl) (i j : ℕ) → (acl_recount s i).lists j ≡ s.lists j
unfolding acl_recount
acl_recount-lists s i j = ground arith

acl_recount-elsewhere :
    (s : Acl) (i j : ℕ) → j ≢ i → (acl_recount s i).rule_count j ≡ s.rule_count j
unfolding acl_recount
acl_recount-elsewhere s i j h = ground (arith, update-ne s.rule_count i, h)

recount_lists-lists : (n i : ℕ) (s : Acl) (j : ℕ) → (recount_lists n i s).lists j ≡ s.lists j
unfolding recount_lists
recount_lists-lists zero i s j = refl
recount_lists-lists (suc n) i s j =
    recount_lists-lists n (suc i) (acl_recount s i) j ∙ acl_recount-lists s i j

recount_lists-before :
    (n i : ℕ) (s : Acl) (j : ℕ) → j < i → (recount_lists n i s).rule_count j ≡ s.rule_count j
unfolding recount_lists
recount_lists-before zero i s j h = refl
recount_lists-before (suc n) i s j h =
    recount_lists-before n (suc i) (acl_recount s i) j (omega (arith, h))
    ∙ acl_recount-elsewhere s i j (λ e. omega (arith, h, e))

-- The loop sets the counter of each list right.
recount_lists-IsListOk :
    (n i : ℕ) (s : Acl) (j : ℕ)
    → i ≤ j
    → j < i + n
    → j < max_acl_lists
    → length (s.lists j) ≡ max_acl_entries
    → Compact is_valid (s.lists j)
    → IsListOk (recount_lists n i s) j
unfolding recount_lists
recount_lists-IsListOk zero i s j low high range size c = absurd (omega (arith, low, high))
recount_lists-IsListOk (suc n) i s j low high range size c =
    let next = acl_recount s i in
    let same_list = acl_recount-lists s i j in
    elim (Bool-cases (j == i)) [
      | inl e ↦
          let same : j ≡ i = (==_iff j i).0 e in
          let done : IsListOk next j = rw (sym same) (recount-IsListOk s j range size c) in
          IsListOk-of_same done (recount_lists-lists n (suc i) next j)
            (recount_lists-before n (suc i) next j (omega (arith, same)))
      | inr e ↦
          let ne : j ≢ i = (λ q. ground (arith, e, q)) in
          recount_lists-IsListOk n (suc i) next j (omega (arith, low, ne)) (omega (arith, high))
            range (ap length same_list ∙ size) (rw same_list c)
    ]

load_lists-saved :
    {F : Type 0} (nvs : Storage F) (s old : Acl) (f : F) (j : ℕ)
    → IsStorage nvs
    → nvs.open_err f ≡ esp_ok
    → IsWellFormed s
    → j < max_acl_lists
    → (load_lists nvs ((save_acl_rules nvs s f).1) max_acl_lists 0 (acl_init old)).lists j
      ≡ map load_entry (s.lists j)
unfolding acl_init
load_lists-saved nvs s old f j ok opened w h =
    load_lists-there nvs ((save_acl_rules nvs s f).1) max_acl_lists 0 (acl_init old) j (s.lists j)
      (omega arith) (omega (arith, h)) h (saved nvs s f j ok opened h) (sym (w j h).slots)

-- When the storage can be opened and no write to it fails, well-formed lists that `save_acl_rules`
-- has written are restored by `load_acl_rules`, whatever the tables hold before: it answers ESP_OK,
-- and each of the four lists is well formed, with an exact counter, and has the same rules in the
-- same order with their hit counters at 0.
pub load_acl_rules-save :
    {F : Type 0} (nvs : Storage F) (s old : Acl) (f : F) (n : ℕ)
    → IsStorage nvs
    → nvs.open_err f ≡ esp_ok
    → nvs.open_err ((save_acl_rules nvs s f).1) ≡ esp_ok
    → IsWellFormed s
    → n < max_acl_lists
    → let done = load_acl_rules nvs ((save_acl_rules nvs s f).1) old in
      (done.0 ≡ esp_ok) × IsListOk done.1 n × (rules done.1 n ≡ map reset_hits (rules s n))
unfolding load_acl_rules
load_acl_rules-save nvs s old f n ok opened again w h =
    let read = load_lists nvs ((save_acl_rules nvs s f).1) max_acl_lists 0 (acl_init old) in
    let same = load_lists-saved nvs s old f n ok opened w h in
    rw ((==_iff (nvs.open_err ((save_acl_rules nvs s f).1)) esp_ok).1 again) (
      refl,
      recount_lists-IsListOk max_acl_lists 0 read n (omega arith) (omega (arith, h)) h
          (ap length same ∙ length-map (s.lists n) load_entry ∙ (w n h).slots)
          (rw same (Compact-load_entry (s.lists n) (w n h).compact)),
      ap (keep is_valid) (recount_lists-lists max_acl_lists 0 read n ∙ same)
          ∙ keep-load_entry (s.lists n),
    )
