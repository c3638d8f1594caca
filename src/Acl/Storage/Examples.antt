-- ===== src/Acl/Storage/Examples.antt =====
-- The theorem on acl_nvs.c at a storage that keeps every blob, and tests of its functions.
use esp32_pppo_e_router.Base.{ℕ, ◌≡◌, refl, arith, List, [], map}
use esp32_pppo_e_router.Dhcp.Reservations.{esp_ok}
use esp32_pppo_e_router.Acl.{Acl, AclEntry, zero_stats, reset_hits, update, acl_init}
use esp32_pppo_e_router.Acl.Table.{IsListOk, rules, acl_init-IsListOk, update_self, update-ne}
use esp32_pppo_e_router.Acl.Requests.{add, perform, IsWellFormed, perform-IsWellFormed}
use esp32_pppo_e_router.Acl.Storage.{Storage, save_acl_rules, load_acl_rules}
use esp32_pppo_e_router.Acl.Storage.Restored.{IsStorage, load_acl_rules-save}

-- the blobs by their number
abbrev Blobs : Type 0
Blobs = ℕ → List AclEntry

abbrev nvs : Storage Blobs
nvs = record {
  open_err = λ f. 0;
  set_blob = λ f k es. (0, update f k es);
  commit = λ f. (0, f);
  get_blob = λ f k. (0, f k);
}

blob_answer : {es fs : List AclEntry} → es ≡ fs → ◌≡◌ {A = ℕ × List AclEntry} (0, es) (0, fs)
blob_answer h = rw h refl

nvs-IsStorage : IsStorage nvs
nvs-IsStorage = record {
  written = λ f k es. blob_answer (update_self f k es);
  others = λ f k es j h. blob_answer (update-ne f k es j h);
  committed = λ f j. refl;
}

-- the tables before anything is loaded
abbrev blank : Acl
blank = record {
  lists = λ _. [];
  stats = λ _. zero_stats;
  rule_count = λ _. 7;
  last_deny_log_time = λ _. 0;
}

-- "deny tcp any any eq 80" in list 0
abbrev one_rule : Acl
one_rule = perform (acl_init blank) (add 0 0 0 0 0 6 0 80 0)

one_rule-IsWellFormed : IsWellFormed one_rule
one_rule-IsWellFormed =
    perform-IsWellFormed (acl_init blank) (add 0 0 0 0 0 6 0 80 0)
      (λ n _. acl_init-IsListOk blank n)

load_acl_rules-save_example :
    let done = load_acl_rules nvs ((save_acl_rules nvs one_rule (λ _. [])).1) blank in
    (done.0 ≡ esp_ok) × IsListOk done.1 0 × (rules done.1 0 ≡ map reset_hits (rules one_rule 0))
load_acl_rules-save_example =
    load_acl_rules-save nvs one_rule blank (λ _. []) 0 nvs-IsStorage refl opened
      one_rule-IsWellFormed (omega arith)
  where
    opened : nvs.open_err ((save_acl_rules nvs one_rule (λ _. [])).1) ≡ esp_ok
    opened = refl
