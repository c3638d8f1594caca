-- ===== src/Acl/Storage.antt =====
-- components/acl/acl_nvs.c: the four lists in flash storage. What NVS does is a parameter, a record
-- of its calls on a state of the storage; the handle and the key of list `i`, "acl_i", are the
-- number `i`. The snapshot under the lock is the state that is saved, as `acl_get_rules` is not NULL
-- for the four numbers. Log lines are left out.
mod Restored
mod Examples
use esp32_pppo_e_router.Base.{
  ℕ, zero, suc, ◌==◌, not, Option, none, some, List, ◌++◌, map, length, drop, if◌then◌else◌,
}
use esp32_pppo_e_router.Dhcp.Reservations.{esp_ok}
use esp32_pppo_e_router.Acl.{
  Acl, AclEntry, max_acl_lists, is_valid, reset_hits, update, acl_init, acl_recount, acl_get_rules,
}

-- `nvs_open`, `nvs_set_blob`, `nvs_commit` and `nvs_get_blob`: the first component of an answer is
-- the error, the second the storage afterwards or the entries of the blob.
pub record Storage (F : Type 0) : Type 0 where
  pub open_err : F → ℕ
  pub set_blob : F → ℕ → List AclEntry → ℕ × F
  pub commit : F → ℕ × F
  pub get_blob : F → ℕ → ℕ × List AclEntry

-- the loop that writes the lists from number `i` on, with `n` rounds left; a list that cannot be
-- written is only logged
unfoldable pub save_lists : {F : Type 0} → Storage F → Acl → ℕ → ℕ → F → F
save_lists nvs s zero i f = f
save_lists nvs s (suc n) i f = save_lists nvs s n (suc i) (nvs.set_blob f i (s.lists i)).1

unfoldable pub save_acl_rules : {F : Type 0} → Storage F → Acl → F → ℕ × F
save_acl_rules nvs s f =
    if not (nvs.open_err f == esp_ok)
    then (nvs.open_err f, f)
    else nvs.commit (save_lists nvs s max_acl_lists 0 f)

-- a loaded rule starts without hits
abbrev pub load_entry : AclEntry → AclEntry
load_entry e = if is_valid e then reset_hits e else e

-- a blob that is shorter than the list leaves the slots behind it
abbrev pub loaded : Acl → ℕ → Option (List AclEntry) → ℕ × List AclEntry → Acl
loaded s i none answer = s
loaded s i (some es) (err, blob) =
    if err == esp_ok
    then record s { lists = update s.lists i (map load_entry (blob ++ drop (length blob) es)) }
    else s

unfoldable pub load_lists : {F : Type 0} → Storage F → F → ℕ → ℕ → Acl → Acl
load_lists nvs f zero i s = s
load_lists nvs f (suc n) i s =
    load_lists nvs f n (suc i) (loaded s i (acl_get_rules s i) (nvs.get_blob f i))

unfoldable pub recount_lists : ℕ → ℕ → Acl → Acl
recount_lists zero i s = s
recount_lists (suc n) i s = recount_lists n (suc i) (acl_recount s i)

unfoldable pub load_acl_rules : {F : Type 0} → Storage F → F → Acl → ℕ × Acl
load_acl_rules nvs f s =
    if not (nvs.open_err f == esp_ok)
    then (nvs.open_err f, acl_init s)
    else (esp_ok, recount_lists max_acl_lists 0 (load_lists nvs f max_acl_lists 0 (acl_init s)))
