-- ===== src/Dhcp/Reservations.antt =====
-- The table of reserved addresses (main/dhcp_manager.c, include/dhcp_reservations.h). The number
-- of slots is the length of the table. `saved` is what `set_config_param_blob` answers, and
-- `same_name` is `strcasecmp(a, b) == 0`.
pub mod Table
pub mod Access
use esp32_pppo_e_router.Base.{
  ℕ, ◌+◌, ◌-◌, Bool, true, false, not, ◌&&◌, ◌||◌, Option, none, some, List, [], ◌∷◌, map, get_or,
  set, replicate, length, take, find_index, ◌==◌, if◌then◌else◌, same_bytes,
}
use esp32_pppo_e_router.Base.Keyed.{first}

-- `struct dhcp_reservation_entry`; `name` is the text in front of its NUL
pub record Reservation : Type 0 where
  pub mac : List ℕ
  pub ip : ℕ  -- uint32; 0 blocks the client
  pub name : List ℕ
  pub valid : ℕ  -- uint8

abbrev pub no_reservation : Reservation
no_reservation = record { mac = []; ip = 0; name = []; valid = 0 }

-- the globals `dhcp_reservations` and `ap_known_only`
pub record Dhcp : Type 0 where
  pub reservations : List Reservation
  pub ap_known_only : ℕ

abbrev pub esp_ok : ℕ
esp_ok = 0

abbrev pub esp_err_no_mem : ℕ
esp_err_no_mem = 0x101

abbrev pub name_len : ℕ
name_len = 32

-- What NVS answers when the table is loaded: whether it could be opened, the size of the blob, and
-- its contents.
pub record Loaded : Type 0 where
  pub open_err : ℕ
  pub size_err : ℕ
  pub size_ok : Bool
  pub read_err : ℕ
  pub blob : List Reservation

abbrev pub nvs_invalid_length : ℕ
nvs_invalid_length = 0x110c

unfoldable pub get_dhcp_reservations : Dhcp → Loaded → Dhcp × ℕ
get_dhcp_reservations d nvs =
    if not (nvs.open_err == esp_ok)
    then (d, nvs.open_err)
    else if not (nvs.size_err == esp_ok)
    then (d, nvs.size_err)
    else if not nvs.size_ok
    then (d, nvs_invalid_length)
    else if not (nvs.read_err == esp_ok)
    then (
      record d { reservations = replicate (length d.reservations) no_reservation },
      nvs.read_err,
    )
    else (record d { reservations = nvs.blob }, esp_ok)

abbrev pub is_used : Reservation → Bool
is_used e = not (e.valid == 0)

-- the test of the loops: a valid entry of this MAC address
abbrev pub is_for : List ℕ → Reservation → Bool
is_for mac e = is_used e && same_bytes e.mac mac

-- `strncpy` and the NUL at the end, or no name
abbrev pub stored_name : Option (List ℕ) → List ℕ
stored_name none = []
stored_name (some name) = take (name_len - 1) name

abbrev pub updated : Reservation → ℕ → Option (List ℕ) → Reservation
updated e ip name = record e { ip = ip; name = stored_name name }

abbrev pub new_reservation : List ℕ → ℕ → Option (List ℕ) → Reservation
new_reservation mac ip name = record { mac = mac; ip = ip; name = stored_name name; valid = 1 }

abbrev pub put : Dhcp → ℕ → Reservation → Dhcp
put d i e = record d { reservations = set d.reservations i e }

-- the second loop of `add_dhcp_reservation`
abbrev pub add_new : Dhcp → List ℕ → ℕ → Option (List ℕ) → ℕ → Option ℕ → Dhcp × ℕ
add_new d mac ip name saved none = (d, esp_err_no_mem)
add_new d mac ip name saved (some i) = (put d i (new_reservation mac ip name), saved)

abbrev pub add_at : Dhcp → List ℕ → ℕ → Option (List ℕ) → ℕ → Option ℕ → Dhcp × ℕ
add_at d mac ip name saved (some i) =
    (put d i (updated (get_or d.reservations i no_reservation) ip name), saved)
add_at d mac ip name saved none =
    add_new d mac ip name saved (find_index (λ e. not (is_used e)) d.reservations)

unfoldable pub add_dhcp_reservation : Dhcp → List ℕ → ℕ → Option (List ℕ) → ℕ → Dhcp × ℕ
add_dhcp_reservation d mac ip name saved =
    add_at d mac ip name saved (find_index (is_for mac) d.reservations)

abbrev pub freed : Reservation → Reservation
freed e = record e { valid = 0 }

abbrev pub del_at : Dhcp → ℕ → Option ℕ → Dhcp × ℕ
del_at d saved none = (d, esp_ok)
del_at d saved (some i) = (put d i (freed (get_or d.reservations i no_reservation)), saved)

unfoldable pub del_dhcp_reservation : Dhcp → List ℕ → ℕ → Dhcp × ℕ
del_dhcp_reservation d mac saved = del_at d saved (find_index (is_for mac) d.reservations)

unfoldable pub clear_all_dhcp_reservations : Dhcp → ℕ → Dhcp × ℕ
clear_all_dhcp_reservations d saved = (record d { reservations = map freed d.reservations }, saved)

-- the entry that the searches for a MAC address stop at
abbrev pub reservation_of : Dhcp → List ℕ → Option Reservation
reservation_of d mac = first (is_for mac) d.reservations

abbrev pub ip_or : ℕ → Option Reservation → ℕ
ip_or other none = other
ip_or other (some e) = e.ip

unfoldable pub lookup_dhcp_reservation : Dhcp → List ℕ → ℕ
lookup_dhcp_reservation d mac = ip_or 0 (reservation_of d mac)

abbrev pub is_there : Option Reservation → Bool
is_there none = false
is_there (some _) = true

abbrev pub is_held_by_other : ℕ → List ℕ → Reservation → Bool
is_held_by_other ip mac e = is_used e && e.ip == ip && not (same_bytes e.mac mac)

unfoldable pub is_ip_reserved_for_other : Dhcp → ℕ → List ℕ → Bool
is_ip_reserved_for_other d ip mac =
    if ip == 0 then false else is_there (first (is_held_by_other ip mac) d.reservations)

abbrev pub blocked_by : ℕ → Option Reservation → Bool
blocked_by ap_known_only none = not (ap_known_only == 0)
blocked_by ap_known_only (some e) = e.ip == 0

unfoldable pub is_mac_blocked : Dhcp → List ℕ → Bool
is_mac_blocked d mac = blocked_by d.ap_known_only (reservation_of d mac)

abbrev pub is_named : Reservation → Bool
is_named e = not (same_bytes e.name [])

abbrev pub name_or_null : Option Reservation → Option (List ℕ)
name_or_null none = none
name_or_null (some e) = some e.name

unfoldable pub lookup_device_name_by_ip : Dhcp → ℕ → Option (List ℕ)
lookup_device_name_by_ip d ip =
    name_or_null (first (λ e. is_used e && e.ip == ip && is_named e) d.reservations)

unfoldable pub lookup_device_name_by_mac : Dhcp → List ℕ → Option (List ℕ)
lookup_device_name_by_mac d mac =
    name_or_null (first (λ e. is_for mac e && is_named e) d.reservations)

abbrev pub ip_found : Option Reservation → Option ℕ
ip_found none = none
ip_found (some e) = some e.ip

-- `none` is false; a NULL name is
unfoldable pub resolve_device_name_to_ip :
    (List ℕ → List ℕ → Bool) → Dhcp → Option (List ℕ) → Option ℕ
resolve_device_name_to_ip same_name d none = none
resolve_device_name_to_ip same_name d (some name) =
    ip_found (first (λ e. is_used e && is_named e && same_name e.name name) d.reservations)
