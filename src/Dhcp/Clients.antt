-- ===== src/Dhcp/Clients.antt =====
-- `get_connected_clients` of main/dhcp_manager.c: the stations of the access point with their
-- leases and names. The station list is what `esp_wifi_ap_get_sta_list` gave, `none` if it failed,
-- and the leases are what `dhcps_get_active_leases` filled in, at most 8.
use esp32_pppo_e_router.Base.{
  ℕ, ◌≡◌, refl, arith, Bool, true, false, Option, none, some, inl, inr, List, [], ◌∷◌, map, take,
  if◌then◌else◌, Option-cases, same_bytes, ◌-◌,
}
use esp32_pppo_e_router.Base.Keyed.{first}
use esp32_pppo_e_router.Dhcp.Reservations.{Reservation, Dhcp, is_named, name_len, reservation_of}

-- `dhcp_lease_info_t`
pub record Lease : Type 0 where
  pub mac : List ℕ
  pub ip : ℕ
  pub hostname : List ℕ

-- `connected_client_t`
pub record Client : Type 0 where
  pub mac : List ℕ
  pub ip : ℕ
  pub has_ip : Bool
  pub name : List ℕ

abbrev pub max_dhcp_leases : ℕ
max_dhcp_leases = 8

abbrev pub no_lease : List ℕ → Client
no_lease mac = record { mac = mac; ip = 0; has_ip = false; name = [] }

abbrev pub with_lease : List ℕ → Option Lease → Client
with_lease mac none = no_lease mac
with_lease mac (some l) = record {
  mac = mac;
  ip = l.ip;
  has_ip = true;
  name = if same_bytes l.hostname [] then [] else take (name_len - 1) l.hostname;
}

abbrev pub with_name : Client → Option Reservation → Client
with_name c none = c
with_name c (some e) = if is_named e then record c { name = take (name_len - 1) e.name } else c

-- the loop's body for one station
unfoldable pub client_of : Dhcp → List Lease → List ℕ → Client
client_of d leases mac =
    with_name (with_lease mac (first (λ l. same_bytes l.mac mac) leases)) (reservation_of d mac)

unfoldable pub get_connected_clients : Dhcp → List Lease → Option (List (List ℕ)) → ℕ → List Client
unfolding client_of
get_connected_clients d leases none max_clients = []
get_connected_clients d leases (some stations) max_clients =
    map (client_of d leases) (take max_clients stations)

client_of-mac : (d : Dhcp) (leases : List Lease) (mac : List ℕ) → (client_of d leases mac).mac ≡ mac
unfolding client_of
client_of-mac d leases mac = elim (Option-cases (reservation_of d mac)) [
  | inl e ↦ rw e (leased (first (λ l. same_bytes l.mac mac) leases))
  | inr (r, e) ↦ rw e (named r (first (λ l. same_bytes l.mac mac) leases))
]
  where
    leased : (o : Option Lease) → (with_lease mac o).mac ≡ mac
    leased none = refl
    leased (some l) = refl

    named : (r : Reservation) (o : Option Lease) → (with_name (with_lease mac o) (some r)).mac ≡ mac
    named r none = ground arith
    named r (some l) = ground arith

macs_of :
    (d : Dhcp) (leases : List Lease) (macs : List (List ℕ))
    → map (λ (c : Client). c.mac) (map (client_of d leases) macs) ≡ macs
macs_of d leases [] = refl
macs_of d leases (m ∷ ms) = rw (client_of-mac d leases m, macs_of d leases ms) refl

-- The clients that are listed are the stations of the access point, in their order, up to the size
-- of the caller's array.
pub get_connected_clients-macs :
    (d : Dhcp) (leases : List Lease) (stations : List (List ℕ)) (max_clients : ℕ)
    → map (λ (c : Client). c.mac) (get_connected_clients d leases (some stations) max_clients)
      ≡ take max_clients stations
unfolding get_connected_clients
get_connected_clients-macs d leases stations max_clients =
    macs_of d leases (take max_clients stations)
