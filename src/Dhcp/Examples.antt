-- ===== src/Dhcp/Examples.antt =====
-- The theorems on dhcp_manager.c at a table of two slots.
use esp32_pppo_e_router.Base.{ℕ, ◌≡◌, refl, arith, none, List, [], ◌∷◌, find_index, count}
use esp32_pppo_e_router.Base.Keyed.{first}
use esp32_pppo_e_router.Dhcp.Reservations.{
  Dhcp, no_reservation, add_dhcp_reservation, del_dhcp_reservation, lookup_dhcp_reservation,
}
use esp32_pppo_e_router.Dhcp.Reservations.Table.{
  IsUnique, Added, Gone, add_dhcp_reservation-Added, del_dhcp_reservation-Gone,
}
use esp32_pppo_e_router.Dhcp.Reservations.Access.{reserve, release, serve_all, serve_all-IsUnique}
use esp32_pppo_e_router.Dhcp.Clients.{Lease}

abbrev laptop : List ℕ
laptop = 2 ∷ 0 ∷ 0 ∷ 0 ∷ 0 ∷ 1 ∷ []

abbrev phone : List ℕ
phone = 2 ∷ 0 ∷ 0 ∷ 0 ∷ 0 ∷ 2 ∷ []

abbrev empty_table : Dhcp
empty_table = record { reservations = no_reservation ∷ no_reservation ∷ []; ap_known_only = 0 }

empty_table-IsUnique : IsUnique empty_table
unfolding count
empty_table-IsUnique mac = omega arith

add_dhcp_reservation-Added_example :
    Added empty_table laptop 9 none 0 (add_dhcp_reservation empty_table laptop 9 none 0)
add_dhcp_reservation-Added_example =
    add_dhcp_reservation-Added empty_table laptop 9 none 0 empty_table-IsUnique

-- the laptop has address 9, the phone is blocked
abbrev table : Dhcp
table = serve_all empty_table (reserve laptop 9 none 0 ∷ reserve phone 0 none 0 ∷ [])

table-IsUnique : IsUnique table
table-IsUnique =
    serve_all-IsUnique empty_table (reserve laptop 9 none 0 ∷ reserve phone 0 none 0 ∷ [])
      empty_table-IsUnique

del_dhcp_reservation-Gone_example : Gone table laptop (del_dhcp_reservation table laptop 0).0
del_dhcp_reservation-Gone_example = del_dhcp_reservation-Gone table laptop 0 table-IsUnique

serve_all-IsUnique_example :
    IsUnique (serve_all table (release laptop 0 ∷ reserve phone 7 none 0 ∷ []))
serve_all-IsUnique_example =
    serve_all-IsUnique table (release laptop 0 ∷ reserve phone 7 none 0 ∷ []) table-IsUnique

laptop_has : lookup_dhcp_reservation table laptop ≡ 9
unfolding lookup_dhcp_reservation add_dhcp_reservation find_index first
laptop_has = refl

abbrev laptop_lease : Lease
laptop_lease = record { mac = laptop; ip = 9; hostname = 104 ∷ [] }
