-- ===== src/Portmap/Examples.antt =====
-- The theorems on portmap.c at a table with one mapping.
use esp32_pppo_e_router.Base.{◌≡◌, ◌⊎◌, true, not, [], ◌∷◌}
use esp32_pppo_e_router.Base.{Every}
use esp32_pppo_e_router.Portmap.{
  Portmap, zero_mapping, new_mapping, add_portmap, del_portmap, is_mapping, portmap_ok,
}
use esp32_pppo_e_router.Portmap.Calls.{
  Full, Mapped, Unmapped, add_portmap-Mapped, del_portmap-Unmapped,
}

-- TCP port 8080 to port 80 of client 5, on a PPPoE uplink
abbrev one_mapping : Portmap
one_mapping = record {
  portmap_tab = new_mapping 6 8080 5 80 ∷ zero_mapping ∷ [];
  pppoe_enabled = true;
  pppoe_ip = 77;
  my_ip = 0;
}

add_portmap-Mapped_example :
    let r = add_portmap one_mapping 17 53 5 53 0 in
    Full one_mapping r ⊎ Mapped one_mapping 17 53 5 53 0 r
add_portmap-Mapped_example = add_portmap-Mapped one_mapping 17 53 5 53 0

del_portmap-Unmapped_example :
    let r = del_portmap one_mapping 6 8080 0 in
    ((r ≡ record { state = one_mapping; calls = []; err = portmap_ok })
      × Every (λ e. not (is_mapping 6 8080 e)) one_mapping.portmap_tab)
    ⊎ Unmapped one_mapping 6 8080 0 r
del_portmap-Unmapped_example = del_portmap-Unmapped one_mapping 6 8080 0
