-- ===== src/Dhcp/Pool.antt =====
-- `get_dhcp_pool_range` of main/dhcp_manager.c, with the addresses in host byte order: the
-- function converts its argument on the way in and its results on the way out.
use esp32_pppo_e_router.Base.{ℕ, ◌+◌, ◌-◌, ◌%◌, ◌<◌, ◌≡◌, ◌⊎◌, arith, ltb, if◌then◌else◌}

abbrev pub dhcps_max_lease : ℕ
dhcps_max_lease = 0x64

-- the side of the server that has more addresses
unfoldable pub pool_side : ℕ → ℕ × ℕ
pool_side server_ip =
    let range_start_ip = server_ip - server_ip % 256 in
    let range_end_ip = range_start_ip + 255 in
    if ltb (range_end_ip - server_ip) (server_ip - range_start_ip)
    then (range_start_ip + 1, server_ip - 1)
    else (server_ip + 1, range_end_ip - 1)

unfoldable pub get_dhcp_pool_range : ℕ → ℕ × ℕ
unfolding pool_side
get_dhcp_pool_range server_ip =
    let (range_start_ip, range_end_ip) = pool_side server_ip in
    if ltb dhcps_max_lease (range_end_ip - range_start_ip + 1)
    then (range_start_ip, range_start_ip + dhcps_max_lease - 1)
    else (range_start_ip, range_end_ip)

-- The pool has exactly 100 addresses; they lie in the server's subnet of 256 addresses, without
-- its first and last one, and the server is not among them.
pub record IsPool (server_ip start_ip end_ip : ℕ) : Type 0 where
  pub size : end_ip ≡ start_ip + 99
  pub above : server_ip - server_ip % 256 < start_ip
  pub below : end_ip < server_ip - server_ip % 256 + 255
  pub not_server : (end_ip < server_ip) ⊎ (server_ip < start_ip)

-- For every address of the router, the pool that is shown has exactly 100 addresses in its subnet
-- of 256, and has neither the subnet's first or last address nor the router's own.
pub get_dhcp_pool_range-IsPool :
    (server_ip : ℕ)
    → let (start_ip, end_ip) = get_dhcp_pool_range server_ip in IsPool server_ip start_ip end_ip
unfolding get_dhcp_pool_range
get_dhcp_pool_range-IsPool server_ip = record {
  size = ground arith;
  above = ground arith;
  below = ground arith;
  not_server = ground arith;
}
