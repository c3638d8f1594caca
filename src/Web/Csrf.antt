-- ===== src/Web/Csrf.antt =====
-- The test of the origin of a request: `check_csrf` (components/http_server/http_server.c). What
-- `inet_ntoa` prints of an address is a parameter, `shown`.
pub mod Origins
use esp32_pppo_e_router.Base.{
  ℕ, ◌+◌, Bool, true, false, not, ◌&&◌, ◌||◌, Option, none, some, List, [], ◌∷◌, ◌++◌, length, take,
  ltb, ◌==◌, same_bytes, if◌then◌else◌,
}

abbrev pub Text : Type 0
Text = List ℕ

-- `httpd_req_get_hdr_value_str` with a buffer of `size` bytes: `none` is any result but ESP_OK, so
-- there is no such header, or its value does not fit
abbrev pub header_value : ℕ → Option Text → Option Text
header_value size none = none
header_value size (some value) = if ltb (length value) size then some value else none

abbrev pub origin_size : ℕ
origin_size = 64

-- the sizes of `expected_host` and `expected`, less the NUL
abbrev pub expected_host_room : ℕ
expected_host_room = 71

abbrev pub expected_room : ℕ
expected_room = 31

-- "http://"
abbrev pub http : Text
http = 104 ∷ 116 ∷ 116 ∷ 112 ∷ 58 ∷ 47 ∷ 47 ∷ []

-- the addresses of the access point, the uplink, the PPPoE connection and the tunnel
pub record Addresses : Type 0 where
  pub my_ap_ip : ℕ
  pub my_ip : ℕ
  pub pppoe_ip : ℕ
  pub vpn_tunnel_ip : ℕ

abbrev pub is_host : Option Text → Text → Bool
is_host none origin = false
is_host (some host) origin = same_bytes origin (take expected_host_room (http ++ host))

abbrev pub is_address : (ℕ → Text) → ℕ → Text → Bool
is_address shown addr origin = same_bytes origin (take expected_room (http ++ shown addr))

abbrev pub is_ours : (ℕ → Text) → Addresses → Text → Bool
is_ours shown a origin =
    is_address shown a.my_ap_ip origin
    || (not (a.my_ip == 0) && is_address shown a.my_ip origin)
    || (not (a.pppoe_ip == 0) && is_address shown a.pppoe_ip origin)
    || (not (a.vpn_tunnel_ip == 0) && is_address shown a.vpn_tunnel_ip origin)

abbrev pub origin_allowed : (ℕ → Text) → Addresses → Option Text → Option Text → Bool
origin_allowed shown a host none = true
origin_allowed shown a host (some origin) =
    if is_host (header_value origin_size host) origin then true else is_ours shown a origin

-- `origin` and `host`: the headers of the request
unfoldable pub check_csrf : (ℕ → Text) → Addresses → Option Text → Option Text → Bool
check_csrf shown a host origin = origin_allowed shown a host (header_value origin_size origin)
