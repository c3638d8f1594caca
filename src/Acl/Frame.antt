-- ===== src/Acl/Frame.antt =====
-- The header part of `acl_check_packet` (components/acl/acl.c): from the bytes of a frame to the
-- fields that rules look at. A read of a byte that is not there is `none`, so a result shows that
-- every read was in bounds. The offsets are those of the Ethernet, IPv4, TCP and UDP headers.
pub mod Safety
use esp32_pppo_e_router.Base.{
  ℕ, ◌+◌, ◌*◌, ◌/◌, ◌%◌, Bool, not, ◌&&◌, ◌||◌, Option, none, some, List, leb, ltb, ◌==◌,
  if◌then◌else◌, length,
}
use esp32_pppo_e_router.Base.Bytes.{◌>>=◌, byte, be16}

-- `struct pbuf`: the bytes of its first segment, and the length of the whole chain.
pub record Pbuf : Type 0 where
  pub payload : List ℕ
  pub tot_len : ℕ

-- an address, loaded as the little-endian word that `ip4_addr_t` holds
unfoldable pub addr32 : List ℕ → ℕ → Option ℕ
addr32 p i = do
  a ← byte p i
  b ← byte p (i + 1)
  c ← byte p (i + 2)
  d ← byte p (i + 3)
  some (a + 256 * b + 65536 * c + 16777216 * d)

-- what rules are matched against
pub record Headers : Type 0 where
  pub src_ip : ℕ
  pub dest_ip : ℕ
  pub proto : ℕ
  pub src_port : ℕ
  pub dst_port : ℕ

-- where the IP header starts; `pass` returns ACL_NO_MATCH at once
pub data Layout : Type 0 where
  pass : Layout
  ip_at : ℕ → Layout

pub data Parsed : Type 0 where
  unfiltered : Parsed
  headers : Headers → Parsed

abbrev pub eth_header_len : ℕ
eth_header_len = 14

abbrev pub ip_hdr_size : ℕ
ip_hdr_size = 20

abbrev pub tcp_hdr_size : ℕ
tcp_hdr_size = 20

abbrev pub udp_hdr_size : ℕ
udp_hdr_size = 8

-- Known types and 802.3 lengths show an Ethernet frame; only IPv4 is filtered.
unfoldable pub ethertype_layout : ℕ → Layout
ethertype_layout ethertype =
    if ethertype == 0x0800 || ethertype == 0x0806 || ethertype == 0x86DD || ltb ethertype 0x0600
    then (if not (ethertype == 0x0800) then pass else ip_at eth_header_len)
    else ip_at 0

unfoldable pub ethernet_layout : List ℕ → Option Layout
ethernet_layout p =
    if leb eth_header_len (length p)
    then (do ethertype ← be16 p 12; some (ethertype_layout ethertype))
    else some (ip_at 0)

-- Raw IP, as PPP delivers it, is told from an Ethernet frame by the first nibble.
unfoldable pub layout : List ℕ → Option Layout
layout p =
    if leb 1 (length p)
    then (do
      first ← byte p 0
      let ihl = first % 16
      if first / 16 == 4
          then (if leb 5 ihl && leb ihl 15 then some (ip_at 0) else ethernet_layout p)
          else if first / 16 == 6
          then some pass
          else ethernet_layout p)
    else ethernet_layout p

-- the ports of a TCP or UDP header that is there in full, and 0 otherwise
unfoldable pub ports : List ℕ → ℕ → ℕ → Option (ℕ × ℕ)
ports p proto at =
    if (proto == 6 && leb (at + tcp_hdr_size) (length p))
      || (proto == 17 && leb (at + udp_hdr_size) (length p))
    then (do src_port ← be16 p at; dst_port ← be16 p (at + 2); some (src_port, dst_port))
    else some (0, 0)

unfoldable pub ip_parse : List ℕ → ℕ → Option Parsed
ip_parse p offset = if ltb (length p) (offset + ip_hdr_size) then some unfiltered else (do
  v_hl ← byte p offset
  if not (v_hl / 16 == 4) then some unfiltered else (do
    src_ip ← addr32 p (offset + 12)
    dest_ip ← addr32 p (offset + 16)
    proto ← byte p (offset + 9)
    both ← ports p proto (offset + v_hl % 16 * 4)
    some (
        headers (record {
          src_ip = src_ip;
          dest_ip = dest_ip;
          proto = proto;
          src_port = both.0;
          dst_port = both.1;
        }))))

unfoldable pub parse_layout : List ℕ → Layout → Option Parsed
parse_layout p pass = some unfiltered
parse_layout p (ip_at offset) = ip_parse p offset

unfoldable pub parse_frame : List ℕ → Option Parsed
parse_frame p = layout p >>= parse_layout p
