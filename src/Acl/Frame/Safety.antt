-- ===== src/Acl/Frame/Safety.antt =====
-- `acl_check_packet` reads no byte outside the frame.
use esp32_pppo_e_router.Base.{
  ℕ, ◌+◌, ◌*◌, ◌/◌, ◌%◌, ◌≤◌, ◌<◌, ◌≡◌, refl, arith, tests, ◌&&◌, ◌||◌, some, inl, inr, List, leb,
  ltb, ◌==◌, Bool-cases, length, get_elem?-lt,
}
use esp32_pppo_e_router.Base.Bytes.{be16-lt}
use esp32_pppo_e_router.Acl.Frame.{
  addr32, Layout, pass, ip_at, Parsed, ethernet_layout, layout, ports, ip_parse, parse_layout,
  ethertype_layout, parse_frame, unfiltered, headers,
}

addr32-lt : (p : List ℕ) (i : ℕ) → i + 3 < length p → (x : ℕ) × (addr32 p i ≡ some x)
unfolding addr32
addr32-lt p i h =
    let (a, ea) = get_elem?-lt p i (omega arith) in
    let (b, eb) = get_elem?-lt p (i + 1) (omega arith) in
    let (c, ec) = get_elem?-lt p (i + 2) (omega arith) in
    let (d, ed) = get_elem?-lt p (i + 3) h in
    (a + 256 * b + 65536 * c + 16777216 * d, rw (ea, eb, ec, ed))

ports-some : (p : List ℕ) (proto at : ℕ) → (x : ℕ × ℕ) × (ports p proto at ≡ some x)
unfolding ports
ports-some p proto at = elim (Bool-cases (leb (at + 8) (length p))) [
  | inl room ↦
      let (s, es) = be16-lt p at (omega (tests, room)) in
      let (d, ed) = be16-lt p (at + 2) (omega (tests, room)) in
      elim (Bool-cases
        ((proto == 6 && leb (at + 20) (length p)) || (proto == 17 && leb (at + 8) (length p)))) [
          | inl e ↦ ((s, d), rw (e, es, ed))
          | inr e ↦ ((0, 0), rw e)
        ]
  | inr short ↦ ((0, 0), ground (arith, short))
]

ip_parse-some : (p : List ℕ) (offset : ℕ) → (r : Parsed) × (ip_parse p offset ≡ some r)
unfolding ip_parse
ip_parse-some p offset = elim (Bool-cases (ltb (length p) (offset + 20))) [
  | inl short ↦ (unfiltered, rw short)
  | inr room ↦
      let fits : offset + 20 ≤ length p = ground (arith, room) in
      let (v, ev) = get_elem?-lt p offset (omega arith) in
      let (s, es) = addr32-lt p (offset + 12) (omega arith) in
      let (d, ed) = addr32-lt p (offset + 16) (omega arith) in
      let (k, ek) = get_elem?-lt p (offset + 9) (omega arith) in
      let (both, eb) = ports-some p k (offset + v % 16 * 4) in
      elim (Bool-cases (v / 16 == 4)) [
        | inl e ↦ (
          headers
              (record { src_ip = s; dest_ip = d; proto = k; src_port = both.0; dst_port = both.1 }),
          rw (room, ev, e, es, ed, ek, eb),
        )
        | inr e ↦ (unfiltered, rw (room, ev, e))
      ]
]

ethernet_layout-some : (p : List ℕ) → (r : Layout) × (ethernet_layout p ≡ some r)
unfolding ethernet_layout
ethernet_layout-some p = elim (Bool-cases (leb 14 (length p))) [
  | inl room ↦
      let (e, ee) = be16-lt p 12 (ground (arith, room)) in (ethertype_layout e, rw (room, ee))
  | inr short ↦ (ip_at 0, rw short)
]

layout-some : (p : List ℕ) → (r : Layout) × (layout p ≡ some r)
unfolding layout
layout-some p =
    let (r, er) = ethernet_layout-some p in
    elim (Bool-cases (leb 1 (length p))) [
      | inl room ↦
          let (b, eb) = get_elem?-lt p 0 (ground (arith, room)) in
          elim (Bool-cases (b / 16 == 4)) [
            | inl four ↦ elim (Bool-cases (leb 5 (b % 16) && leb (b % 16) 15)) [
              | inl e ↦ (ip_at 0, rw (room, eb, four, e))
              | inr e ↦ (r, rw (room, eb, four, e) er)
            ]
            | inr other ↦ elim (Bool-cases (b / 16 == 6)) [
              | inl six ↦ (pass, rw (room, eb, other, six))
              | inr e ↦ (r, rw (room, eb, other, e) er)
            ]
          ]
      | inr short ↦ (r, rw short er)
    ]

-- Whatever bytes a frame holds, and however few, `acl_check_packet` reads its headers without a
-- read out of bounds.
pub parse_frame-some : (p : List ℕ) → (r : Parsed) × (parse_frame p ≡ some r)
unfolding parse_frame parse_layout
parse_frame-some p =
    let (l, el) = layout-some p in let (r, er) = parse_layout-some l in (r, rw el er)
  where
    parse_layout-some : (l : Layout) → (r : Parsed) × (parse_layout p l ≡ some r)
    parse_layout-some pass = (unfiltered, refl)
    parse_layout-some (ip_at offset) = ip_parse-some p offset
