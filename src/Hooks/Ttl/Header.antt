-- ===== src/Hooks/Ttl/Header.antt =====
-- What the TTL override of netif_hooks.c does to a packet: it stays in the packet's bytes, and
-- keeps the one's complement sum of the IP header.
use esp32_pppo_e_router.Base.{
  ℕ, ◌+◌, ◌*◌, ◌/◌, ◌%◌, ◌≤◌, ◌<◌, ◌≡◌, refl, arith, ◌&&◌, some, inl, inr, List, ◌∷◌, ◌++◌, length,
  get_elem?-lt, leb, ltb, ◌==◌, Bool-cases,
}
use esp32_pppo_e_router.Base.Buffers.{overwrite-append, overwrite-some, get_elem?-append_add, le16}
use esp32_pppo_e_router.Hooks.Ttl.{
  update_chksum, update_chksum-sum, set_ttl, override_ethernet, override_raw,
}

set_ttl-some :
    (payload : List ℕ) (at ttl : ℕ)
    → at + 12 ≤ length payload
    → (out : List ℕ) × (set_ttl payload at ttl ≡ some out) × (length out ≡ length payload)
unfolding set_ttl
set_ttl-some payload at ttl h =
    let (t, a) = get_elem?-lt payload (at + 8) (omega (arith, h)) in
    let (p, b) = get_elem?-lt payload (at + 9) (omega (arith, h)) in
    let (lo, c) = get_elem?-lt payload (at + 10) (omega (arith, h)) in
    let (hi, d) = get_elem?-lt payload (at + 11) (omega (arith, h)) in
    let src = ttl ∷ p ∷ le16 (update_chksum (lo + 256 * hi) (t + 256 * p) (ttl + 256 * p)) in
    let (out, e, l) = overwrite-some payload (at + 8) src (omega (arith, h)) in
    (out, rw (a, b, c, d) e, l)

-- For every packet and TTL, both overrides read and write only bytes of the packet and keep its
-- length.
pub override_ethernet-length :
    (payload : List ℕ) (ttl : ℕ)
    → ((out : List ℕ) × (override_ethernet payload ttl ≡ some out) × (length out ≡ length payload))
      × ((out : List ℕ) × (override_raw payload ttl ≡ some out) × (length out ≡ length payload))
unfolding override_ethernet override_raw
override_ethernet-length payload ttl = (ethernet, raw)
  where
    ethernet :
        (out : List ℕ) × (override_ethernet payload ttl ≡ some out) × (length out ≡ length payload)
    ethernet = elim (Bool-cases (ltb 0 ttl && leb 34 (length payload))) [
      | inr off ↦ (payload, rw off refl, refl)
      | inl on ↦
          let long : 34 ≤ length payload = ground (arith, on) in
          let (a, ea) = get_elem?-lt payload 12 (omega (arith, long)) in
          let (b, eb) = get_elem?-lt payload 13 (omega (arith, long)) in
          let (c, ec) = get_elem?-lt payload 14 (omega (arith, long)) in
          elim (Bool-cases (a == 8 && b == 0 && c / 16 == 4)) [
            | inr other ↦ (payload, rw (on, ea, eb, ec, other) refl, refl)
            | inl ip ↦
                let (out, e, l) = set_ttl-some payload 14 ttl (omega (arith, long)) in
                (out, rw (on, ea, eb, ec, ip) e, l)
          ]
    ]

    raw : (out : List ℕ) × (override_raw payload ttl ≡ some out) × (length out ≡ length payload)
    raw = elim (Bool-cases (ltb 0 ttl && leb 20 (length payload))) [
      | inr off ↦ (payload, rw off refl, refl)
      | inl on ↦
          let long : 20 ≤ length payload = ground (arith, on) in
          let (c, ec) = get_elem?-lt payload 0 (omega (arith, long)) in
          elim (Bool-cases (c / 16 == 4)) [
            | inr other ↦ (payload, rw (on, ec, other) refl, refl)
            | inl ip ↦
                let (out, e, l) = set_ttl-some payload 0 ttl (omega (arith, long)) in
                (out, rw (on, ec, ip) e, l)
          ]
    ]

-- the bytes of a header from the TTL on: the rewritten ones keep the sum of the two words
pub record Rewritten (ttl t p lo hi lo' hi' : ℕ) : Type 0 where
  pub low : lo' < 256
  pub high : hi' < 256
  pub sum : (lo' + 256 * hi' + (ttl + 256 * p)) % 65535 ≡ (lo + 256 * hi + (t + 256 * p)) % 65535

-- Where the header has the old TTL, the protocol and the two bytes of the checksum in a row, `set_ttl`
-- puts the new TTL and a checksum of two bytes there, changes no other byte, and keeps the sum of the
-- two words modulo 65535, so that a header checksum that was right stays right.
pub set_ttl-Rewritten :
    (front back : List ℕ) (at ttl t p lo hi : ℕ)
    → length front ≡ at + 8
    → ttl < 256
    → t < 256
    → p < 256
    → lo < 256
    → hi < 256
    → (lo' : ℕ) × (hi' : ℕ) × (set_ttl (front ++ (t ∷ p ∷ lo ∷ hi ∷ back)) at ttl
        ≡ some (front ++ (ttl ∷ p ∷ lo' ∷ hi' ∷ back)))
      × Rewritten ttl t p lo hi lo' hi'
unfolding set_ttl
set_ttl-Rewritten front back at ttl t p lo hi f bt b0 b1 b2 b3 =
    let rest = t ∷ p ∷ lo ∷ hi ∷ back in
    let new = update_chksum (lo + 256 * hi) (t + 256 * p) (ttl + 256 * p) in
    let kept =
      update_chksum-sum (lo + 256 * hi) (t + 256 * p) (ttl + 256 * p) (omega arith) (omega arith)
        (omega arith) in
    let a0 : at + 8 ≡ length front + 0 = omega (arith, f) in
    let a1 : at + 9 ≡ length front + 1 = omega (arith, f) in
    let a2 : at + 10 ≡ length front + 2 = omega (arith, f) in
    let a3 : at + 11 ≡ length front + 3 = omega (arith, f) in
    let none_more : length front + 0 ≡ length front = omega arith in
    (
      new % 256,
      new / 256 % 256,
      rw
          (
            a0,
            a1,
            a2,
            a3,
            get_elem?-append_add 0 front rest,
            get_elem?-append_add 1 front rest,
            get_elem?-append_add 2 front rest,
            get_elem?-append_add 3 front rest,
            none_more,
          )
          (overwrite-append front rest (ttl ∷ p ∷ le16 new) (omega arith)),
      record { low = omega arith; high = omega arith; sum = omega (arith, kept.0, kept.1) },
    )
