-- ===== src/Pcap/Capture/Record.antt =====
-- The record that `pcap_capture_packet` (pcap_capture.c) writes to the ring, and the bounds of the
-- stack area in which it is put together.
use esp32_pppo_e_router.Base.{
  ℕ, ◌+◌, ◌-◌, ◌≤◌, ◌≡◌, refl, sym, ap, ◌∙◌, arith, Bool, true, false, Option, some, inl, inr, List,
  [], ◌∷◌, ◌++◌, append-nil, append_assoc, length, take, drop, length-append, length-take,
  length-drop, ltb, if◌then◌else◌, Bool-cases, u32,
}
use esp32_pppo_e_router.Base.Bytes.{◌>>=◌}
use esp32_pppo_e_router.Base.Buffers.{
  flat, overwrite, overwrite-append, overwrite-some, take-append_self, take-append_le,
  take-append_add, take-all,
}
use esp32_pppo_e_router.Pcap.Ringbuf.{ringbuf_write}
use esp32_pppo_e_router.Pcap.Ringbuf.Steps.{IsLive, Written, ringbuf_write-Written}
use esp32_pppo_e_router.Pcap.Capture.{
  Capture, Chain, pcap_snaplen_max, pkt_hdr_size, incl_len_of, packet_header, copy_chain,
  packet_record, pcap_capture_packet, count_captured,
}

-- what `copy_chain` leaves: the bytes that were wanted, behind those that were there
abbrev Copied : List ℕ → ℕ → List (List ℕ) → Option (List ℕ) → Type 0
Copied done wanted qs out = (rest : List ℕ) × (out ≡ some ((done ++ take wanted (flat qs)) ++ rest))

nothing-Copied :
    (done rest : List ℕ) (wanted : ℕ) (qs : List (List ℕ))
    → wanted ≡ 0
    → Copied done wanted qs (some (done ++ rest))
nothing-Copied done rest wanted qs e = (rest, rw (e, append-nil done) refl)

-- one segment, then the rest
segment-Copied :
    (done rest q src : List ℕ) (wanted left : ℕ) (qs : List (List ℕ)) (out : Option (List ℕ))
    → take wanted (q ++ flat qs) ≡ src ++ take left (flat qs)
    → Copied (done ++ src) left qs out
    → Copied done wanted (q ∷ qs) out
segment-Copied done rest q src wanted left qs out e (rest', c) =
    (rest', rw e (c ∙ ap (λ d. some (d ++ rest')) (append_assoc done src (take left (flat qs)))))

-- one round of the loop
next_segment :
    (qs : List (List ℕ)) (copied n incl_len : ℕ) (done rest src : List ℕ)
    → length done ≡ pkt_hdr_size + copied
    → length src ≡ n
    → n ≤ length rest
    → (overwrite (done ++ rest) (pkt_hdr_size + copied) src
        >>= (λ b. copy_chain qs (copied + n) incl_len b))
      ≡ copy_chain qs (copied + n) incl_len ((done ++ src) ++ drop n rest)
next_segment qs copied n incl_len done rest src d l r =
    rw (sym d, overwrite-append done rest src (omega (arith, l, r)), l)
      (ap (copy_chain qs (copied + n) incl_len) (sym (append_assoc done src (drop n rest))))

copy_chain-Copied :
    (qs : List (List ℕ)) (copied incl_len : ℕ) (done rest : List ℕ)
    → length done ≡ pkt_hdr_size + copied
    → copied ≤ incl_len
    → incl_len - copied ≤ length (flat qs)
    → incl_len - copied ≤ length rest
    → Copied done (incl_len - copied) qs (copy_chain qs copied incl_len (done ++ rest))
unfolding copy_chain
copy_chain-Copied [] copied incl_len done rest d c w r =
    nothing-Copied done rest (incl_len - copied) [] (omega arith)
copy_chain-Copied (q ∷ qs) copied incl_len done rest d c w r =
    elim (Bool-cases (ltb copied incl_len)) [
      | inr stop ↦
          rw stop (nothing-Copied done rest (incl_len - copied) (q ∷ qs) (ground (arith, stop)))
      | inl go ↦ elim (Bool-cases (ltb incl_len (copied + length q))) [
        | inl last ↦
            let n = incl_len - copied in
            let short : n ≤ length q = ground (arith, last) in
            let len : length (take n q) ≡ n = omega (arith, length-take n q, short) in
            rw (go, last, next_segment qs copied n incl_len done rest (take n q) d len r)
              (segment-Copied done rest q (take n q) n (incl_len - (copied + n)) qs _
                (take-append_le n q (flat qs) short
                  ∙ sym (nothing_left (take n q) qs (incl_len - (copied + n)) (ground (arith, go))))
                (copy_chain-Copied qs (copied + n) incl_len (done ++ take n q) (drop n rest)
                  (omega (arith, length-append done (take n q), len, d)) (ground (arith, go))
                  (ground (arith, go)) (ground (arith, go))))
        | inr more ↦
            let n = length q in
            let whole : take n q ≡ q = take-all n q (omega arith) in
            let split : incl_len - copied ≡ n + (incl_len - (copied + n)) =
              ground (arith, more, go) in
            rw
              (
                go,
                more,
                whole,
                next_segment qs copied n incl_len done rest q d refl (omega (arith, r, split)),
              )
              (segment-Copied done rest q q (incl_len - copied) (incl_len - (copied + n)) qs _
                (rw split (take-append_add (incl_len - (copied + n)) q (flat qs)))
                (copy_chain-Copied qs (copied + n) incl_len (done ++ q) (drop n rest)
                  (omega (arith, length-append done q, d)) (ground (arith, more))
                  (omega (arith, w, split, length-append q (flat qs)))
                  (omega (arith, r, split, length-drop n rest))))
      ]
    ]
  where
    nothing_left :
        (xs : List ℕ) (qs : List (List ℕ)) (left : ℕ) → left ≡ 0 → xs ++ take left (flat qs) ≡ xs
    nothing_left xs qs left e = rw (e, append-nil xs) refl

-- the header and what fits of the chain, put together in an area with room for both
assembled :
    (hdr area : List ℕ) (qs : List (List ℕ)) (incl_len : ℕ)
    → length hdr ≡ pkt_hdr_size
    → incl_len ≤ length (flat qs)
    → pkt_hdr_size + incl_len ≤ length area
    → (overwrite area 0 hdr >>= (λ b.
        copy_chain qs 0 incl_len b >>= (λ full. some (take (pkt_hdr_size + incl_len) full))))
      ≡ some (hdr ++ take incl_len (flat qs))
assembled hdr area qs incl_len h w r =
    let (rest, c) =
      copy_chain-Copied qs 0 incl_len hdr (drop (length hdr) area) h (omega arith)
        (omega (arith, w)) (omega (arith, h, r, length-drop (length hdr) area)) in
    let len : pkt_hdr_size + incl_len ≡ length (hdr ++ take incl_len (flat qs)) =
      omega (
        arith,
        h,
        w,
        length-append hdr (take incl_len (flat qs)),
        length-take incl_len (flat qs),
      ) in
    let whole : incl_len - 0 ≡ incl_len = omega arith in
    rw (overwrite-append [] area hdr (omega (arith, h, r)), c, whole, len)
      (ap some (take-append_self (hdr ++ take incl_len (flat qs)) rest))

-- With a snap length of at most 1600 bytes, the 1616 bytes of `pkt_buf` are enough for every
-- packet, and what is put together there for a chain whose `tot_len` is right is the record header,
-- with both lengths, and the first bytes of the packet, as many as the snap length allows.
pub packet_record-bytes :
    (snaplen : ℕ) (p : Chain) (ts_sec ts_usec : ℕ) (pkt_buf : List ℕ)
    → snaplen ≤ pcap_snaplen_max
    → length pkt_buf ≡ pkt_hdr_size + pcap_snaplen_max
    → p.tot_len ≡ length (flat p.segments)
    → let incl_len = incl_len_of p.tot_len snaplen in
      packet_record snaplen p ts_sec ts_usec pkt_buf
      ≡ some (packet_header ts_sec ts_usec incl_len p.tot_len ++ take incl_len (flat p.segments))
unfolding packet_record
packet_record-bytes snaplen p ts_sec ts_usec pkt_buf s b t =
    let incl_len = incl_len_of p.tot_len snaplen in
    let within : incl_len ≤ p.tot_len = ground arith in
    let capped : incl_len ≤ pcap_snaplen_max = ground (arith, s) in
    assembled (packet_header ts_sec ts_usec incl_len p.tot_len) pkt_buf p.segments incl_len refl
      (omega (arith, within, t)) (omega (arith, capped, b))

-- The loop stays in the area, whatever the lengths of the segments are.
copy_chain-some :
    (qs : List (List ℕ)) (copied incl_len : ℕ) (buf : List ℕ)
    → copied ≤ incl_len
    → pkt_hdr_size + incl_len ≤ length buf
    → (out : List ℕ) × (copy_chain qs copied incl_len buf ≡ some out)
unfolding copy_chain
copy_chain-some [] copied incl_len buf c h = (buf, refl)
copy_chain-some (q ∷ qs) copied incl_len buf c h = elim (Bool-cases (ltb copied incl_len)) [
  | inr stop ↦ (buf, rw stop refl)
  | inl go ↦
      let n = (if ltb incl_len (copied + length q) then incl_len - copied else length q) in
      let room : copied + n ≤ incl_len = ground (arith, go) in
      let (b, e, l) =
        overwrite-some buf (pkt_hdr_size + copied) (take n q)
          (omega (arith, room, h, length-take n q)) in
      let (out, f) = copy_chain-some qs (copied + n) incl_len b room (omega (arith, h, l)) in
      (out, rw (go, e, f) refl)
]

-- With a snap length of at most 1600 bytes no packet, not even one whose `tot_len` is wrong, is
-- copied beyond the 1616 bytes of `pkt_buf`.
pub packet_record-some :
    (snaplen : ℕ) (p : Chain) (ts_sec ts_usec : ℕ) (pkt_buf : List ℕ)
    → snaplen ≤ pcap_snaplen_max
    → length pkt_buf ≡ pkt_hdr_size + pcap_snaplen_max
    → (r : List ℕ) × (packet_record snaplen p ts_sec ts_usec pkt_buf ≡ some r)
unfolding packet_record
packet_record-some snaplen p ts_sec ts_usec pkt_buf s l =
    let incl_len = incl_len_of p.tot_len snaplen in
    let capped : incl_len ≤ pcap_snaplen_max = ground (arith, s) in
    let (b, e, k) =
      overwrite-some pkt_buf 0 (packet_header ts_sec ts_usec incl_len p.tot_len)
        (omega (arith, l)) in
    let (out, f) =
      copy_chain-some p.segments 0 incl_len b (omega arith) (omega (arith, capped, l, k)) in
    (take (pkt_hdr_size + incl_len) out, rw (e, f) refl)

-- what capturing a packet does: `r` is its record
pub record Captured (c : Capture) (b r : List ℕ) (o : Capture) : Type 0 where
  pub kept : Bool
  pub written : Written c.ring b r (o.ring, kept)
  pub counted :
      o.captured_packets ≡ (if kept then u32 (c.captured_packets + 1) else c.captured_packets)

-- While a client is connected and the ring is free, capturing a packet whose chain is well formed
-- writes its record, header and bytes up to the snap length, to the ring as a whole or drops it as
-- a whole, and the count of captured packets goes up by one, modulo 2 ^ 32, exactly if it was
-- written. No byte outside the stack area is written.
pub pcap_capture_packet-Captured :
    (c : Capture) (p : Chain) (ts_sec ts_usec : ℕ) (pkt_buf b : List ℕ)
    → c.client_connected ≡ true
    → IsLive c.ring b
    → c.pcap_snaplen ≤ pcap_snaplen_max
    → length pkt_buf ≡ pkt_hdr_size + pcap_snaplen_max
    → p.tot_len ≡ length (flat p.segments)
    → let incl_len = incl_len_of p.tot_len c.pcap_snaplen in
      (o : Capture) × (pcap_capture_packet c (some p) ts_sec ts_usec pkt_buf false ≡ some o)
      × Captured c b
          (packet_header ts_sec ts_usec incl_len p.tot_len ++ take incl_len (flat p.segments))
          o
unfolding pcap_capture_packet
pcap_capture_packet-Captured c p ts_sec ts_usec pkt_buf b on v s l t =
    let incl_len = incl_len_of p.tot_len c.pcap_snaplen in
    let r = packet_header ts_sec ts_usec incl_len p.tot_len ++ take incl_len (flat p.segments) in
    let w = ringbuf_write c.ring false r in
    (
      count_captured c w,
      rw (on, packet_record-bytes c.pcap_snaplen p ts_sec ts_usec pkt_buf s l t) refl,
      record { kept = w.1; written = ringbuf_write-Written c.ring b r v; counted = refl },
    )
