-- ===== src/Hooks/AccessPoint/Icmp.antt =====
-- What `send_icmp_frag_needed` (main/netif_hooks.c) tells a client of its own packet.
use esp32_pppo_e_router.Base.{
  ℕ, zero, suc, ◌+◌, ◌-◌, ◌*◌, ◌/◌, ◌%◌, ◌^◌, ◌≤◌, ◌≡◌, refl, sym, ap, ◌∙◌, arith, inl, inr,
  Bool-cases, Bool, true, false, not, ◌&&◌, ◌||◌, Option, none, some, List, [], ◌∷◌, ◌++◌,
  append_assoc, length, length-append, length-take, length-drop, take, drop, get_elem?-lt, min, leb,
  ltb, le→leb, ◌==◌, if◌then◌else◌,
}
use esp32_pppo_e_router.Base.Bytes.{be16-lt}
use esp32_pppo_e_router.Base.Buffers.{le16}
use esp32_pppo_e_router.Hooks.AccessPoint.{
  slice, be_bytes, icmp_proto, answer_header, avail_data, answer, too_big, answer_to,
  send_icmp_frag_needed,
}

-- a header length that the frame really has
abbrev pub Fits : List ℕ → Option ℕ → Type 0
Fits p none = Unit
Fits p (some ihl) = (20 ≤ ihl) × (ihl ≤ 60) × (14 + ihl ≤ length p)

Good : List ℕ → Option (Option ℕ) → Type 0
Good p out = (o : Option ℕ) × (out ≡ some o) × Fits p o

Good-if :
    (p : List ℕ) (b : Bool) (x y : Option (Option ℕ))
    → Good p x
    → Good p y
    → Good p (if b then x else y)
Good-if p true x y h k = h
Good-if p false x y h k = k

quiet : (p : List ℕ) → Good p (some none)
unfolding Good
quiet p = (none, refl, tt)

backed :
    (p : List ℕ) (ihl : ℕ)
    → Good p (
        if ltb ihl 20 || ltb 60 ihl || ltb (length p) (14 + ihl)
        then some none
        else some (some ihl))
unfolding Good
backed p ihl = elim (Bool-cases (ltb ihl 20 || ltb 60 ihl || ltb (length p) (14 + ihl))) [
  | inl bad ↦ rw bad (none, refl, tt)
  | inr good ↦
      rw good (some ihl, refl, (ground (arith, good), ground (arith, good), ground (arith, good)))
]

too_big-Good : (p : List ℕ) (mtu : ℕ) → Good p (too_big p mtu)
too_big-Good p mtu = elim (Bool-cases (ltb (length p) 34)) [
  | inl short ↦ rw short (quiet p)
  | inr long ↦
      let room : 34 ≤ length p = ground (arith, long) in
      let (a, ea) = get_elem?-lt p 12 (omega (arith, room)) in
      let (b, eb) = get_elem?-lt p 13 (omega (arith, room)) in
      let (c, ec) = get_elem?-lt p 14 (omega (arith, room)) in
      let (d, ed) = be16-lt p 16 (omega (arith, room)) in
      let (e, ee) = be16-lt p 20 (omega (arith, room)) in
      let (f, ef) = get_elem?-lt p 23 (omega (arith, room)) in
      rw (long, ea, eb, ec, ed, ee, ef)
        (Good-if p (not (a == 8 && b == 0) || not (c / 16 == 4)) _ _ (quiet p) (
          Good-if p (leb d mtu) _ _ (quiet p) (
            Good-if p (e / 2 ^ 14 % 2 == 0 || not (e % 2 ^ 13 == 0) || f == icmp_proto) _ _
              (quiet p) (backed p (c % 16 * 4)))))
]

pub slice-some :
    (p : List ℕ) (at n : ℕ) → at + n ≤ length p → slice p at n ≡ some (take n (drop at p))
slice-some p at n h = let fits : leb (at + n) (length p) ≡ true = le→leb _ _ h in rw fits refl

take_nil : (n : ℕ) → take {A = ℕ} n [] ≡ []
take_nil zero = refl
take_nil (suc n) = refl

drop_nil : (n : ℕ) → drop {A = ℕ} n [] ≡ []
drop_nil zero = refl
drop_nil (suc n) = refl

take_add : (a b : ℕ) (xs : List ℕ) → take a xs ++ take b (drop a xs) ≡ take (a + b) xs
take_add zero b xs = let e : 0 + b ≡ b = omega arith in rw e refl
take_add (suc a) b [] = take_nil b ∙ sym (take_nil (suc a + b))
take_add (suc a) b (x ∷ xs) =
    let e : suc a + b ≡ suc (a + b) = omega arith in rw e (ap (λ r. x ∷ r) (take_add a b xs))

drop_add : (a b : ℕ) (xs : List ℕ) → drop (a + b) xs ≡ drop b (drop a xs)
drop_add zero b xs = let e : 0 + b ≡ b = omega arith in rw e refl
drop_add (suc a) b [] = drop_nil (suc a + b) ∙ sym (drop_nil b)
drop_add (suc a) b (x ∷ xs) =
    let e : suc a + b ≡ suc (a + b) = omega arith in rw e (drop_add a b xs)

-- The frame is 42 bytes of headers and then what the packet has from its IP header on.
abbrev pub Quotes : List ℕ → Option (List ℕ) → Type 0
Quotes p none = Unit
Quotes p (some frame) =
    (ihl : ℕ) × (head : List ℕ) × (20 ≤ ihl)
    × (ihl ≤ 60)
    × (14 + ihl ≤ length p)
    × (length head ≡ 42)
    × (frame ≡ head ++ take (ihl + min 8 (length p - 14 - ihl)) (drop 14 p))

-- the eight bytes of the ICMP message in front of what it quotes
abbrev message_head : (List ℕ → ℕ) → ℕ → List ℕ → List ℕ
message_head inet_chksum mtu quoted =
    3
    ∷ 4
    ∷ (le16 (inet_chksum (3 ∷ 4 ∷ 0 ∷ 0 ∷ 0 ∷ 0 ∷ (be_bytes mtu ++ quoted)))
        ++ (0 ∷ 0 ∷ be_bytes mtu))

regrouped :
    (a b h m q : List ℕ)
    → (a ++ (b ++ (8 ∷ 0 ∷ (h ++ m)))) ++ q ≡ a ++ (b ++ (8 ∷ 0 ∷ (h ++ (m ++ q))))
regrouped a b h m q =
    append_assoc a (b ++ (8 ∷ 0 ∷ (h ++ m))) q
    ∙ ap (λ r. a ++ r)
        (append_assoc b (8 ∷ 0 ∷ (h ++ m)) q ∙ ap (λ r. b ++ (8 ∷ 0 ∷ r)) (append_assoc h m q))

answer_header-length :
    (inet_chksum : List ℕ → ℕ) (my_ap_ip : ℕ) (client : List ℕ) (len : ℕ)
    → length (answer_header inet_chksum my_ap_ip client len) ≡ 16 + length client
answer_header-length inet_chksum my_ap_ip client len = omega arith

-- what the answer is made of, when the packet has it
answer-Quotes :
    (inet_chksum : List ℕ → ℕ) (my_ap_ip : ℕ) (p : List ℕ) (mtu ihl : ℕ)
    → Fits p (some ihl)
    → (frame : List ℕ) × (answer inet_chksum my_ap_ip p mtu ihl ≡ some frame)
      × Quotes p (some frame)
answer-Quotes inet_chksum my_ap_ip p mtu ihl (low, high, there) =
    let n = avail_data p ihl in
    let sender = take 6 (drop 6 p) in
    let router = take 6 (drop 0 p) in
    let client = take 4 (drop 26 p) in
    let quoted = take ihl (drop 14 p) in
    let rest = take n (drop (14 + ihl) p) in
    let es = slice-some p 6 6 (omega (arith, low, there)) in
    let er = slice-some p 0 6 (omega (arith, low, there)) in
    let ec = slice-some p 26 4 (omega (arith, low, there)) in
    let eq = slice-some p 14 ihl there in
    let ed = slice-some p (14 + ihl) n (omega (arith, there)) in
    let whole : quoted ++ rest ≡ take (ihl + n) (drop 14 p) =
      ap (λ d. quoted ++ take n d) (drop_add 14 ihl p) ∙ take_add ihl n (drop 14 p) in
    let header = answer_header inet_chksum my_ap_ip client (20 + (8 + ihl + n)) in
    let message = message_head inet_chksum mtu (quoted ++ rest) in
    let head = sender ++ (router ++ (8 ∷ 0 ∷ (header ++ message))) in
    let frame = sender ++ (router ++ (8 ∷ 0 ∷ (header ++ (message ++ (quoted ++ rest))))) in
    let ls : length sender ≡ 6 =
      length-take 6 (drop 6 p) ∙ omega (arith, length-drop 6 p, low, there) in
    let lr : length router ≡ 6 =
      length-take 6 (drop 0 p) ∙ omega (arith, length-drop 0 p, low, there) in
    let lc : length client ≡ 4 =
      length-take 4 (drop 26 p) ∙ omega (arith, length-drop 26 p, low, there) in
    let lh = answer_header-length inet_chksum my_ap_ip client (20 + (8 + ihl + n)) in
    let size : length head ≡ 42 = omega (
      arith,
      ls,
      lr,
      lc,
      lh,
      length-append sender (router ++ (8 ∷ 0 ∷ (header ++ message))),
      length-append router (8 ∷ 0 ∷ (header ++ message)),
      length-append header message,
    ) in
    (
      frame,
      rw (es, er, ec, eq, ed) refl,
      (
        ihl,
        head,
        low,
        high,
        there,
        size,
        sym (regrouped sender router header message (quoted ++ rest)) ∙ ap (λ q. head ++ q) whole,
      ),
    )

pub send_icmp_frag_needed-Quotes :
    (inet_chksum : List ℕ → ℕ) (alloc : Bool) (my_ap_ip : ℕ) (p : List ℕ) (mtu : ℕ)
    → (out : Option (List ℕ)) × (send_icmp_frag_needed inet_chksum alloc my_ap_ip p mtu ≡ some out)
      × Quotes p out
unfolding send_icmp_frag_needed Good
send_icmp_frag_needed-Quotes inet_chksum alloc my_ap_ip p mtu =
    let (o, e, fits) = too_big-Good p mtu in rw e (answered o fits)
  where
    answered :
        (o : Option ℕ)
        → Fits p o
        → (out : Option (List ℕ)) × (answer_to inet_chksum alloc my_ap_ip p mtu o ≡ some out)
          × Quotes p out
    answered none fits = (none, refl, tt)
    answered (some ihl) fits = elim (Bool-cases alloc) [
      | inl yes_ ↦
          let (frame, e, q) = answer-Quotes inet_chksum my_ap_ip p mtu ihl fits in
          (some frame, rw (yes_, e) refl, q)
      | inr no_ ↦ (none, rw no_ refl, tt)
    ]
