-- ===== src/Hooks/Mss/Safety.antt =====
-- `clamp_tcp_mss` (netif_hooks.c) on any frame: the option loop ends, and every access is inside
-- the frame.
use esp32_pppo_e_router.Base.{
  ℕ, zero, suc, ◌+◌, ◌-◌, ◌*◌, ◌/◌, ◌%◌, ◌≤◌, ◌<◌, ◌≡◌, refl, arith, ◌&&◌, ◌||◌, Option, none, some,
  inl, inr, List, [], ◌∷◌, length, get_elem?-lt, ltb, ◌==◌, Bool-cases,
}
use esp32_pppo_e_router.Base.Buffers.{overwrite-some, le16}
use esp32_pppo_e_router.Hooks.Ttl.{update_chksum}
use esp32_pppo_e_router.Hooks.Mss.{
  OptionStep, no_mss, skip_to, mss_at, next_option, next_option-Within, Within, find_mss, clamp_at,
  option_rounds, clamp_found, clamp_tcp, clamp_tcp_mss,
}

-- where the loop may find the MSS
abbrev Inside : ℕ → ℕ → Option ℕ → Type 0
Inside opt opt_end none = Unit
Inside opt opt_end (some i) = (opt < i) × (i + 2 ≤ opt_end)

Inside-later :
    (opt next opt_end : ℕ) (r : Option ℕ)
    → opt < next
    → Inside next opt_end r
    → Inside opt opt_end r
Inside-later opt next opt_end none h w = tt
Inside-later opt next opt_end (some i) h w = (omega (arith, h, w.0), w.1)

-- what the loop with `n` rounds finds from `opt` on
abbrev Finds : ℕ → List ℕ → ℕ → ℕ → Type 0
Finds n p opt opt_end = (r : Option ℕ) × (find_mss n p opt opt_end ≡ some r) × Inside opt opt_end r

one_round :
    (n : ℕ) (p : List ℕ) (opt opt_end : ℕ) (found : OptionStep)
    → next_option p opt opt_end ≡ some found
    → Within opt opt_end found
    → ((next : ℕ) → opt < next → next ≤ opt_end → Finds n p next opt_end)
    → Finds (suc n) p opt opt_end
unfolding find_mss
one_round n p opt opt_end no_mss e w later = (none, rw e refl, tt)
one_round n p opt opt_end (mss_at i) e w later = (some i, rw e refl, w)
one_round n p opt opt_end (skip_to next) e w later =
    let (r, f, inside) = later next w.0 w.1 in
    (r, rw e f, Inside-later opt next opt_end r w.0 inside)

find_mss-Inside :
    (n : ℕ) (p : List ℕ) (opt opt_end : ℕ)
    → opt_end ≤ length p
    → opt_end - opt < n
    → Finds n p opt opt_end
find_mss-Inside zero p opt opt_end h w = absurd (omega arith)
find_mss-Inside (suc n) p opt opt_end h w =
    let (found, e, inside) = next_option-Within p opt opt_end h in
    one_round n p opt opt_end found e inside
      (λ next a b. find_mss-Inside n p next opt_end h (omega (arith, w, a, b)))

-- a result of the size of the frame
abbrev Sized : List ℕ → Option (List ℕ) → Type 0
Sized p out = (q : List ℕ) × (out ≡ some q) × (length q ≡ length p)

clamp_at-Sized :
    (p : List ℕ) (tcp i max_mss : ℕ)
    → i + 2 ≤ length p
    → tcp + 18 ≤ length p
    → Sized p (clamp_at p tcp i max_mss)
unfolding clamp_at
clamp_at-Sized p tcp i max_mss h k =
    let (high, a) = get_elem?-lt p i (omega (arith, h)) in
    let (low, b) = get_elem?-lt p (i + 1) (omega (arith, h)) in
    elim (Bool-cases (ltb max_mss (high * 256 + low))) [
      | inr off ↦ (p, rw (a, b, off) refl, refl)
      | inl on ↦
          let (lowered, e, l) =
            overwrite-some p i (max_mss / 256 ∷ max_mss % 256 ∷ []) (omega (arith, h)) in
          let (c0, d0) = get_elem?-lt lowered (tcp + 16) (omega (arith, k, l)) in
          let (c1, d1) = get_elem?-lt lowered (tcp + 17) (omega (arith, k, l)) in
          let sum =
            update_chksum (c0 + 256 * c1) (high + 256 * low)
              (max_mss / 256 + 256 * (max_mss % 256)) in
          let (out, f, m) = overwrite-some lowered (tcp + 16) (le16 sum) (omega (arith, k, l)) in
          (out, rw (a, b, on, e, d0, d1) f, omega (arith, l, m))
    ]

clamp_found-Sized :
    (p : List ℕ) (tcp opt_end max_mss : ℕ) (r : Option ℕ)
    → opt_end ≤ length p
    → tcp + 20 ≤ length p
    → Inside (tcp + 20) opt_end r
    → Sized p (clamp_found p tcp max_mss r)
clamp_found-Sized p tcp opt_end max_mss none h k w = (p, refl, refl)
clamp_found-Sized p tcp opt_end max_mss (some i) h k w =
    clamp_at-Sized p tcp i max_mss (omega (arith, h, w.1)) (omega (arith, k))

clamp_tcp-Sized : (p : List ℕ) (tcp max_mss : ℕ) → Sized p (clamp_tcp p tcp max_mss)
unfolding clamp_tcp
clamp_tcp-Sized p tcp max_mss = elim (Bool-cases (ltb (length p) (tcp + 20))) [
  | inl short ↦ (p, rw short refl, refl)
  | inr long ↦
      let room : tcp + 20 ≤ length p = ground (arith, long) in
      let (flags, a) = get_elem?-lt p (tcp + 13) (omega (arith, room)) in
      let (offset, b) = get_elem?-lt p (tcp + 12) (omega (arith, room)) in
      elim (Bool-cases (flags / 2 % 2 == 0)) [
        | inl no_syn ↦ (p, rw (long, a, no_syn) refl, refl)
        | inr syn ↦
            let len = offset / 16 % 16 * 4 in
            elim (Bool-cases (ltb len 20 || ltb (length p) (tcp + len))) [
              | inl bad ↦ (p, rw (long, a, syn, b, bad) refl, refl)
              | inr good ↦
                  let fits : tcp + len ≤ length p = ground (arith, good) in
                  let (r, e, w) =
                    find_mss-Inside option_rounds p (tcp + 20) (tcp + len) fits (omega arith) in
                  let (q, f, l) = clamp_found-Sized p tcp (tcp + len) max_mss r fits room w in
                  (q, rw (long, a, syn, b, good, e) f, l)
            ]
      ]
]

-- For every frame, whatever header lengths and options it claims, `clamp_tcp_mss` gets through the
-- options within 41 rounds, reads and writes only bytes of the frame, and keeps its length.
pub clamp_tcp_mss-length :
    (p : List ℕ) (max_mss : ℕ)
    → (q : List ℕ) × (clamp_tcp_mss p max_mss ≡ some q) × (length q ≡ length p)
unfolding clamp_tcp_mss
clamp_tcp_mss-length p max_mss = elim (Bool-cases (max_mss == 0 || ltb (length p) 54)) [
  | inl off ↦ (p, rw off refl, refl)
  | inr on ↦
      let room : 54 ≤ length p = ground (arith, on) in
      let (a, ea) = get_elem?-lt p 12 (omega (arith, room)) in
      let (b, eb) = get_elem?-lt p 13 (omega (arith, room)) in
      let (c, ec) = get_elem?-lt p 14 (omega (arith, room)) in
      let (d, ed) = get_elem?-lt p 23 (omega (arith, room)) in
      elim (Bool-cases (a == 8 && b == 0 && c / 16 == 4 && d == 6)) [
        | inr other ↦ (p, rw (on, ea, eb, ec, ed, other) refl, refl)
        | inl tcp ↦
            let (q, f, l) = clamp_tcp-Sized p (14 + c % 16 * 4) max_mss in
            (q, rw (on, ea, eb, ec, ed, tcp) f, l)
      ]
]
