-- ===== src/Dhcp/Reservations/Access.antt =====
-- What the reservation table of dhcp_manager.c promises its users, and that no sequence of
-- requests gives an address two entries.
use esp32_pppo_e_router.Base.{
  ℕ, ◌≡◌, ◌≢◌, refl, sym, ap, ◌∙◌, arith, true, false, Option, some, inl, inr, List, [], ◌∷◌, map,
  count, ◌==◌, Bool-cases, Option-cases, same_bytes→eq,
}
use esp32_pppo_e_router.Base.Keyed.{first}
use esp32_pppo_e_router.Dhcp.Reservations.{
  Reservation, Dhcp, is_for, freed, add_dhcp_reservation, del_dhcp_reservation,
  clear_all_dhcp_reservations, reservation_of, lookup_dhcp_reservation, is_held_by_other,
  is_ip_reserved_for_other, is_there,
}
use esp32_pppo_e_router.Dhcp.Reservations.Table.{
  IsUnique, add_dhcp_reservation-Added, del_dhcp_reservation-Gone, other_bytes,
}

-- A request, with what saving the table would answer.
pub data Request : Type 0 where
  reserve : List ℕ → ℕ → Option (List ℕ) → ℕ → Request
  release : List ℕ → ℕ → Request
  release_all : ℕ → Request

abbrev pub serve : Dhcp → Request → Dhcp
serve d (reserve mac ip name saved) = (add_dhcp_reservation d mac ip name saved).0
serve d (release mac saved) = (del_dhcp_reservation d mac saved).0
serve d (release_all saved) = (clear_all_dhcp_reservations d saved).0

abbrev pub serve_all : Dhcp → List Request → Dhcp
serve_all d [] = d
serve_all d (r ∷ rs) = serve_all (serve d r) rs

count-freed : (mac : List ℕ) (es : List Reservation) → count (is_for mac) (map freed es) ≡ 0
unfolding count
count-freed mac [] = refl
count-freed mac (e ∷ es) = count-freed mac es

serve-IsUnique : (d : Dhcp) (r : Request) → IsUnique d → IsUnique (serve d r)
unfolding clear_all_dhcp_reservations
serve-IsUnique d (reserve mac ip name saved) u =
    elim (add_dhcp_reservation-Added d mac ip name saved u) [
      | inl refused ↦ rw (serve, refused.unchanged) u
      | inr stored ↦ stored.1.unique
    ]
serve-IsUnique d (release mac saved) u = (del_dhcp_reservation-Gone d mac saved u).unique
serve-IsUnique d (release_all saved) u = λ mac. omega (arith, count-freed mac d.reservations)

-- No sequence of reservations, releases and clearings, refused ones included, gives a MAC address
-- two valid entries, if none had two before.
pub serve_all-IsUnique : (d : Dhcp) (rs : List Request) → IsUnique d → IsUnique (serve_all d rs)
serve_all-IsUnique d [] u = u
serve_all-IsUnique d (r ∷ rs) u = serve_all-IsUnique (serve d r) rs (serve-IsUnique d r u)

-- The entry that a search for `owner` finds is seen by every other client.
seen_by_other :
    (es : List Reservation) (owner mac : List ℕ) (ip : ℕ) (e : Reservation)
    → first (is_for owner) es ≡ some e
    → e.ip ≡ ip
    → mac ≢ owner
    → is_there (first (is_held_by_other ip mac) es) ≡ true
unfolding first
seen_by_other [] owner mac ip e f i n = absurd (cc)
seen_by_other (x ∷ xs) owner mac ip e f i n = elim (Bool-cases (is_for owner x)) [
  | inl o ↦
      let same : x ≡ e = ground (arith, o, f) in
      let x_mac : x.mac ≡ owner = same_bytes→eq x.mac owner (ground (arith, o)) in
      let other = other_bytes x.mac mac (λ q. n (sym q ∙ x_mac)) in
      let hit : is_held_by_other ip mac x ≡ true =
        ground (arith, o, other, ap (λ (r : Reservation). r.ip) same, i) in
      rw hit refl
  | inr o ↦ elim (Bool-cases (is_held_by_other ip mac x)) [
    | inl hit ↦ rw hit refl
    | inr miss ↦ rw miss (seen_by_other xs owner mac ip e (ground (arith, o, f)) i n)
  ]
]

-- An address that is reserved for one client, as `lookup_dhcp_reservation` tells it, is reported
-- as reserved by `is_ip_reserved_for_other` to every client with another MAC address.
pub lookup_dhcp_reservation-exclusive :
    (d : Dhcp) (owner mac : List ℕ) (ip : ℕ)
    → lookup_dhcp_reservation d owner ≡ ip
    → ip ≢ 0
    → mac ≢ owner
    → is_ip_reserved_for_other d ip mac ≡ true
unfolding lookup_dhcp_reservation is_ip_reserved_for_other
lookup_dhcp_reservation-exclusive d owner mac ip l z n =
    elim (Option-cases (reservation_of d owner)) [
      | inl e ↦ absurd (z (sym (rw e at l)))
      | inr (r, e) ↦
          let some_ip : (ip == 0) ≡ false = ground arith in
          rw some_ip (seen_by_other d.reservations owner mac ip r e (rw e at l) n)
    ]
