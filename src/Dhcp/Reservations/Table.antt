-- ===== src/Dhcp/Reservations/Table.antt =====
-- The reservation table of dhcp_manager.c as a map from MAC addresses to reservations: what adding
-- and deleting do to what the searches find.
use esp32_pppo_e_router.Base.{
  ℕ, take, [], ◌≤◌, ◌<◌, ◌≡◌, ◌≢◌, ◌⊎◌, refl, sym, ap, ◌∙◌, arith, true, false, not, Option, none,
  some, inl, inr, List, length, get_or, set, find_index, find_index-some, find_index-none, count,
  count-keep, keep-none, Every, Bool-cases, Option-cases, same_bytes, same_bytes_refl,
  same_bytes→eq, get_or_of_get_elem?,
}
use esp32_pppo_e_router.Base.Keyed.{
  first-count, first-find_index, first-set_other, first-set_hit, first-set_new, count-set_same,
  count-set_out, count-set_le,
}
use esp32_pppo_e_router.Dhcp.Reservations.{
  Reservation, Dhcp, esp_err_no_mem, no_reservation, is_used, is_for, stored_name, updated,
  new_reservation, freed, put, add_dhcp_reservation, del_dhcp_reservation, reservation_of,
}

-- No MAC address has two valid entries.
abbrev pub IsUnique : Dhcp → Type 0
IsUnique d = (mac : List ℕ) → count (is_for mac) d.reservations ≤ 1

-- the slot that a search for a valid entry of `mac` stops at
record Hit (d : Dhcp) (mac : List ℕ) (i : ℕ) : Type 0 where
  in_range : i < length d.reservations
  used : is_used (get_or d.reservations i no_reservation) ≡ true
  same : (get_or d.reservations i no_reservation).mac ≡ mac

Hit-find_index :
    (d : Dhcp) (mac : List ℕ) (i : ℕ)
    → find_index (is_for mac) d.reservations ≡ some i
    → Hit d mac i
Hit-find_index d mac i h =
    let (x, there, ok, lt) = find_index-some (is_for mac) d.reservations i h in
    let known = get_or_of_get_elem? d.reservations i x no_reservation there in
    record {
      in_range = lt;
      used = rw known (ground (arith, ok));
      same = rw known (same_bytes→eq x.mac mac (ground (arith, ok)));
    }

pub other_bytes : (a b : List ℕ) → a ≢ b → same_bytes a b ≡ false
other_bytes a b n = elim (Bool-cases (same_bytes a b)) [
  | inl e ↦ absurd (n (same_bytes→eq a b e))
  | inr e ↦ e
]

not_for :
    (e : Reservation) (mac other : List ℕ) → e.mac ≡ mac → other ≢ mac → is_for other e ≡ false
not_for e mac other m n = let d = other_bytes e.mac other (λ q. n (sym q ∙ m)) in ground (arith, d)

unused_not_for : (e : Reservation) (mac : List ℕ) → is_used e ≡ false → is_for mac e ≡ false
unused_not_for e mac u = ground (arith, u)

-- the name of an entry, for the name that is asked for: its first 31 bytes
abbrev pub NamedBy : Option (List ℕ) → List ℕ → Type 0
NamedBy none stored = stored ≡ []
NamedBy (some text) stored = stored ≡ take 31 text

stored_name-NamedBy : (name : Option (List ℕ)) → NamedBy name (stored_name name)
stored_name-NamedBy none = refl
stored_name-NamedBy (some text) = refl

-- what `add_dhcp_reservation` leaves when there was room
pub record Stored (d : Dhcp) (mac : List ℕ) (ip : ℕ) (name : Option (List ℕ)) (out : Dhcp)
    : Type 0 where
  pub unique : IsUnique out
  pub entry : Reservation
  pub found : reservation_of out mac ≡ some entry
  pub entry_ip : entry.ip ≡ ip
  pub entry_name : NamedBy name entry.name
  pub others : (other : List ℕ) → other ≢ mac → reservation_of out other ≡ reservation_of d other

update_hit :
    (d : Dhcp) (mac : List ℕ) (ip : ℕ) (name : Option (List ℕ)) (i : ℕ)
    → IsUnique d
    → find_index (is_for mac) d.reservations ≡ some i
    → Stored d mac ip name (put d i (updated (get_or d.reservations i no_reservation) ip name))
update_hit d mac ip name i u f =
    let hit = Hit-find_index d mac i f in
    let old = get_or d.reservations i no_reservation in
    let new = updated old ip name in
    let mine : is_for mac new ≡ true = rw (hit.used, hit.same) (same_bytes_refl mac) in
    record {
      unique = λ k.
          rw (count-set_same (is_for k) d.reservations i new no_reservation hit.in_range refl)
            (u k);
      entry = new;
      found = first-set_hit (is_for mac) d.reservations i new f mine;
      entry_ip = refl;
      entry_name = stored_name-NamedBy name;
      others = λ other n.
          first-set_other (is_for other) d.reservations i new no_reservation hit.in_range
            (not_for old mac other hit.same n) (not_for new mac other hit.same n);
    }

no_hits :
    (d : Dhcp) (mac : List ℕ)
    → find_index (is_for mac) d.reservations ≡ none
    → count (is_for mac) d.reservations ≡ 0
no_hits d mac f =
    count-keep (is_for mac) d.reservations
    ∙ ap length
        (keep-none (is_for mac) d.reservations (find_index-none (is_for mac) d.reservations f))

add_free :
    (d : Dhcp) (mac : List ℕ) (ip : ℕ) (name : Option (List ℕ)) (i : ℕ)
    → IsUnique d
    → find_index (is_for mac) d.reservations ≡ none
    → i < length d.reservations
    → is_used (get_or d.reservations i no_reservation) ≡ false
    → Stored d mac ip name (put d i (new_reservation mac ip name))
add_free d mac ip name i u f lt free =
    let old = get_or d.reservations i no_reservation in
    let new = new_reservation mac ip name in
    record {
      unique = λ k. elim (Bool-cases (same_bytes mac k)) [
        | inl e ↦
            let zero_before = no_hits d mac f in
            let k' : k ≡ mac = sym (same_bytes→eq mac k e) in
            rw k' (omega (arith, count-set_le (is_for mac) d.reservations i new, zero_before))
        | inr e ↦
            rw
              (count-set_same (is_for k) d.reservations i new no_reservation lt
                (unused_not_for old k free ∙ sym e))
              (u k)
      ];
      entry = new;
      found =
          first-set_new (is_for mac) d.reservations i new lt
            (first-find_index (is_for mac) d.reservations f) (same_bytes_refl mac);
      entry_ip = refl;
      entry_name = stored_name-NamedBy name;
      others = λ other n.
          first-set_other (is_for other) d.reservations i new no_reservation lt
            (unused_not_for old other free) (not_for new mac other refl n);
    }

-- the two answers of `add_dhcp_reservation`
pub record Refused (d : Dhcp) (mac : List ℕ) (out : Dhcp × ℕ) : Type 0 where
  pub unchanged : out ≡ (d, esp_err_no_mem)
  pub absent : reservation_of d mac ≡ none
  pub full : Every (λ e. not (not (is_used e))) d.reservations

abbrev pub Added : Dhcp → List ℕ → ℕ → Option (List ℕ) → ℕ → Dhcp × ℕ → Type 0
Added d mac ip name saved out = Refused d mac out ⊎ ((out.1 ≡ saved) × Stored d mac ip name out.0)

-- On a table in which no MAC address has two valid entries, `add_dhcp_reservation` either finds
-- no valid entry of the address and no free slot, changes nothing and answers ESP_ERR_NO_MEM; or
-- it answers what saving the table answered, searches for the address find the new address and
-- the name cut to 31 bytes, searches for other addresses find what they found, and no address has
-- two entries.
pub add_dhcp_reservation-Added :
    (d : Dhcp) (mac : List ℕ) (ip : ℕ) (name : Option (List ℕ)) (saved : ℕ)
    → IsUnique d
    → Added d mac ip name saved (add_dhcp_reservation d mac ip name saved)
unfolding add_dhcp_reservation
add_dhcp_reservation-Added d mac ip name saved u =
    elim (Option-cases (find_index (is_for mac) d.reservations)) [
      | inr (i, f) ↦ rw f (inr (refl, update_hit d mac ip name i u f))
      | inl f ↦ elim (Option-cases (find_index (λ e. not (is_used e)) d.reservations)) [
        | inl g ↦
            rw (f, g)
              (inl (record {
                unchanged = refl;
                absent = first-find_index (is_for mac) d.reservations f;
                full = find_index-none (λ e. not (is_used e)) d.reservations g;
              }))
        | inr (i, g) ↦
            let (x, there, ok, lt) = find_index-some (λ e. not (is_used e)) d.reservations i g in
            let known = get_or_of_get_elem? d.reservations i x no_reservation there in
            rw (f, g) (inr (refl, add_free d mac ip name i u f lt (rw known (ground (arith, ok)))))
      ]
    ]

-- what `del_dhcp_reservation` leaves
pub record Gone (d : Dhcp) (mac : List ℕ) (out : Dhcp) : Type 0 where
  pub unique : IsUnique out
  pub absent : reservation_of out mac ≡ none
  pub others : (other : List ℕ) → other ≢ mac → reservation_of out other ≡ reservation_of d other

free_hit :
    (d : Dhcp) (mac : List ℕ) (i : ℕ)
    → IsUnique d
    → find_index (is_for mac) d.reservations ≡ some i
    → Gone d mac (put d i (freed (get_or d.reservations i no_reservation)))
free_hit d mac i u f =
    let hit = Hit-find_index d mac i f in
    let old = get_or d.reservations i no_reservation in
    let fewer = count-set_out (is_for mac) d.reservations i (freed old) f refl in
    let most = u mac in
    let none_left : count (is_for mac) (set d.reservations i (freed old)) ≡ 0 =
      omega (arith, fewer, most) in
    record {
      unique = λ k. elim (Bool-cases (same_bytes mac k)) [
        | inl e ↦ let k' : k ≡ mac = sym (same_bytes→eq mac k e) in rw k' (omega (arith, none_left))
        | inr e ↦
            rw
              (count-set_same (is_for k) d.reservations i (freed old) no_reservation hit.in_range
                (not_for old mac k hit.same (λ q. ground (arith, e, q, same_bytes_refl mac))))
              (u k)
      ];
      absent = first-count (is_for mac) (set d.reservations i (freed old)) none_left;
      others = λ other n.
          first-set_other (is_for other) d.reservations i (freed old) no_reservation hit.in_range
            (not_for old mac other hit.same n) refl;
    }

-- On a table in which no MAC address has two valid entries, after `del_dhcp_reservation` no search finds the address, searches for other
-- addresses find what they found, and no address has two valid entries.
pub del_dhcp_reservation-Gone :
    (d : Dhcp) (mac : List ℕ) (saved : ℕ)
    → IsUnique d
    → Gone d mac (del_dhcp_reservation d mac saved).0
unfolding del_dhcp_reservation
del_dhcp_reservation-Gone d mac saved u =
    elim (Option-cases (find_index (is_for mac) d.reservations)) [
      | inr (i, f) ↦ rw f (free_hit d mac i u f)
      | inl f ↦ rw f (record {
        unique = u;
        absent = first-find_index (is_for mac) d.reservations f;
        others = λ other n. refl;
      })
    ]
