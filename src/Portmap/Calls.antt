-- ===== src/Portmap/Calls.antt =====
-- What the operations of portmap.c do to the mappings in the table, and what they tell the NAT
-- engine.
use esp32_pppo_e_router.Base.{
  zero, ◌<◌, set, ==_iff, ℕ, suc, ◌≡◌, ◌≢◌, ◌⊎◌, refl, sym, ap, ◌∙◌, arith, true, false, not, inl,
  inr, List, [], ◌∷◌, map, length, get_or, find_index, find_index-some, find_index-none,
  get_or_of_get_elem?, count, keep, keep-full, Every, ◌==◌, if◌then◌else◌, Bool-cases, Option-cases,
}
use esp32_pppo_e_router.Base.Keyed.{count-set_same, count-set_out, count-set_in}
use esp32_pppo_e_router.Portmap.{
  PortmapEntry, Portmap, NaptCall, napt_add, napt_remove, Reply, portmap_ok, portmap_no_mem,
  zero_mapping, is_mapped, bind_ip, add_call, remove_call, calls_of, apply_portmap_tab,
  delete_portmap_tab, new_mapping, add_portmap, is_mapping, unmapped, del_portmap, clear_mappings,
  clear_all_portmaps,
}

-- the mappings of a table, in order
abbrev pub mappings : Portmap → List PortmapEntry
mappings s = keep is_mapped s.portmap_tab

calls_of-keep :
    (call : PortmapEntry → NaptCall) (es : List PortmapEntry)
    → calls_of call es ≡ map call (keep is_mapped es)
unfolding calls_of keep
calls_of-keep call [] = refl
calls_of-keep call (e ∷ es) = ground (arith, calls_of-keep call es)

-- When the uplink has an address, `apply_portmap_tab` adds every mapping of the table, and no
-- other, at that address; `delete_portmap_tab` removes the same ones in the same order.
pub apply_portmap_tab-calls :
    (s : Portmap)
    → bind_ip s ≢ 0
    → ((apply_portmap_tab s).calls ≡ map (add_call (bind_ip s)) (mappings s))
      × ((delete_portmap_tab s).calls ≡ map remove_call (mappings s))
unfolding apply_portmap_tab delete_portmap_tab
apply_portmap_tab-calls s up =
    let there : (bind_ip s == 0) ≡ false = ground (arith, up) in
    (
      rw there (calls_of-keep (add_call (bind_ip s)) s.portmap_tab),
      calls_of-keep remove_call s.portmap_tab,
    )

clear_mappings-lem :
    (es : List PortmapEntry)
    → (keep is_mapped (clear_mappings es).0 ≡ [])
      × ((clear_mappings es).1 ≡ map remove_call (keep is_mapped es))
      × (length (clear_mappings es).0 ≡ length es)
unfolding clear_mappings keep
clear_mappings-lem [] = (refl, refl, refl)
clear_mappings-lem (e ∷ es) =
    let ih = clear_mappings-lem es in
    elim (Bool-cases (is_mapped e)) [
      | inl m ↦ rw m (ih.0, ap (λ r. remove_call e ∷ r) ih.1, ap suc ih.2)
      | inr m ↦ rw m (rw m ih.0, ih.1, ap suc ih.2)
    ]

-- `clear_all_portmaps` leaves no mapping in the table, whose size stays, and removes every mapping
-- from the NAT engine, in order, also when saving fails.
pub clear_all_portmaps-calls :
    (s : Portmap) (saved : ℕ)
    → let r = clear_all_portmaps s saved in
      (mappings r.state ≡ [])
      × (r.calls ≡ map remove_call (mappings s))
      × (length r.state.portmap_tab ≡ length s.portmap_tab)
unfolding clear_all_portmaps
clear_all_portmaps-calls s saved = clear_mappings-lem s.portmap_tab

-- what `add_portmap` tells the NAT engine, for the address of the uplink
abbrev pub Told : ℕ → ℕ → ℕ → ℕ → ℕ → List NaptCall → Type 0
Told ip proto mport daddr dport calls =
    ((ip ≡ 0) × (calls ≡ [])) ⊎ ((ip ≢ 0) × (calls ≡ napt_add proto ip mport daddr dport ∷ []))

-- What `add_portmap` does when there is a free slot. The uplink's address is that of PPPoE, when
-- that is enabled.
pub record Mapped (s : Portmap) (proto mport daddr dport saved : ℕ) (r : Reply) : Type 0 where
  pub err : r.err ≡ saved
  pub calls : Told (if s.pppoe_enabled then s.pppoe_ip else s.my_ip) proto mport daddr dport r.calls
  pub slot : ℕ
  pub entry :
      get_or r.state.portmap_tab slot zero_mapping
      ≡ record { daddr = daddr; mport = mport; dport = dport; proto = proto; valid = 1; iface = 0 }
  pub more :
      count (is_mapping proto mport) r.state.portmap_tab
      ≡ suc (count (is_mapping proto mport) s.portmap_tab)
  pub others :
      (q m : ℕ)
      → ((q ≢ proto) ⊎ (m ≢ mport))
      → count (is_mapping q m) r.state.portmap_tab ≡ count (is_mapping q m) s.portmap_tab

get_or-set_same :
    (es : List PortmapEntry) (i : ℕ) (e : PortmapEntry)
    → i < length es
    → get_or (set es i e) i zero_mapping ≡ e
get_or-set_same [] i e h = absurd (omega (arith, h))
get_or-set_same (x ∷ es) zero e h = refl
get_or-set_same (x ∷ es) (suc i) e h = get_or-set_same es i e (omega (arith, h))

calls-Told :
    (ip proto mport daddr dport : ℕ)
    → Told ip proto mport daddr dport
        (if not (ip == 0) then add_call ip (new_mapping proto mport daddr dport) ∷ [] else [])
calls-Told ip proto mport daddr dport = elim (Bool-cases (ip == 0)) [
  | inl e ↦ inl ((==_iff ip 0).0 e, rw e refl)
  | inr e ↦ inr ((λ q. ground (arith, e, q)), rw e refl)
]

pub record Full (s : Portmap) (r : Reply) : Type 0 where
  pub unchanged : r.state ≡ s
  pub silent : r.calls ≡ []
  pub err : r.err ≡ portmap_no_mem
  pub all_mapped : mappings s ≡ s.portmap_tab

mapping_false :
    (proto mport : ℕ) (e : PortmapEntry) → is_mapped e ≡ false → is_mapping proto mport e ≡ false
mapping_false proto mport e h = ground (arith, h)

-- `add_portmap` on a table with a free slot puts the mapping there, so that there is one entry more
-- for the protocol and port, even if there is one already, and as many as before for every other
-- one; it tells the NAT engine of the mapping, at the uplink's address, exactly if that is not 0,
-- and answers what saving answered. On a full table it changes nothing, makes no call and answers
-- ESP_ERR_NO_MEM.
pub add_portmap-Mapped :
    (s : Portmap) (proto mport daddr dport saved : ℕ)
    → let r = add_portmap s proto mport daddr dport saved in
      Full s r ⊎ Mapped s proto mport daddr dport saved r
unfolding add_portmap
add_portmap-Mapped s proto mport daddr dport saved =
    elim (Option-cases (find_index (λ e. not (is_mapped e)) s.portmap_tab)) [
      | inl f ↦ rw f (
          inl (record {
            unchanged = refl;
            silent = refl;
            err = refl;
            all_mapped = keep-full is_mapped s.portmap_tab f;
          }))
      | inr (i, f) ↦
          let (x, there, ok, lt) = find_index-some (λ e. not (is_mapped e)) s.portmap_tab i f in
          let known = get_or_of_get_elem? s.portmap_tab i x zero_mapping there in
          let free : is_mapped (get_or s.portmap_tab i zero_mapping) ≡ false =
            rw known (ground (arith, ok)) in
          let old = get_or s.portmap_tab i zero_mapping in
          let new = new_mapping proto mport daddr dport in
          rw f (
            inr (record {
              err = refl;
              calls = calls-Told (bind_ip s) proto mport daddr dport;
              slot = i;
              entry = get_or-set_same s.portmap_tab i new lt;
              more =
                  count-set_in (is_mapping proto mport) s.portmap_tab i new zero_mapping lt
                    (mapping_false proto mport old free) (ground arith);
              others = λ q m h.
                  count-set_same (is_mapping q m) s.portmap_tab i new zero_mapping lt
                    (mapping_false q m old free ∙ sym (elsewhere q m h));
            }))
    ]
  where
    elsewhere :
        (q m : ℕ)
        → ((q ≢ proto) ⊎ (m ≢ mport))
        → is_mapping q m (new_mapping proto mport daddr dport) ≡ false
    elsewhere q m (inl h) = ground (arith, h)
    elsewhere q m (inr h) = ground (arith, h)

-- what `del_portmap` does when there is an entry for the protocol and port
pub record Unmapped (s : Portmap) (proto mport saved : ℕ) (r : Reply) : Type 0 where
  pub err : r.err ≡ saved
  pub calls : r.calls ≡ napt_remove proto mport ∷ []
  pub fewer :
      suc (count (is_mapping proto mport) r.state.portmap_tab)
      ≡ count (is_mapping proto mport) s.portmap_tab
  pub others :
      (q m : ℕ)
      → ((q ≢ proto) ⊎ (m ≢ mport))
      → count (is_mapping q m) r.state.portmap_tab ≡ count (is_mapping q m) s.portmap_tab

-- `del_portmap` takes out one entry of the protocol and port and makes one call to remove it, keeps
-- the number of entries of every other protocol and port, and answers what saving answered; if
-- there is no such entry it changes nothing, makes no call and answers ESP_OK.
pub del_portmap-Unmapped :
    (s : Portmap) (proto mport saved : ℕ)
    → let r = del_portmap s proto mport saved in
      ((r ≡ record { state = s; calls = []; err = portmap_ok })
        × Every (λ e. not (is_mapping proto mport e)) s.portmap_tab)
      ⊎ Unmapped s proto mport saved r
unfolding del_portmap
del_portmap-Unmapped s proto mport saved =
    elim (Option-cases (find_index (is_mapping proto mport) s.portmap_tab)) [
      | inl f ↦ rw f (inl (refl, find_index-none (is_mapping proto mport) s.portmap_tab f))
      | inr (i, f) ↦
          let (x, there, ok, lt) = find_index-some (is_mapping proto mport) s.portmap_tab i f in
          let known = get_or_of_get_elem? s.portmap_tab i x zero_mapping there in
          let old = get_or s.portmap_tab i zero_mapping in
          let mine : is_mapping proto mport old ≡ true = rw known ok in
          rw f (
            inr (record {
              err = refl;
              calls = refl;
              fewer = count-set_out (is_mapping proto mport) s.portmap_tab i (unmapped old) f refl;
              others = λ q m h.
                  count-set_same (is_mapping q m) s.portmap_tab i (unmapped old) zero_mapping lt
                    (not_mine q m old h mine);
            }))
    ]
  where
    not_mine :
        (q m : ℕ) (e : PortmapEntry)
        → ((q ≢ proto) ⊎ (m ≢ mport))
        → is_mapping proto mport e ≡ true
        → is_mapping q m e ≡ false
    not_mine q m e (inl h) t = ground (arith, h, t)
    not_mine q m e (inr h) t = ground (arith, h, t)
