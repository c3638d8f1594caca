-- ===== src/Wan/Blocks.antt =====
-- The rule that blocks the web port from the WAN (`update_web_wan_acl` in
-- components/cmd_router/cmd_router.c), in the packet filter of components/acl.
use Prim.Native.Nat.{digits, bit_and-bitwise}
use mathlib.Core.Option.{some-injective}
use esp32_pppo_e_router.Base.{
  bit_and, min, sym, ◌/◌, ◌%◌, ◌&&◌, ◌||◌, ◌==◌, get_elem?, Every, ℕ, zero, suc, ◌<◌, ◌≡◌, ◌⊎◌, inl,
  inr, refl, ap, ◌∙◌, arith, Bool-cases, Option-cases, Bool, true, false, not, some, List, [], ◌∷◌,
  ◌++◌, length, set, find_index, find_index-some, ltb, if◌then◌else◌, u16,
}
use esp32_pppo_e_router.Acl.{
  Acl, AclEntry, max_acl_entries, is_valid, new_entry, free_slot, acl_add,
}
use esp32_pppo_e_router.Acl.Table.{
  rules, IsListOk, Added, acl_add-Added, acl_delete-Deleted, free_slot-none,
}
use esp32_pppo_e_router.Acl.Table.Moves.{erase_at}
use esp32_pppo_e_router.Acl.Frame.{Headers}
use esp32_pppo_e_router.Acl.Check.Verdict.{Applies}
use esp32_pppo_e_router.Wan.{
  Router, get_config_param_int, to_esp, acl_proto_tcp, acl_deny, is_wan_block, update_web_wan_acl,
}

digits-zero : (n a : ℕ) → digits (λ b. zero) min n a 0 ≡ 0
digits-zero zero a = refl
digits-zero (suc n) zero = refl
digits-zero (suc n) (suc a) = omega (arith, digits-zero n (suc a / 2))

-- an address with the mask 0
no_mask : (a : ℕ) → bit_and a 0 ≡ 0
no_mask a = bit_and-bitwise a 0 ∙ digits-zero a a

get_elem?-set :
    (es : List AclEntry) (i : ℕ) (e : AclEntry) → i < length es → get_elem? (set es i e) i ≡ some e
get_elem?-set [] i e low = absurd (omega (arith, low))
get_elem?-set (x ∷ es) zero e low = refl
get_elem?-set (x ∷ es) (suc i) e low = get_elem?-set es i e (omega (arith, low))

Every-get_elem? :
    (p : AclEntry → Bool) (es : List AclEntry) (i : ℕ) (e : AclEntry)
    → Every p es
    → get_elem? es i ≡ some e
    → p e ≡ true
Every-get_elem? p [] i e h there = absurd (ground (arith, there))
Every-get_elem? p (x ∷ es) zero e h there = ap p (sym (some-injective _ _ there)) ∙ h.0
Every-get_elem? p (x ∷ es) (suc i) e h there = Every-get_elem? p es i e h.1 there

abbrev pub port_of : Router → ℕ
port_of r = get_config_param_int r.web_port 80

-- a rule that denies every TCP packet to the port
abbrev pub Denies : ℕ → AclEntry → Type 0
Denies port e =
    (is_valid e ≡ true)
    × (e.allow ≡ 0)
    × ((h : Headers) → h.proto ≡ 6 → h.dst_port ≡ port % 65536 → Applies h e)

-- a rule in the list that denies all that, or sixteen rules
abbrev pub Blocked : Router → Acl → Type 0
Blocked r s =
    ((slot : ℕ) × (e : AclEntry) × (get_elem? (s.lists to_esp) slot ≡ some e)
      × Denies (port_of r) e)
    ⊎ (length (rules s to_esp) ≡ max_acl_entries)

-- A rule that denies TCP to the port from and to the address 0 has the masks 0, for any address,
-- and no source port.
abbrev pub is_whole : ℕ → AclEntry → Bool
is_whole port e =
    not (e.proto == 6 && e.d_port == port % 65536 && e.allow == 0 && e.src == 0 && e.dest == 0)
    || (e.s_mask == 0 && e.d_mask == 0 && e.s_port == 0)

abbrev pub block_of : ℕ → AclEntry
block_of web_port = new_entry 0 0 0 0 acl_proto_tcp 0 (u16 web_port) acl_deny

masked_out :
    (port : ℕ) (h : Headers) (e : AclEntry)
    → e.proto ≡ 6
    → e.d_port ≡ port % 65536
    → e.src ≡ 0
    → e.dest ≡ 0
    → e.s_mask ≡ 0
    → e.d_mask ≡ 0
    → e.s_port ≡ 0
    → h.proto ≡ 6
    → h.dst_port ≡ port % 65536
    → Applies h e
masked_out port h e pr dp src dest sm dm sp hp hd = record {
  proto = inr (pr ∙ sym hp);
  src = ap (bit_and h.src_ip) sm ∙ no_mask h.src_ip ∙ sym src;
  dest = ap (bit_and h.dest_ip) dm ∙ no_mask h.dest_ip ∙ sym dest;
  ports = inr (inl hp, inl sp, inr (dp ∙ sym hd));
}

block_of-Denies : (port : ℕ) → Denies port (block_of port)
block_of-Denies port = (
  refl,
  refl,
  (λ h hp hd.
      masked_out port h (block_of port) refl refl (no_mask 0) (no_mask 0) refl refl refl hp hd),
)

-- What the code takes for a block is one, if it is whole.
is_wan_block-Denies :
    (port : ℕ) (e : AclEntry) → is_wan_block port e ≡ true → is_whole port e ≡ true → Denies port e
is_wan_block-Denies port e found whole = (
  ground (arith, found),
  ground (arith, found),
  (λ h hp hd.
      masked_out port h e (ground (arith, found)) (ground (arith, found)) (ground (arith, found))
        (ground (arith, found)) (ground (arith, found, whole)) (ground (arith, found, whole))
        (ground (arith, found, whole)) hp hd),
)

acl_add-Blocked :
    (r : Router)
    → IsListOk r.acl to_esp
    → Blocked r ((acl_add r.acl to_esp 0 0 0 0 acl_proto_tcp 0 (u16 (port_of r)) acl_deny).0)
unfolding acl_add
acl_add-Blocked r ok = elim (Option-cases (free_slot (r.acl.lists to_esp))) [
  | inl full ↦ rw full (inr (free_slot-none ok full))
  | inr (slot, free) ↦
      let (x, there, open_, low) =
        find_index-some (λ e. not (is_valid e)) (r.acl.lists to_esp) slot free in
      rw free (
        inl (
          slot,
          block_of (port_of r),
          get_elem?-set (r.acl.lists to_esp) slot (block_of (port_of r)) low,
          block_of-Denies (port_of r),
        ))
]

grown :
    (s : Acl) (e : AclEntry) (out : Acl × Bool)
    → Added s to_esp e out
    → (rules (out.0) to_esp ≡ rules s to_esp) ⊎ (rules (out.0) to_esp ≡ rules s to_esp ++ (e ∷ []))
grown s e out added =
    let chosen : Bool → List AclEntry =
      λ b. if b then rules s to_esp ++ (e ∷ []) else rules s to_esp in
    elim (Bool-cases (ltb (length (rules s to_esp)) max_acl_entries)) [
      | inl room ↦ inr (added.appended ∙ ap chosen room)
      | inr room ↦ inl (added.appended ∙ ap chosen room)
    ]

-- What `update_web_wan_acl` makes of the rules to the router, when it is to block: they stay, or a
-- rule follows them.
abbrev pub Blocking : Router → Acl → Type 0
Blocking r s =
    Blocked r s
    × IsListOk s to_esp
    × ((rules s to_esp ≡ rules r.acl to_esp)
        ⊎ (rules s to_esp ≡ rules r.acl to_esp ++ (block_of (port_of r) ∷ [])))

-- When the web port is to be blocked, the filter's list is well formed, and each rule of it that
-- denies TCP to the port from and to the address 0 has the masks 0 and no source port: afterwards
-- the list has, at some place, a rule that denies every TCP packet to the port, or it has sixteen
-- rules; the rules that were there stay, in their order, in front of at most one new rule, and the
-- list stays well formed.
pub update_web_wan_acl-blocks :
    (r : Router)
    → IsListOk r.acl to_esp
    → Every (is_whole (port_of r)) (r.acl.lists to_esp)
    → Blocking r (update_web_wan_acl false r).acl
unfolding update_web_wan_acl
update_web_wan_acl-blocks r ok whole =
    let added =
      acl_add-Added r.acl to_esp 0 0 0 0 acl_proto_tcp 0 (u16 (port_of r)) acl_deny (omega arith)
        ok in
    elim (Option-cases (find_index (is_wan_block (port_of r)) (r.acl.lists to_esp))) [
      | inl missing ↦ rw missing (acl_add-Blocked r ok, added.kept, grown r.acl _ _ added)
      | inr (slot, there) ↦
          let (e, at, found, low) =
            find_index-some (is_wan_block (port_of r)) (r.acl.lists to_esp) slot there in
          let denies =
            is_wan_block-Denies (port_of r) e found
              (Every-get_elem? (is_whole (port_of r)) (r.acl.lists to_esp) slot e whole at) in
          rw there (inl (slot, e, at, denies), ok, inl refl)
    ]

-- what it makes of them when it is to let in: the first rule that blocks the port goes
abbrev pub Unblocking : Router → Acl → Type 0
Unblocking r s =
    IsListOk s to_esp
    × ((rules s to_esp ≡ rules r.acl to_esp)
        ⊎ ((slot : ℕ) × (find_index (is_wan_block (port_of r)) (r.acl.lists to_esp) ≡ some slot)
            × (rules s to_esp ≡ erase_at (rules r.acl to_esp) slot)))

pub update_web_wan_acl-unblocks :
    (r : Router) → IsListOk r.acl to_esp → Unblocking r (update_web_wan_acl true r).acl
unfolding update_web_wan_acl
update_web_wan_acl-unblocks r ok =
    elim (Option-cases (find_index (is_wan_block (port_of r)) (r.acl.lists to_esp))) [
      | inl missing ↦ rw missing (ok, inl refl)
      | inr (slot, there) ↦
          let deleted = acl_delete-Deleted r.acl to_esp slot (omega arith) ok in
          rw there (deleted.kept, inr (slot, refl, deleted.erased))
    ]
