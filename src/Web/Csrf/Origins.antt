-- ===== src/Web/Csrf/Origins.antt =====
-- Which origins `check_csrf` (components/http_server/http_server.c) lets through.
use esp32_pppo_e_router.Base.{
  ℕ, ◌≤◌, ◌<◌, ◌≡◌, ◌⊎◌, ◌↔◌, inl, inr, refl, sym, ap, ◌∙◌, arith, Bool-cases, Bool, true, false,
  not, ◌&&◌, ◌||◌, Option, none, some, ◌++◌, length, ltb, ltb→lt, lt→ltb, ◌==◌, same_bytes→eq,
  same_bytes_refl, if◌then◌else◌,
}
use esp32_pppo_e_router.Base.Buffers.{take-all}
use esp32_pppo_e_router.Web.Csrf.{
  Text, header_value, origin_size, expected_host_room, expected_room, http, Addresses, is_host,
  is_address, is_ours, origin_allowed, check_csrf,
}

-- what is documented of an address that is printed: it has at most 15 characters
abbrev pub IsShort : (ℕ → Text) → Type 0
IsShort shown = (addr : ℕ) → length (shown addr) ≤ 15

-- The origin names an address of the router that is in use.
abbrev pub IsOwn : (ℕ → Text) → Addresses → Text → Type 0
IsOwn shown a origin =
    (origin ≡ http ++ shown a.my_ap_ip)
    ⊎ ((0 < a.my_ip) × (origin ≡ http ++ shown a.my_ip))
    ⊎ ((0 < a.pppoe_ip) × (origin ≡ http ++ shown a.pppoe_ip))
    ⊎ ((0 < a.vpn_tunnel_ip) × (origin ≡ http ++ shown a.vpn_tunnel_ip))

-- The origin names the host that the request is for, by a name of fewer than 64 characters.
abbrev pub IsSame : Option Text → Text → Type 0
IsSame none origin = ⊥
IsSame (some host) origin = (length host < origin_size) × (origin ≡ http ++ host)

is_address→eq :
    (shown : ℕ → Text) (addr : ℕ) (origin : Text)
    → IsShort shown
    → is_address shown addr origin ≡ true
    → origin ≡ http ++ shown addr
is_address→eq shown addr origin short h =
    same_bytes→eq origin _ h
    ∙ take-all expected_room (http ++ shown addr) (omega (arith, short addr))

eq→is_address :
    (shown : ℕ → Text) (addr : ℕ) (origin : Text)
    → IsShort shown
    → origin ≡ http ++ shown addr
    → is_address shown addr origin ≡ true
eq→is_address shown addr origin short e =
    let whole = take-all expected_room (http ++ shown addr) (omega (arith, short addr)) in
    rw (whole, e) (same_bytes_refl (http ++ shown addr))

in_use : (addr : ℕ) (b : Bool) → (not (addr == 0) && b) ≡ true → (0 < addr) × (b ≡ true)
in_use addr b h = ground (arith, h)

of_use : (addr : ℕ) (b : Bool) → 0 < addr → b ≡ true → (not (addr == 0) && b) ≡ true
of_use addr b low h = ground (arith, low, h)

first_of : (a b : Bool) → (a || b) ≡ true → (a ≡ true) ⊎ (b ≡ true)
first_of true b h = inl refl
first_of false b h = inr h

-- an address that is tested only while it is in use
used→eq :
    (shown : ℕ → Text) (addr : ℕ) (origin : Text)
    → IsShort shown
    → (not (addr == 0) && is_address shown addr origin) ≡ true
    → (0 < addr) × (origin ≡ http ++ shown addr)
used→eq shown addr origin short h =
    let (low, e) = in_use addr (is_address shown addr origin) h in
    (low, is_address→eq shown addr origin short e)

eq→used :
    (shown : ℕ → Text) (addr : ℕ) (origin : Text)
    → IsShort shown
    → 0 < addr
    → origin ≡ http ++ shown addr
    → (not (addr == 0) && is_address shown addr origin) ≡ true
eq→used shown addr origin short low e =
    of_use addr (is_address shown addr origin) low (eq→is_address shown addr origin short e)

or_first : (a b : Bool) → a ≡ true → (a || b) ≡ true
or_first true b h = refl
or_first false b h = absurd (ground (arith, h))

or_second : (a b : Bool) → b ≡ true → (a || b) ≡ true
or_second true b h = refl
or_second false b h = h

is_ours→IsOwn :
    (shown : ℕ → Text) (a : Addresses) (origin : Text)
    → IsShort shown
    → is_ours shown a origin ≡ true
    → IsOwn shown a origin
is_ours→IsOwn shown a origin short h = elim (first_of _ _ h) [
  | inr vpn ↦ inr (inr (inr (used→eq shown a.vpn_tunnel_ip origin short vpn)))
  | inl h' ↦ elim (first_of _ _ h') [
    | inr ppp ↦ inr (inr (inl (used→eq shown a.pppoe_ip origin short ppp)))
    | inl h'' ↦ elim (first_of _ _ h'') [
      | inr sta ↦ inr (inl (used→eq shown a.my_ip origin short sta))
      | inl ap ↦ inl (is_address→eq shown a.my_ap_ip origin short ap)
    ]
  ]
]

IsOwn→is_ours :
    (shown : ℕ → Text) (a : Addresses) (origin : Text)
    → IsShort shown
    → IsOwn shown a origin
    → is_ours shown a origin ≡ true
IsOwn→is_ours shown a origin short (inl e) =
    or_first _ _ (or_first _ _ (or_first _ _ (eq→is_address shown a.my_ap_ip origin short e)))
IsOwn→is_ours shown a origin short (inr (inl (low, e))) =
    or_first _ _ (or_first _ _ (or_second _ _ (eq→used shown a.my_ip origin short low e)))
IsOwn→is_ours shown a origin short (inr (inr (inl (low, e)))) =
    or_first _ _ (or_second _ _ (eq→used shown a.pppoe_ip origin short low e))
IsOwn→is_ours shown a origin short (inr (inr (inr (low, e)))) =
    or_second _ _ (eq→used shown a.vpn_tunnel_ip origin short low e)

is_host→IsSame :
    (host : Option Text) (origin : Text)
    → is_host (header_value origin_size host) origin ≡ true
    → IsSame host origin
is_host→IsSame none origin h = absurd (ground (arith, h))
is_host→IsSame (some host) origin h = fits (Bool-cases (ltb (length host) origin_size)) h
  where
    fits :
        (ltb (length host) origin_size ≡ true) ⊎ (ltb (length host) origin_size ≡ false)
        → is_host (if ltb (length host) origin_size then some host else none) origin ≡ true
        → (length host < origin_size) × (origin ≡ http ++ host)
    fits (inl short) h' =
        let low = ltb→lt (length host) origin_size short in
        let same : is_host (some host) origin ≡ true =
          sym (ap (λ b. is_host (if b then some host else none) origin) short) ∙ h' in
        (
          low,
          same_bytes→eq origin _ same
              ∙ take-all expected_host_room (http ++ host) (omega (arith, low)),
        )
    fits (inr long) h' =
        let nothing : false ≡ true =
          sym (ap (λ b. is_host (if b then some host else none) origin) long) ∙ h' in
        absurd (ground (arith, nothing))

IsSame→is_host :
    (host : Option Text) (origin : Text)
    → IsSame host origin
    → is_host (header_value origin_size host) origin ≡ true
IsSame→is_host none origin h = elim h [ ]
IsSame→is_host (some host) origin (low, e) =
    let short = lt→ltb (length host) origin_size low in
    let whole = take-all expected_host_room (http ++ host) (omega (arith, low)) in
    rw (short, whole, e) (same_bytes_refl (http ++ host))

passed :
    (shown : ℕ → Text) (a : Addresses) (host : Option Text) (origin : Text)
    → IsShort shown
    → origin_allowed shown a host (some origin) ≡ true
    → IsSame host origin ⊎ IsOwn shown a origin
passed shown a host origin short h =
    elim (Bool-cases (is_host (header_value origin_size host) origin)) [
      | inl same ↦ inl (is_host→IsSame host origin same)
      | inr other ↦ inr (
          is_ours→IsOwn shown a origin short
            (sym (ap (λ b. if b then true else is_ours shown a origin) other) ∙ h))
    ]

passes :
    (shown : ℕ → Text) (a : Addresses) (host : Option Text) (origin : Text)
    → IsShort shown
    → IsSame host origin ⊎ IsOwn shown a origin
    → origin_allowed shown a host (some origin) ≡ true
passes shown a host origin short (inl same) = rw (IsSame→is_host host origin same) refl
passes shown a host origin short (inr own) =
    elim (Bool-cases (is_host (header_value origin_size host) origin)) [
      | inl same ↦ rw same refl
      | inr other ↦ rw other (IsOwn→is_ours shown a origin short own)
    ]

-- A request with an origin passes exactly when the origin is that of the host it is for, or of an
-- address of the router in use, or has 64 characters or more: such an origin is taken for none.
-- An address is printed in at most 15 characters.
pub check_csrf_iff :
    (shown : ℕ → Text) (a : Addresses) (host : Option Text) (origin : Text)
    → IsShort shown
    → (check_csrf shown a host (some origin) ≡ true)
      ↔ ((origin_size ≤ length origin) ⊎ IsSame host origin ⊎ IsOwn shown a origin)
unfolding check_csrf
check_csrf_iff shown a host origin short = elim (Bool-cases (ltb (length origin) origin_size)) [
  | inr long ↦ (λ h. inl (ground (arith, long)), λ h. rw long refl)
  | inl fits ↦ (
    λ h. inr (
        passed shown a host origin short
          (sym (ap (λ b. origin_allowed shown a host (if b then some origin else none)) fits) ∙ h)),
    λ h. elim h [
      | inl long ↦ absurd (ground (arith, fits, long))
      | inr known ↦ rw fits (passes shown a host origin short known)
    ],
  )
]
