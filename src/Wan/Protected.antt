-- ===== src/Wan/Protected.antt =====
-- There is no access from the WAN without a password (components/cmd_router/cmd_router.c,
-- components/http_server/http_server.c).
use esp32_pppo_e_router.Base.{
  ℕ, ◌+◌, ◌≡◌, refl, sym, ◌∙◌, arith, inl, inr, Bool-cases, Bool, true, false, not, ◌&&◌, ◌||◌,
  Option, none, some, List, [], ◌∷◌, ◌++◌, length, length-append, find_index, leb, ltb, ◌==◌,
  same_bytes, same_bytes→eq, if◌then◌else◌,
}
use esp32_pppo_e_router.Password.{
  Text, pw_bytes_to_hex, colon, hashed_text, is_hashed, is_web_password_set,
  set_web_password_hashed, verify_web_password,
}
use esp32_pppo_e_router.Wan.{
  Router, set_config_param_int, update_web_wan_acl, wan_on, password_cleared, new_password,
  set_router_password_cmd, wan_access_cmd, web_port_cmd, web_new_password, check_password, Call,
  by_set_router_password, by_wan_access, by_web_port, by_web_page, by_login, perform, perform_all,
}

-- the access from the WAN is on while there is no password
abbrev pub is_open : Router → Bool
is_open r = wan_on r && not (is_web_password_set r.web_password)

abbrev pub Protected : Router → Type 0
Protected r = is_open r ≡ false

Protected-if :
    (b : Bool) (x y : Router) → Protected x → Protected y → Protected (if b then x else y)
Protected-if true x y h k = h
Protected-if false x y h k = k

with_password :
    (b : Bool) (stored : Option Text)
    → is_web_password_set stored ≡ true
    → (b && not (is_web_password_set stored)) ≡ false
with_password true stored h = rw h refl
with_password false stored h = refl

set_web_password_hashed-is_set :
    (sha256 : List ℕ → List ℕ) (ok : Bool) (salt : List ℕ) (c : ℕ) (cs : Text) (old : Option Text)
    → is_web_password_set (set_web_password_hashed sha256 ok salt (c ∷ cs) old)
      ≡ (if ok then true else is_web_password_set old)
unfolding set_web_password_hashed is_web_password_set
set_web_password_hashed-is_set sha256 false salt c cs old =
    let filled : (length (c ∷ cs) == 0) ≡ false = ground arith in rw filled refl
set_web_password_hashed-is_set sha256 true salt c cs old =
    let filled : (length (c ∷ cs) == 0) ≡ false = ground arith in
    let long : ltb 1 (length (hashed_text sha256 salt (c ∷ cs)) + 1) ≡ true = ground (
      arith,
      length-append (pw_bytes_to_hex salt) (colon ∷ pw_bytes_to_hex (sha256 (salt ++ c ∷ cs))),
    ) in
    rw (filled, long) refl

update_web_wan_acl-Protected :
    (wan : Bool) (r : Router) → Protected r → Protected (update_web_wan_acl wan r)
unfolding update_web_wan_acl
update_web_wan_acl-Protected wan r h = h

-- without access from the WAN nothing is open
closed : (r : Router) → wan_on r ≡ false → Protected r
closed r off = rw off refl

password_cleared-Protected : (r : Router) → Protected (password_cleared true r)
unfolding password_cleared
password_cleared-Protected r =
    let shut : Router = record r { wan_access = set_config_param_int true 0 r.wan_access } in
    let off : wan_on shut ≡ false = refl in
    elim (Bool-cases (wan_on r)) [
      | inl on ↦ rw on (update_web_wan_acl-Protected false shut (closed shut off))
      | inr on ↦ rw on (closed r on)
    ]

set_web_password_hashed-unwritable :
    (sha256 : List ℕ → List ℕ) (salt : List ℕ) (plaintext : Text) (old : Option Text)
    → set_web_password_hashed sha256 false salt plaintext old ≡ old
unfolding set_web_password_hashed
set_web_password_hashed-unwritable sha256 salt plaintext old =
    elim (Bool-cases (length plaintext == 0)) [ inl e ↦ rw e refl | inr e ↦ rw e refl ]

-- the write of "wan_access" does not fail behind a password write that succeeded
abbrev pub Follows : Bool → Bool → Type 0
Follows ok wan_ok = (ok && not wan_ok) ≡ false

new_password-Protected :
    (sha256 : List ℕ → List ℕ) (ok wan_ok : Bool) (salt plaintext : List ℕ) (r : Router)
    → Follows ok wan_ok
    → Protected r
    → Protected (new_password sha256 ok wan_ok salt plaintext r)
unfolding new_password
new_password-Protected sha256 false wan_ok salt plaintext r follows h =
    rw (set_web_password_hashed-unwritable sha256 salt plaintext r.web_password) h
new_password-Protected sha256 true false salt plaintext r follows h =
    absurd (ground (arith, follows))
new_password-Protected sha256 true true salt [] r follows h =
    password_cleared-Protected
      (record r { web_password = set_web_password_hashed sha256 true salt [] r.web_password })
new_password-Protected sha256 true true salt (c ∷ cs) r follows h =
    let filled : (length (c ∷ cs) == 0) ≡ false = ground arith in
    rw filled (
      with_password (wan_on r) _
        (set_web_password_hashed-is_set sha256 true salt c cs r.web_password))

kept-if :
    (b v : Bool) (x y : Bool × Option Text)
    → is_web_password_set (x.1) ≡ v
    → is_web_password_set (y.1) ≡ v
    → is_web_password_set ((if b then x else y).1) ≡ v
kept-if true v x y h k = h
kept-if false v x y h k = k

some_is_set : (c : ℕ) (cs : Text) → is_web_password_set (some (c ∷ cs)) ≡ true
unfolding is_web_password_set
some_is_set c cs = ground arith

-- A login does not change whether a password is set.
verify_web_password-is_set :
    (sha256 : List ℕ → List ℕ) (scan : Text → Option ℕ) (memory ok : Bool) (salt : List ℕ)
    (plaintext : Text) (stored : Option Text)
    → is_web_password_set ((verify_web_password sha256 scan memory ok salt plaintext stored).1)
      ≡ is_web_password_set stored
unfolding verify_web_password
verify_web_password-is_set sha256 scan memory ok salt plaintext none = refl
verify_web_password-is_set sha256 scan memory ok salt plaintext (some []) = refl
verify_web_password-is_set sha256 scan memory ok salt plaintext (some (c ∷ cs)) =
    let renewed : Bool × Option Text =
      if same_bytes (c ∷ cs) plaintext
      then (true, set_web_password_hashed sha256 ok salt plaintext (some (c ∷ cs)))
      else (false, some (c ∷ cs)) in
    let migrated : is_web_password_set (renewed.1) ≡ is_web_password_set (some (c ∷ cs)) =
      elim (Bool-cases (same_bytes (c ∷ cs) plaintext)) [
        | inl same ↦
            rw (same, sym (same_bytes→eq (c ∷ cs) plaintext same))
              (set_web_password_hashed-is_set sha256 ok salt c cs (some (c ∷ cs))
                ∙ either ok (some_is_set c cs))
        | inr same ↦ rw same refl
      ] in
    kept-if (leb (length (c ∷ cs) + 1) 1 || not memory) _ _ _ refl
      (kept-if (is_hashed (c ∷ cs) (find_index (λ d. d == colon) (c ∷ cs))) _ _ _ refl migrated)
  where
    either : {b : Bool} (ok : Bool) → b ≡ true → (if ok then true else b) ≡ b
    either true h = sym h
    either false h = refl

wan_access_cmd-Protected :
    (ok : Bool) (val : Option Bool) (r : Router) → Protected r → Protected (wan_access_cmd ok val r)
unfolding wan_access_cmd
wan_access_cmd-Protected ok none r h = h
wan_access_cmd-Protected ok (some false) r h =
    Protected-if ok _ _ (update_web_wan_acl-Protected false (record r { wan_access = some 0 }) refl)
      h
wan_access_cmd-Protected ok (some true) r h =
    elim (Bool-cases (is_web_password_set r.web_password)) [
      | inl set_ ↦ rw set_ (
          Protected-if ok _ _
            (update_web_wan_acl-Protected true (record r { wan_access = some 1 })
              (with_password true r.web_password set_))
            h)
      | inr set_ ↦ rw set_ h
    ]

-- of the writes of a call, that of "wan_access" does not fail behind one of the password
abbrev pub Reliable : Call → Type 0
Reliable (by_set_router_password ok wan_ok salt text) = Follows ok wan_ok
Reliable (by_wan_access ok val) = Unit
Reliable (by_web_port ok port) = Unit
Reliable (by_web_page ok wan_ok salt same_origin authenticated param param2) = Follows ok wan_ok
Reliable (by_login memory ok salt text) = Unit

abbrev pub AreReliable : List Call → Type 0
AreReliable [] = Unit
AreReliable (c ∷ cs) = Reliable c × AreReliable cs

perform-Protected :
    (sha256 : List ℕ → List ℕ) (scan : Text → Option ℕ) (c : Call) (r : Router)
    → Reliable c
    → Protected r
    → Protected (perform sha256 scan c r)
unfolding perform set_router_password_cmd web_port_cmd web_new_password check_password
perform-Protected sha256 scan (by_set_router_password ok wan_ok salt none) r f h = h
perform-Protected sha256 scan (by_set_router_password ok wan_ok salt (some plaintext)) r f h =
    new_password-Protected sha256 ok wan_ok salt plaintext r f h
perform-Protected sha256 scan (by_wan_access ok val) r f h = wan_access_cmd-Protected ok val r h
perform-Protected sha256 scan (by_web_port ok port) r f h =
    Protected-if (ltb port 1 || ltb 65535 port) _ _ h h
perform-Protected sha256 scan (by_web_page ok wan_ok salt same_origin authenticated param param2) r
      f h =
    Protected-if (not same_origin) _ _ h (
      Protected-if (authenticated || not (is_web_password_set r.web_password)) _ _
        (Protected-if (same_bytes param param2) _ _
          (new_password-Protected sha256 ok wan_ok salt param r f h) h)
        h)
perform-Protected sha256 scan (by_login memory ok salt text) r f h =
    rw (verify_web_password-is_set sha256 scan memory ok salt text r.web_password) h

-- No sequence of password changes, logins, and switches of the access and the port, from the
-- console or the web page, leads from a router that is protected to one whose access from the WAN
-- is on while there is no password: provided that behind a write of the password that succeeds, the
-- write that switches the access off does not fail. Any other write may fail.
pub perform_all-Protected :
    (sha256 : List ℕ → List ℕ) (scan : Text → Option ℕ) (cs : List Call) (r : Router)
    → AreReliable cs
    → Protected r
    → Protected (perform_all sha256 scan cs r)
unfolding perform_all
perform_all-Protected sha256 scan [] r f h = h
perform_all-Protected sha256 scan (c ∷ cs) r f h =
    perform_all-Protected sha256 scan cs (perform sha256 scan c r) f.1
      (perform-Protected sha256 scan c r f.0 h)
