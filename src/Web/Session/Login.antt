-- ===== src/Web/Session/Login.antt =====
-- Who passes `is_authenticated` (components/http_server/http_server.c).
use esp32_pppo_e_router.Base.{
  ℕ, ◌+◌, ◌≤◌, ◌≡◌, ◌⊎◌, ◌↔◌, inl, inr, refl, sym, ap, ◌∙◌, arith, Bool-cases, Bool, true, false,
  not, Option, none, some, List, [], ◌∷◌, ◌++◌, length, ltb, ◌==◌, same_bytes, same_bytes→eq,
  same_bytes_refl, if◌then◌else◌,
}
use esp32_pppo_e_router.Base.Differ.{diff_of, diff_of-same_bytes}
use esp32_pppo_e_router.Web.Cookie.{Text, get_cookie_value}
use esp32_pppo_e_router.Web.Session.{
  Session, session_timeout_us, max_session_token_len, clear_session, generate_session_token,
  create_session, cookie_name, compare_token, is_authenticated, Request, login, log_out, page,
  handle, handle_all,
}

other_size : (v w : Text) → (length v == length w) ≡ false → same_bytes v w ≡ false
other_size v w size = elim (Bool-cases (same_bytes v w)) [
  | inl e ↦
      let same : length v ≡ length w = ap length (same_bytes→eq v w e) in
      absurd (ground (arith, same, size))
  | inr e ↦ e
]

-- The comparison of the token passes exactly for the token.
compare_token-same :
    (now : ℕ) (s : Session) (v : Text)
    → (compare_token now s (some v)).0 ≡ same_bytes v s.current_session_token
compare_token-same now s v = elim (Bool-cases (length v == length s.current_session_token)) [
  | inl size ↦
      let same = diff_of-same_bytes v s.current_session_token (ground (arith, size)) in
      elim (Bool-cases (same_bytes v s.current_session_token)) [
        | inl e ↦ rw (size, same, e) refl
        | inr e ↦ rw (size, same, e) refl
      ]
  | inr size ↦ rw size (sym (other_size v s.current_session_token size))
]

-- A request that passes: there is a session, it has not expired, and the cookie is its token.
abbrev pub IsHolder : ℕ → Option Text → Session → Type 0
IsHolder now cookie s =
    (s.session_active ≡ true)
    × (now ≤ s.session_expiry_time)
    × (get_cookie_value cookie cookie_name (max_session_token_len + 1)
        ≡ some s.current_session_token)

compare_token-IsHolder :
    (now : ℕ) (s : Session) (o : Option Text)
    → (compare_token now s o).0 ≡ true
    → o ≡ some s.current_session_token
compare_token-IsHolder now s none h = absurd (ground (arith, h))
compare_token-IsHolder now s (some v) h =
    ap some (same_bytes→eq v s.current_session_token (sym (compare_token-same now s v) ∙ h))

not_expired : (a b : ℕ) → a ≤ b → ltb b a ≡ false
not_expired a b h = ground arith

still_on : (a b : ℕ) → ltb b a ≡ false → a ≤ b
still_on a b h = ground arith

decided :
    (on late : Bool) (x y r : Bool × Session)
    → x.0 ≡ false
    → y.0 ≡ false
    → (if not on then x else if late then y else r).0 ≡ true
    → (on ≡ true) × (late ≡ false) × (r.0 ≡ true)
decided true true x y r f g h = absurd (ground (arith, g, h))
decided true false x y r f g h = (refl, refl, h)
decided false late x y r f g h = absurd (ground (arith, f, h))

is_authenticated-IsHolder :
    (now : ℕ) (cookie : Option Text) (s : Session)
    → (is_authenticated now cookie s).0 ≡ true
    → IsHolder now cookie s
unfolding is_authenticated
is_authenticated-IsHolder now cookie s h =
    let found = get_cookie_value cookie cookie_name (max_session_token_len + 1) in
    let (on, in_time, same) =
      decided s.session_active (ltb s.session_expiry_time now) (false, s) (false, clear_session s)
        (compare_token now s found) refl refl h in
    (on, still_on now s.session_expiry_time in_time, compare_token-IsHolder now s found same)

compare_token-own :
    (now : ℕ) (s : Session)
    → compare_token now s (some s.current_session_token)
      ≡ (true, record s { session_expiry_time = now + session_timeout_us })
compare_token-own now s =
    let token = s.current_session_token in
    let size : (length token == length token) ≡ true = ground arith in
    rw (size, diff_of-same_bytes token token refl, same_bytes_refl token) refl

in_time_compare :
    (now : ℕ) (cookie : Option Text) (s : Session)
    → s.session_active ≡ true
    → now ≤ s.session_expiry_time
    → is_authenticated now cookie s
      ≡ compare_token now s (get_cookie_value cookie cookie_name (max_session_token_len + 1))
unfolding is_authenticated
in_time_compare now cookie s on in_time =
    rw (on, not_expired now s.session_expiry_time in_time) refl

IsHolder-is_authenticated :
    (now : ℕ) (cookie : Option Text) (s : Session)
    → IsHolder now cookie s
    → is_authenticated now cookie s
      ≡ (true, record s { session_expiry_time = now + session_timeout_us })
IsHolder-is_authenticated now cookie s (on, in_time, same) =
    in_time_compare now cookie s on in_time
    ∙ ap (compare_token now s) same
    ∙ compare_token-own now s

-- A request passes exactly when there is a session, it has not expired, and the request's cookie
-- is its token.
pub is_authenticated_iff :
    (now : ℕ) (cookie : Option Text) (s : Session)
    → ((is_authenticated now cookie s).0 ≡ true) ↔ IsHolder now cookie s
is_authenticated_iff now cookie s = (
  is_authenticated-IsHolder now cookie s,
  λ holder. ap (λ r. r.0) (IsHolder-is_authenticated now cookie s holder),
)

abbrev pub NoLogout : List Request → Type 0
NoLogout [] = Unit
NoLogout (log_out ∷ rs) = ⊥
NoLogout (login now random password_set verified ∷ rs) = NoLogout rs
NoLogout (page now cookie ∷ rs) = NoLogout rs

-- a login whose password was checked, with no logout behind it
abbrev pub Opened : List Request → Text → Type 0
Opened rs token =
    (before : List Request) × (now : ℕ) × (random : ℕ → ℕ) × (after : List Request) × (rs
      ≡ before ++ (login now random true true ∷ after))
    × (token ≡ generate_session_token random max_session_token_len)
    × NoLogout after

-- the session that was there, or one that was opened since
Continued : List Request → Session → Text → Type 0
Continued rs s token =
    (NoLogout rs × (s.session_active ≡ true) × (token ≡ s.current_session_token)) ⊎ Opened rs token

-- a session that is over, or the same one
Same : Session → Session → Type 0
Same s t =
    (t.session_active ≡ false)
    ⊎ ((t.session_active ≡ s.session_active) × (t.current_session_token ≡ s.current_session_token))

Same-if :
    (s : Session) (b : Bool) (x y : Bool × Session)
    → Same s (x.1)
    → Same s (y.1)
    → Same s ((if b then x else y).1)
Same-if s true x y h k = h
Same-if s false x y h k = k

compare_token-Same : (now : ℕ) (s : Session) (o : Option Text) → Same s ((compare_token now s o).1)
unfolding Same
compare_token-Same now s none = inr (refl, refl)
compare_token-Same now s (some v) =
    Same-if s (not (length v == length s.current_session_token)) (false, s) _ (inr (refl, refl))
      (Same-if s (not (diff_of 0 v s.current_session_token == 0)) (false, s)
        (true, record s { session_expiry_time = now + session_timeout_us }) (inr (refl, refl))
        (inr (refl, refl)))

-- What a page asks for opens no session and changes no token.
is_authenticated-Same :
    (now : ℕ) (cookie : Option Text) (s : Session) → Same s ((is_authenticated now cookie s).1)
unfolding is_authenticated Same
is_authenticated-Same now cookie s =
    Same-if s (not s.session_active) (false, s) _ (inr (refl, refl))
      (Same-if s (ltb s.session_expiry_time now) (false, clear_session s) _ (inl refl)
        (compare_token-Same now s
          (get_cookie_value cookie cookie_name (max_session_token_len + 1))))

-- one request in front
in_front :
    (r : Request) (rs : List Request) (token : Text) → Opened rs token → Opened (r ∷ rs) token
in_front r rs token (before, now, random, after, e, same, kept) =
    (r ∷ before, now, random, after, ap (λ q. r ∷ q) e, same, kept)

on_and_off : (b : Bool) → b ≡ true → b ≡ false → ⊥
on_and_off b h k = ground (arith, h, k)

Continued-request :
    (r : Request) (rs : List Request) (s : Session) (token : Text)
    → NoLogout rs
    → (handle r s).session_active ≡ true
    → token ≡ (handle r s).current_session_token
    → Continued (r ∷ rs) s token
unfolding handle create_session Continued Same
Continued-request log_out rs s token kept on same = absurd (ground (arith, on))
Continued-request (login now random true true) rs s token kept on same =
    inr ([], now, random, rs, refl, same, kept)
Continued-request (login now random true false) rs s token kept on same = inl (kept, on, same)
Continued-request (login now random false verified) rs s token kept on same = inl (kept, on, same)
Continued-request (page now cookie) rs s token kept on same =
    elim (is_authenticated-Same now cookie s) [
      | inl off ↦ absurd (on_and_off _ on off)
      | inr (active, token_same) ↦ inl (kept, sym active ∙ on, same ∙ token_same)
    ]

handle_all-Continued :
    (rs : List Request) (s : Session)
    → (handle_all rs s).session_active ≡ true
    → Continued rs s (handle_all rs s).current_session_token
unfolding handle_all Continued
handle_all-Continued [] s on = inl (tt, on, refl)
handle_all-Continued (r ∷ rs) s on = elim (handle_all-Continued rs (handle r s) on) [
  | inl (kept, on', same) ↦ Continued-request r rs s _ kept on' same
  | inr opened ↦ inr (in_front r rs _ opened)
]

-- With no session to begin with, whatever requests there are: a request that passes behind them
-- shows in its cookie the token of a login whose password was checked, with no logout since.
pub is_authenticated-Opened :
    (rs : List Request) (s : Session) (now : ℕ) (cookie : Option Text)
    → s.session_active ≡ false
    → (is_authenticated now cookie (handle_all rs s)).0 ≡ true
    → (token : Text) × (get_cookie_value cookie cookie_name (max_session_token_len + 1)
        ≡ some token)
      × Opened rs token
unfolding Continued
is_authenticated-Opened rs s now cookie off passes =
    let (on, in_time, same) = is_authenticated-IsHolder now cookie (handle_all rs s) passes in
    (
      (handle_all rs s).current_session_token,
      same,
      elim (handle_all-Continued rs s on) [
        | inl (kept, on', token) ↦ absurd (on_and_off s.session_active on' off)
        | inr opened ↦ opened
      ],
    )
