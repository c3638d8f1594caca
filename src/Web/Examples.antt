-- ===== src/Web/Examples.antt =====
-- Requests to the web pages (components/http_server/http_server.c).
use esp32_pppo_e_router.Base.{
  ℕ, ◌+◌, ◌≡◌, ◌≤◌, ◌⊎◌, ◌↔◌, refl, arith, true, false, Option, some, List, [], ◌∷◌, ◌++◌, length,
  take,
}
use esp32_pppo_e_router.Web.Cookie.{Text, get_cookie_value}
use esp32_pppo_e_router.Web.Cookie.Found.{IsCookie, get_cookie_value-Found}
use esp32_pppo_e_router.Web.Csrf.{http, origin_size, Addresses, check_csrf}
use esp32_pppo_e_router.Web.Csrf.Origins.{IsSame, IsOwn, check_csrf_iff}
use esp32_pppo_e_router.Web.Session.{
  Session, max_session_token_len, clear_session, generate_session_token, cookie_name,
  is_authenticated, Request, login, handle_all,
}
use esp32_pppo_e_router.Web.Session.Login.{Opened, is_authenticated-Opened}

-- "xsession=a; session=bc"
abbrev two_cookies : Text
two_cookies = 120 ∷ (cookie_name ++ (61 ∷ 97 ∷ 59 ∷ 32 ∷ (cookie_name ++ (61 ∷ 98 ∷ 99 ∷ []))))

second_found : get_cookie_value (some two_cookies) cookie_name 33 ≡ some (98 ∷ 99 ∷ [])
unfolding get_cookie_value
second_found = refl

get_cookie_value-Found_example :
    (value : Text) × IsCookie cookie_name two_cookies value × (98 ∷ 99 ∷ [] ≡ take 32 value)
get_cookie_value-Found_example =
    get_cookie_value-Found two_cookies cookie_name 33 (98 ∷ 99 ∷ []) (omega arith) second_found

abbrev no_session : Session
no_session =
    clear_session
      (record { session_active = false; current_session_token = []; session_expiry_time = 0 })

-- every random number is 11, a "b"
abbrev token : Text
token = generate_session_token (λ i. 11) max_session_token_len

abbrev requests : List Request
requests = login 1000 (λ i. 11) true true ∷ login 2000 (λ i. 12) true false ∷ []

abbrev cookie : Option Text
cookie = some (cookie_name ++ (61 ∷ token))

passes : (is_authenticated 3000 cookie (handle_all requests no_session)).0 ≡ true
unfolding is_authenticated handle_all get_cookie_value
passes = refl

is_authenticated-Opened_example :
    (shown : Text) × (get_cookie_value cookie cookie_name (max_session_token_len + 1) ≡ some shown)
    × Opened requests shown
is_authenticated-Opened_example =
    is_authenticated-Opened requests no_session 3000 cookie refl passes

abbrev addresses : Addresses
addresses = record { my_ap_ip = 1; my_ip = 0; pppoe_ip = 9; vpn_tunnel_ip = 0 }

-- one character for each address
abbrev shown_short : ℕ → Text
shown_short addr = (48 + addr) ∷ []

check_csrf_iff_example :
    (check_csrf shown_short addresses (some (97 ∷ [])) (some (http ++ 57 ∷ [])) ≡ true) ↔ (
      (origin_size ≤ length (http ++ 57 ∷ []))
      ⊎ IsSame (some (97 ∷ [])) (http ++ 57 ∷ [])
      ⊎ IsOwn shown_short addresses (http ++ 57 ∷ []))
check_csrf_iff_example =
    check_csrf_iff shown_short addresses (some (97 ∷ [])) (http ++ 57 ∷ []) (λ addr. omega arith)
