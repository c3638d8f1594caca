-- ===== src/Web/Session.antt =====
-- The session of the web pages (components/http_server/http_server.c): one token at a time, with
-- its expiry. Times are microseconds.
pub mod Login
use esp32_pppo_e_router.Base.{
  ℕ, zero, suc, ◌+◌, ◌*◌, ◌%◌, Bool, true, false, not, Option, none, some, List, [], ◌∷◌, length,
  map, ltb, ◌==◌, if◌then◌else◌,
}
use esp32_pppo_e_router.Base.Differ.{diff_of}
use esp32_pppo_e_router.Web.Cookie.{Text, get_cookie_value}

pub record Session : Type 0 where
  pub session_active : Bool
  pub current_session_token : Text
  pub session_expiry_time : ℕ

abbrev pub session_timeout_us : ℕ
session_timeout_us = 30 * 60 * 1000000

abbrev pub max_session_token_len : ℕ
max_session_token_len = 32

abbrev pub clear_session : Session → Session
clear_session s = record {
  session_active = false;
  current_session_token = [];
  session_expiry_time = 0;
}

-- a character of "0123456789abcdef"
abbrev pub hex_char : ℕ → ℕ
hex_char n = if ltb n 10 then 48 + n else 87 + n

-- `random i`: what `esp_random` gives with `i` characters left behind it
abbrev pub generate_session_token : (ℕ → ℕ) → ℕ → Text
generate_session_token random zero = []
generate_session_token random (suc left) =
    hex_char (random left % 16) ∷ generate_session_token random left

unfoldable pub create_session : ℕ → (ℕ → ℕ) → Session → Session
create_session now random s = record {
  session_active = true;
  current_session_token = generate_session_token random max_session_token_len;
  session_expiry_time = now + session_timeout_us;
}

-- "session"
abbrev pub cookie_name : Text
cookie_name = 115 ∷ 101 ∷ 115 ∷ 115 ∷ 105 ∷ 111 ∷ 110 ∷ []

abbrev compare_token : ℕ → Session → Option Text → Bool × Session
compare_token now s none = (false, s)
compare_token now s (some session_token) =
    if not (length session_token == length s.current_session_token)
    then (false, s)
    else if not (diff_of 0 session_token s.current_session_token == 0)
    then (false, s)
    else (true, record s { session_expiry_time = now + session_timeout_us })

-- `cookie`: the header "Cookie" of the request
unfoldable pub is_authenticated : ℕ → Option Text → Session → Bool × Session
is_authenticated now cookie s =
    if not s.session_active
    then (false, s)
    else if ltb s.session_expiry_time now
    then (false, clear_session s)
    else compare_token now s (get_cookie_value cookie cookie_name (max_session_token_len + 1))

-- What happens to the session: a login, with the result of the password check when a password is
-- set, a logout or a change of the password, and a page that asks for the session.
pub data Request : Type 0 where
  login : ℕ → (ℕ → ℕ) → Bool → Bool → Request
  log_out : Request
  page : ℕ → Option Text → Request

unfoldable pub handle : Request → Session → Session
unfolding create_session is_authenticated
handle (login now random password_set verified) s =
    if password_set then if verified then create_session now random s else s else s
handle log_out s = clear_session s
handle (page now cookie) s = (is_authenticated now cookie s).1

unfoldable pub handle_all : List Request → Session → Session
unfolding handle
handle_all [] s = s
handle_all (r ∷ rs) s = handle_all rs (handle r s)
