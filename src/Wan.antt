-- ===== src/Wan.antt =====
-- Access from the WAN (components/cmd_router/cmd_router.c, components/http_server/http_server.c):
-- the setting "wan_access", the password that it needs, and the rule that blocks the web port.
-- Whether a setting takes a value is an argument, for each write of its own: `ok` for the first,
-- `wan_ok` for that of "wan_access" behind a cleared password.
pub mod Protected
pub mod Blocks
mod Examples
use esp32_pppo_e_router.Base.{
  ℕ, Bool, true, false, not, ◌&&◌, ◌||◌, Option, none, some, List, [], ◌∷◌, length, find_index, leb,
  ltb, ◌==◌, same_bytes, if◌then◌else◌, u16,
}
use esp32_pppo_e_router.Acl.{Acl, AclEntry, is_valid, acl_add, acl_delete}
use esp32_pppo_e_router.Password.{
  Text, is_web_password_set, set_web_password_hashed, verify_web_password,
}

-- the settings, and the packet filter
pub record Router : Type 0 where
  pub web_password : Option Text
  pub wan_access : Option ℕ
  pub web_port : Option ℕ
  pub acl : Acl

-- a setting, with the value that the variable has before
abbrev pub get_config_param_int : Option ℕ → ℕ → ℕ
get_config_param_int none value = value
get_config_param_int (some stored) value = stored

abbrev pub set_config_param_int : Bool → ℕ → Option ℕ → Option ℕ
set_config_param_int ok value old = if ok then some value else old

abbrev pub acl_proto_tcp : ℕ
acl_proto_tcp = 6

abbrev pub acl_deny : ℕ
acl_deny = 0

abbrev pub to_esp : ℕ
to_esp = 0

-- the rule that blocks the web port
abbrev pub is_wan_block : ℕ → AclEntry → Bool
is_wan_block web_port e =
    is_valid e
    && e.proto == acl_proto_tcp
    && e.d_port == u16 web_port
    && e.allow == acl_deny
    && e.src == 0
    && e.dest == 0

abbrev pub install_block : Acl → ℕ → Option ℕ → Acl
install_block s web_port none = (acl_add s to_esp 0 0 0 0 acl_proto_tcp 0 (u16 web_port) acl_deny).0
install_block s web_port (some slot) = s

abbrev pub remove_block : Acl → Option ℕ → Acl
remove_block s none = s
remove_block s (some slot) = (acl_delete s to_esp slot).0

-- `wan`: the argument is not 0
unfoldable pub update_web_wan_acl : Bool → Router → Router
update_web_wan_acl wan r =
    let web_port = get_config_param_int r.web_port 80 in
    let slot = find_index (is_wan_block web_port) (r.acl.lists to_esp) in
    record r { acl = if wan then remove_block r.acl slot else install_block r.acl web_port slot }

abbrev pub wan_on : Router → Bool
wan_on r = not (get_config_param_int r.wan_access 0 == 0)

-- A password that has been cleared takes the access from the WAN with it. The result of the write
-- is not looked at.
abbrev pub password_cleared : Bool → Router → Router
unfolding update_web_wan_acl
password_cleared wan_ok r =
    if wan_on r
    then update_web_wan_acl false
        (record r { wan_access = set_config_param_int wan_ok 0 r.wan_access })
    else r

-- the setting of a password, from the console and from the web page, where it succeeds
unfoldable pub new_password : (List ℕ → List ℕ) → Bool → Bool → List ℕ → Text → Router → Router
unfolding update_web_wan_acl
new_password sha256 ok wan_ok salt plaintext r =
    let stored : Router = record r {
      web_password = set_web_password_hashed sha256 ok salt plaintext r.web_password;
    } in
    if not ok
    then stored
    else if length plaintext == 0
    then password_cleared wan_ok stored
    else stored

-- `set_router_password`, with its argument when there is one
unfoldable pub set_router_password_cmd :
    (List ℕ → List ℕ) → Bool → Bool → List ℕ → Option Text → Router → Router
unfolding new_password
set_router_password_cmd sha256 ok wan_ok salt none r = r
set_router_password_cmd sha256 ok wan_ok salt (some plaintext) r =
    new_password sha256 ok wan_ok salt plaintext r

-- `web_ui wan_access`, with its argument when there is one: whether it is "on", "enable" or "1"
unfoldable pub wan_access_cmd : Bool → Option Bool → Router → Router
unfolding update_web_wan_acl
wan_access_cmd ok none r = r
wan_access_cmd ok (some val) r =
    if val && not (is_web_password_set r.web_password)
    then r
    else if ok
    then update_web_wan_acl val (record r { wan_access = some (if val then 1 else 0) })
    else r

-- `web_ui port`, with the number of its argument
unfoldable pub web_port_cmd : Bool → ℕ → Router → Router
web_port_cmd ok port r =
    if ltb port 1 || ltb 65535 port
    then r
    else record r { web_port = set_config_param_int ok port r.web_port }

-- The password change on the web page: the two fields, whether the origin is the router's, and
-- whether the request has a session.
unfoldable pub web_new_password :
    (List ℕ → List ℕ) → Bool → Bool → List ℕ → Bool → Bool → Text → Text → Router → Router
unfolding new_password
web_new_password sha256 ok wan_ok salt same_origin authenticated param param2 r =
    if not same_origin
    then r
    else if authenticated || not (is_web_password_set r.web_password)
    then if same_bytes param param2 then new_password sha256 ok wan_ok salt param r else r
    else r

-- a login, which may store the password anew
unfoldable pub check_password :
    (List ℕ → List ℕ) → (Text → Option ℕ) → Bool → Bool → List ℕ → Text → Router → Router
check_password sha256 scan memory ok salt plaintext r = record r {
  web_password = (verify_web_password sha256 scan memory ok salt plaintext r.web_password).1;
}

pub data Call : Type 0 where
  by_set_router_password : Bool → Bool → List ℕ → Option Text → Call
  by_wan_access : Bool → Option Bool → Call
  by_web_port : Bool → ℕ → Call
  by_web_page : Bool → Bool → List ℕ → Bool → Bool → Text → Text → Call
  by_login : Bool → Bool → List ℕ → Text → Call

unfoldable pub perform : (List ℕ → List ℕ) → (Text → Option ℕ) → Call → Router → Router
unfolding set_router_password_cmd wan_access_cmd web_port_cmd web_new_password check_password
perform sha256 scan (by_set_router_password ok wan_ok salt text) r =
    set_router_password_cmd sha256 ok wan_ok salt text r
perform sha256 scan (by_wan_access ok val) r = wan_access_cmd ok val r
perform sha256 scan (by_web_port ok port) r = web_port_cmd ok port r
perform sha256 scan (by_web_page ok wan_ok salt same_origin authenticated param param2) r =
    web_new_password sha256 ok wan_ok salt same_origin authenticated param param2 r
perform sha256 scan (by_login memory ok salt text) r =
    check_password sha256 scan memory ok salt text r

unfoldable pub perform_all : (List ℕ → List ℕ) → (Text → Option ℕ) → List Call → Router → Router
unfolding perform
perform_all sha256 scan [] r = r
perform_all sha256 scan (c ∷ cs) r = perform_all sha256 scan cs (perform sha256 scan c r)
