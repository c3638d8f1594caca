-- ===== src/Wan/Examples.antt =====
-- Access from the WAN (components/cmd_router/cmd_router.c) on a router with a password.
use esp32_pppo_e_router.Base.{
  Every, ℕ, ◌≡◌, refl, true, false, Option, none, some, List, [], ◌∷◌, length, replicate,
}
use esp32_pppo_e_router.Acl.{Acl, zero_stats, no_rules, acl_init}
use esp32_pppo_e_router.Acl.Table.{acl_init-IsListOk}
use esp32_pppo_e_router.Password.{Text, is_web_password_set, set_web_password_hashed}
use esp32_pppo_e_router.Wan.{
  Router, to_esp, update_web_wan_acl, wan_on, Call, by_set_router_password, by_wan_access,
  by_web_port, by_login, perform_all,
}
use esp32_pppo_e_router.Wan.Protected.{is_open, Protected, perform_all-Protected}
use esp32_pppo_e_router.Wan.Blocks.{is_whole, port_of, Blocking, update_web_wan_acl-blocks}

abbrev raw : Acl
raw = record {
  lists = λ _. no_rules;
  stats = λ _. zero_stats;
  rule_count = λ _. 0;
  last_deny_log_time = λ _. 0;
}

-- with the password "pw" in the old format
abbrev router : Router
router = record {
  web_password = some (112 ∷ 119 ∷ []);
  wan_access = none;
  web_port = some 8080;
  acl = acl_init raw;
}

abbrev toy_digest : List ℕ → List ℕ
toy_digest m = replicate 32 (length m)

abbrev no_digits : Text → Option ℕ
no_digits text = none

-- the access is switched on, the owner logs in, and the password is cleared
abbrev calls : List Call
calls =
    by_wan_access true (some true)
    ∷ by_login true false (replicate 16 7) (112 ∷ 119 ∷ [])
    ∷ by_web_port false 81
    ∷ by_set_router_password true true (replicate 16 9) (some [])
    ∷ []

switched_on :
    wan_on (perform_all toy_digest no_digits (by_wan_access true (some true) ∷ []) router) ≡ true
unfolding perform_all is_web_password_set
switched_on = refl

perform_all-Protected_example : Protected (perform_all toy_digest no_digits calls router)
perform_all-Protected_example =
    perform_all-Protected toy_digest no_digits calls router (tt, (tt, (tt, (refl, tt)))) refl

whole : Every (is_whole (port_of router)) (router.acl.lists to_esp)
unfolding acl_init
whole = (
  refl,
  (
    refl,
    (
      refl,
      (
        refl,
        (
          refl,
          (
            refl,
            (refl, (refl, (refl, (refl, (refl, (refl, (refl, (refl, (refl, (refl, tt)))))))))),
          ),
        ),
      ),
    ),
  ),
)

-- a password that is cleared while "wan_access" takes no value
left_open :
    is_open (
      perform_all toy_digest no_digits
        (by_wan_access true (some true)
          ∷ by_set_router_password true false (replicate 16 9) (some [])
          ∷ [])
        router)
    ≡ true
unfolding perform_all is_web_password_set set_web_password_hashed
left_open = refl

update_web_wan_acl-blocks_example : Blocking router (update_web_wan_acl false router).acl
update_web_wan_acl-blocks_example =
    update_web_wan_acl-blocks router (acl_init-IsListOk raw to_esp) whole
