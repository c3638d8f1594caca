-- ===== src/Console/Auth.antt =====
-- The login of the remote console: `authenticate_client` (remote_console.c). The password checks
-- are parameters. `none` is a write out of bounds.
pub mod Verified
mod Examples
use esp32_pppo_e_router.Base.{
  ℕ, zero, suc, ◌+◌, Bool, true, false, Option, none, some, List, [], ◌∷◌, u32, if◌then◌else◌,
}
use esp32_pppo_e_router.Console.Line.{
  Read, Poll, NoLine, LineResult, line, no_line, disconnected, timed_out, cancelled, waiting,
  recv_line, c_string,
}

-- `pending`: it has not returned yet
pub data AuthResult : Type 0 where
  accepted refused pending : AuthResult

-- the result, `failed_auths`, and whether the delay of five seconds comes before the return
pub record Auth : Type 0 where
  pub result : AuthResult
  pub failed_auths : ℕ
  pub delayed : Bool

abbrev pub rc_max_auth_attempts : ℕ
rc_max_auth_attempts = 3

abbrev pub password_size : ℕ
password_size = 64

abbrev pub auth_timeout_sec : ℕ
auth_timeout_sec = 60

abbrev pub result_of_no_line : NoLine → AuthResult
result_of_no_line waiting = pending
result_of_no_line disconnected = refused
result_of_no_line timed_out = refused
result_of_no_line cancelled = refused

-- What an attempt does with the line it read. `more`: the attempts behind it.
abbrev pub on_password :
    (List ℕ → Bool) → (List ℕ → ℕ → Option Auth) → ℕ → Option Read → Option Auth
on_password verify more failed none = none
on_password verify more failed (some ((line n, input), sent)) =
    if verify (c_string input)
    then some (record { result = accepted; failed_auths = failed; delayed = false })
    else more input (u32 (failed + 1))
on_password verify more failed (some ((no_line r, input), sent)) =
    some (record { result = result_of_no_line r; failed_auths = failed; delayed = false })

-- The attempts that are left. `polls n`: the rounds of `recv_line` when `n` are left behind it.
unfoldable pub attempts : (List ℕ → Bool) → (ℕ → List Poll) → ℕ → List ℕ → ℕ → Option Auth
attempts verify polls zero input failed =
    some (record { result = refused; failed_auths = failed; delayed = true })
attempts verify polls (suc left) input failed =
    on_password verify (attempts verify polls left) failed
      (recv_line password_size auth_timeout_sec (polls left) input)

-- `password_set`, `verify`: `is_web_password_set` and `verify_web_password`
unfoldable pub authenticate_client :
    Bool → (List ℕ → Bool) → (ℕ → List Poll) → List ℕ → ℕ → Option Auth
unfolding attempts
authenticate_client password_set verify polls input failed =
    if password_set
    then attempts verify polls rc_max_auth_attempts input failed
    else some (record { result = accepted; failed_auths = failed; delayed = false })
