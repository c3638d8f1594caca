-- ===== src/Console/Auth/Examples.antt =====
-- `authenticate_client` (remote_console.c) with one wrong and one right password.
use esp32_pppo_e_router.Base.{
  ℕ, zero, suc, ◌≡◌, refl, Bool, true, false, some, List, [], ◌∷◌, map, same_bytes,
}
use esp32_pppo_e_router.Console.Line.{received, Poll, recv_line}
use esp32_pppo_e_router.Console.Auth.{
  accepted, Auth, rc_max_auth_attempts, password_size, authenticate_client,
}
use esp32_pppo_e_router.Console.Auth.Verified.{typed, Verified, authenticate_client-Verified}

abbrev poll : ℕ → Poll
poll c = record { interrupted = false; elapsed = 0; recv = received c }

abbrev is_password : List ℕ → Bool
is_password text = same_bytes text (112 ∷ 119 ∷ [])

abbrev zeros : ℕ → List ℕ
zeros zero = []
zeros (suc n) = 0 ∷ zeros n

-- "no" first, then "pw"
abbrev polls : ℕ → List Poll
polls (suc (suc n)) = map poll (110 ∷ 111 ∷ 10 ∷ [])
polls _ = map poll (112 ∷ 119 ∷ 10 ∷ [])

abbrev outcome : Auth
outcome = record { result = accepted; failed_auths = 8; delayed = false }

second_attempt : authenticate_client true is_password polls (zeros password_size) 7 ≡ some outcome
unfolding authenticate_client recv_line
second_attempt = refl

authenticate_client-Verified_example :
    Verified is_password (λ i. typed (polls i)) rc_max_auth_attempts
authenticate_client-Verified_example =
    authenticate_client-Verified is_password polls (zeros password_size) 7 outcome refl
      second_attempt refl
