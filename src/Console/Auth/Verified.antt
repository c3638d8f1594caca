-- ===== src/Console/Auth/Verified.antt =====
-- Who passes `authenticate_client` (remote_console.c).
use esp32_pppo_e_router.Base.{
  ℕ, zero, suc, ◌+◌, ◌-◌, ◌<◌, ◌≡◌, inl, inr, refl, sym, ap, ◌∙◌, arith, Bool, true, false, Option,
  some, List, [], map, length, u32, ◌==◌, if◌then◌else◌, Bool-cases,
}
use mathlib.Core.Option.{some-injective}
use esp32_pppo_e_router.Console.Line.{
  Read, Poll, disconnected, timed_out, cancelled, waiting, recv_line,
}
use esp32_pppo_e_router.Console.Line.Editor.{
  Reading, text, nothing, key, edit, erasures, Reads, recv_line-edit,
}
use esp32_pppo_e_router.Console.Auth.{
  result_of_no_line, accepted, refused, Auth, rc_max_auth_attempts, password_size, auth_timeout_sec,
  on_password, attempts, authenticate_client,
}

-- what the client types in an attempt
abbrev pub typed : List Poll → Reading
typed ps = edit (password_size - 1) (map (key auth_timeout_sec) ps) []

-- The login over the readings of the attempts, with no buffer.
abbrev pub judge : (List ℕ → Bool) → (ℕ → Auth) → ℕ → Reading → Auth
judge verify more failed (text cs) =
    if verify cs
    then record { result = accepted; failed_auths = failed; delayed = false }
    else more (u32 (failed + 1))
judge verify more failed (nothing r) = record {
  result = result_of_no_line r;
  failed_auths = failed;
  delayed = false;
}

unfoldable pub login : (List ℕ → Bool) → (ℕ → Reading) → ℕ → ℕ → Auth
login verify readings zero failed = record {
  result = refused;
  failed_auths = failed;
  delayed = true;
}
login verify readings (suc left) failed =
    judge verify (login verify readings left) failed (readings left)

on_password-judge :
    (verify : List ℕ → Bool) (more : List ℕ → ℕ → Option Auth) (spec : ℕ → Auth) (failed : ℕ)
    (r : Reading) (sent : ℕ) (out : Option Read)
    → ((input : List ℕ) (f : ℕ) → length input ≡ password_size → more input f ≡ some (spec f))
    → Reads password_size r sent out
    → on_password verify more failed out ≡ some (judge verify spec failed r)
on_password-judge verify more spec failed (nothing r) sent out follow (input, e, size, held) =
    rw e refl
on_password-judge verify more spec failed (text cs) sent out follow
      (input, e, size, (same, low, typed_)) =
    elim (Bool-cases (verify cs)) [
      | inl yes_ ↦ rw (e, same, yes_) refl
      | inr no_ ↦ rw (e, same, no_) (follow input (u32 (failed + 1)) size)
    ]

attempts-login :
    (verify : List ℕ → Bool) (polls : ℕ → List Poll) (left : ℕ) (input : List ℕ) (failed : ℕ)
    → length input ≡ password_size
    → attempts verify polls left input failed
      ≡ some (login verify (λ i. typed (polls i)) left failed)
unfolding attempts login
attempts-login verify polls zero input failed size = refl
attempts-login verify polls (suc left) input failed size =
    on_password-judge verify (attempts verify polls left) (login verify (λ i. typed (polls i)) left)
      failed (typed (polls left))
      (erasures (password_size - 1) (map (key auth_timeout_sec) (polls left)) [])
      (recv_line password_size auth_timeout_sec (polls left) input)
      (λ input' f size'. attempts-login verify polls left input' f size')
      (recv_line-edit password_size auth_timeout_sec (polls left) input size (omega arith))

-- With a buffer of 64 bytes no write of `authenticate_client` is out of bounds, and its result,
-- count and delay are those of the login over what the client types: the buffer plays no part.
pub authenticate_client-login :
    (password_set : Bool) (verify : List ℕ → Bool) (polls : ℕ → List Poll) (input : List ℕ)
    (failed : ℕ)
    → length input ≡ password_size
    → authenticate_client password_set verify polls input failed
      ≡ some (
          if password_set
          then login verify (λ i. typed (polls i)) rc_max_auth_attempts failed
          else record { result = accepted; failed_auths = failed; delayed = false })
unfolding authenticate_client
authenticate_client-login false verify polls input failed size = refl
authenticate_client-login true verify polls input failed size =
    attempts-login verify polls rc_max_auth_attempts input failed size

-- an attempt that types a text the check accepts
abbrev pub Verified : (List ℕ → Bool) → (ℕ → Reading) → ℕ → Type 0
Verified verify readings left =
    (i : ℕ) × (cs : List ℕ) × (i < left) × (readings i ≡ text cs) × (verify cs ≡ true)

login-Verified :
    (verify : List ℕ → Bool) (readings : ℕ → Reading) (left failed : ℕ)
    → (login verify readings left failed).result ≡ accepted
    → Verified verify readings left
unfolding login
login-Verified verify readings zero failed h = absurd (ground (arith, h))
login-Verified verify readings (suc left) failed h =
    answered (λ f k. login-Verified verify readings left f k) (readings left) refl h
  where
    Earlier : Type 0
    Earlier =
        (f : ℕ) → (login verify readings left f).result ≡ accepted → Verified verify readings left

    later : Verified verify readings left → Verified verify readings (suc left)
    later (i, cs, low, e, good) = (i, cs, omega (arith, low), e, good)

    checked :
        Earlier
        → (cs : List ℕ) (b : Bool) → readings left ≡ text cs
        → verify cs ≡ b
        → (if b
            then record { result = accepted; failed_auths = failed; delayed = false }
            else login verify readings left (u32 (failed + 1))).result
          ≡ accepted
        → Verified verify readings (suc left)
    checked ih cs true e good h' = (left, cs, omega arith, e, good)
    checked ih cs false e bad h' = later (ih (u32 (failed + 1)) h')

    answered :
        Earlier
        → (r : Reading) → readings left ≡ r
        → (judge verify (login verify readings left) failed r).result ≡ accepted
        → Verified verify readings (suc left)
    answered ih (nothing disconnected) e h' = absurd (ground (arith, h'))
    answered ih (nothing timed_out) e h' = absurd (ground (arith, h'))
    answered ih (nothing cancelled) e h' = absurd (ground (arith, h'))
    answered ih (nothing waiting) e h' = absurd (ground (arith, h'))
    answered ih (text cs) e h' = checked ih cs (verify cs) e refl h'

-- A client that is accepted while a password is set typed, in one of three attempts, a text that
-- the check accepts.
pub authenticate_client-Verified :
    (verify : List ℕ → Bool) (polls : ℕ → List Poll) (input : List ℕ) (failed : ℕ) (auth : Auth)
    → length input ≡ password_size
    → authenticate_client true verify polls input failed ≡ some auth
    → auth.result ≡ accepted
    → Verified verify (λ i. typed (polls i)) rc_max_auth_attempts
authenticate_client-Verified verify polls input failed auth size e h =
    let same = sym e ∙ authenticate_client-login true verify polls input failed size in
    login-Verified verify (λ i. typed (polls i)) rc_max_auth_attempts failed
      (ap Auth.result (sym (some-injective _ _ same)) ∙ h)

-- every attempt typed a text, and the check refused it
abbrev pub AllWrong : (List ℕ → Bool) → (ℕ → Reading) → ℕ → Type 0
AllWrong verify readings left =
    (i : ℕ) → i < left → (cs : List ℕ) × (readings i ≡ text cs) × (verify cs ≡ false)

login-AllWrong :
    (verify : List ℕ → Bool) (readings : ℕ → Reading) (left failed : ℕ)
    → (login verify readings left failed).delayed ≡ true
    → AllWrong verify readings left
unfolding login
login-AllWrong verify readings zero failed h = λ i low. absurd (omega (arith, low))
login-AllWrong verify readings (suc left) failed h =
    answered (λ f k. login-AllWrong verify readings left f k) (readings left) refl h
  where
    Earlier : Type 0
    Earlier =
        (f : ℕ) → (login verify readings left f).delayed ≡ true → AllWrong verify readings left

    checked :
        Earlier
        → (cs : List ℕ) (b : Bool) → readings left ≡ text cs
        → verify cs ≡ b
        → (if b
            then record { result = accepted; failed_auths = failed; delayed = false }
            else login verify readings left (u32 (failed + 1))).delayed
          ≡ true
        → AllWrong verify readings (suc left)
    checked ih cs true e good h' = λ i low. absurd (ground (arith, h'))
    checked ih cs false e bad h' = λ i low. elim (Bool-cases (i == left)) [
      | inl last ↦ let at : i ≡ left = ground (arith, last) in (cs, rw at e, bad)
      | inr before ↦ ih (u32 (failed + 1)) h' i (ground (arith, low, before))
    ]

    answered :
        Earlier
        → (r : Reading) → readings left ≡ r
        → (judge verify (login verify readings left) failed r).delayed ≡ true
        → AllWrong verify readings (suc left)
    answered ih (nothing r) e h' = absurd (ground (arith, h'))
    answered ih (text cs) e h' = checked ih cs (verify cs) e refl h'
