-- ===== src/Console/Server/Examples.antt =====
-- The server of the remote console (remote_console.c), started with the settings of a router whose
-- console is enabled.
use esp32_pppo_e_router.Base.{ℕ, ◌≡◌, refl, arith, true, false, none, some, List, [], ◌∷◌}
use esp32_pppo_e_router.Console.Auth.{accepted}
use esp32_pppo_e_router.Console.Server.{
  Config, Nvs, RcState, opening, in_session, authenticating, Server, esp_ok, at_boot, is_active,
  client, Env, remote_console_init, remote_console_task, run_task, remote_console_enable,
  remote_console_disable, by_task, booted, stepped,
}
use esp32_pppo_e_router.Console.Server.Stops.{
  remote_console_enable-restarts, remote_console_enable-dead,
}
use esp32_pppo_e_router.Console.Server.Access.{Sound, Reachable-Sound, Admits, Step-Admits}

abbrev settings : Nvs
settings = record { rc_enabled = some 1; rc_port = some 2323; rc_timeout = none }

abbrev factory : Config
factory = record { enabled = false; port = 2323; idle_timeout_sec = 300 }

abbrev started : Server
started = record (at_boot factory settings) {
  config = record factory { enabled = true };
  has_mutex = true;
  task = some opening;
  state = RcState.listening;
}

started_so :
    remote_console_init true true (some settings) (at_boot factory settings) ≡ (esp_ok, started)
unfolding remote_console_init
started_so = refl

-- a client with the password
abbrev with_login : Env
with_login = record {
  opens = true;
  accept = client;
  auth = accepted;
  wrong = 0;
  area = true;
  session_over = false;
}

abbrev steps : List Env
steps = with_login ∷ with_login ∷ with_login ∷ with_login ∷ with_login ∷ []

abbrev during : ℕ → List Env
during left = with_login ∷ []

served :
    is_active (run_task (with_login ∷ with_login ∷ with_login ∷ with_login ∷ []) started).state
    ≡ true
unfolding run_task
served = refl

remote_console_enable-restarts_example :
    (t : Server) × (remote_console_enable true true ((remote_console_disable true during started).1)
      ≡ (esp_ok, t))
    × (t.task ≡ some opening)
    × (t.shutdown_requested ≡ false)
    × (t.config ≡ started.config)
remote_console_enable-restarts_example =
    remote_console_enable-restarts true during started refl (omega arith)

-- a session that has been asked to end, and has not looked yet
abbrev leaving : Server
leaving = record started {
  config = factory;
  task = some in_session;
  session_taken = true;
  kick_requested = true;
  shutdown_requested = true;
}

remote_console_enable-dead_example :
    (t : Server) × (remote_console_enable true true leaving ≡ (esp_ok, t))
    × ((run_task steps t).task ≡ none)
    × ((run_task steps t).config.enabled ≡ true)
    × (remote_console_enable true true (run_task steps t) ≡ (esp_ok, run_task steps t))
remote_console_enable-dead_example =
    remote_console_enable-dead true true in_session steps leaving refl refl refl (omega arith)

Reachable-Sound_example : Sound (
    remote_console_task with_login
      ((remote_console_init true true (some settings) (at_boot factory settings)).1))
Reachable-Sound_example =
    Reachable-Sound
      (remote_console_task with_login
        ((remote_console_init true true (some settings) (at_boot factory settings)).1))
      (stepped _ _ (booted true true (some settings) factory settings) (by_task with_login _))

abbrev asking : Server
asking = record started {
  task = some authenticating;
  session_taken = true;
  state = RcState.auth_wait;
}

now_active : is_active (remote_console_task with_login asking).state ≡ true
unfolding remote_console_task
now_active = refl

Step-Admits_example : Admits asking (remote_console_task with_login asking)
Step-Admits_example = Step-Admits (by_task with_login asking) refl now_active
