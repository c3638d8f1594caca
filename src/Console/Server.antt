-- ===== src/Console/Server.antt =====
-- The server of the remote console (remote_console.c): its configuration, the calls that control
-- it, and its task. A step of the task is what it does between two waits.
pub mod Stops
pub mod Access
mod Examples
use esp32_pppo_e_router.Base.{
  ℕ, zero, suc, ◌+◌, Bool, true, false, not, ◌&&◌, ◌||◌, Option, none, some, List, [], ◌∷◌, u32,
  ◌==◌, if◌then◌else◌,
}
use esp32_pppo_e_router.Console.Auth.{AuthResult, accepted, refused, pending}

pub record Config : Type 0 where
  pub enabled : Bool
  pub port : ℕ
  pub idle_timeout_sec : ℕ

-- the keys `rc_enabled`, `rc_port` and `rc_timeout` of the settings
pub record Nvs : Type 0 where
  pub rc_enabled : Option ℕ
  pub rc_port : Option ℕ
  pub rc_timeout : Option ℕ

pub data RcState : Type 0 where
  disabled listening auth_wait active : RcState

-- Where the task is: at the top of its outer loop, at the top of its accept loop, in `accept`, or
-- with a client.
pub data Phase : Type 0 where
  opening accepting in_accept authenticating in_session : Phase

-- `task`: `none` is a null handle. `has_mutex`: the mutex was created. `session_taken`: it is taken.
pub record Server : Type 0 where
  pub config : Config
  pub nvs : Nvs
  pub state : RcState
  pub task : Option Phase
  pub has_mutex : Bool
  pub session_taken : Bool
  pub kick_requested : Bool
  pub shutdown_requested : Bool
  pub total_connections : ℕ
  pub failed_auths : ℕ

pub data EspErr : Type 0 where
  esp_ok no_mem invalid_arg not_found : EspErr

abbrev or_old : Option ℕ → ℕ → ℕ
or_old none old = old
or_old (some v) old = v

abbrev or_old_flag : Option ℕ → Bool → Bool
or_old_flag none old = old
or_old_flag (some v) old = not (v == 0)

-- `none`: the settings do not open
abbrev pub load_config : Option Nvs → Config → Config
load_config none c = c
load_config (some n) c = record {
  enabled = or_old_flag n.rc_enabled c.enabled;
  port = or_old n.rc_port c.port;
  idle_timeout_sec = or_old n.rc_timeout c.idle_timeout_sec;
}

-- `opens`: the settings open
abbrev pub save_config : Bool → Config → Nvs → Nvs
save_config false c n = n
save_config true c n = record {
  rc_enabled = some (if c.enabled then 1 else 0);
  rc_port = some c.port;
  rc_timeout = some c.idle_timeout_sec;
}

abbrev pub set_config : Bool → Config → Server → Server
set_config opens c s = record s { config = c; nvs = save_config opens c s.nvs }

-- the variables before the start, with the default configuration
abbrev pub at_boot : Config → Nvs → Server
at_boot c n = record {
  config = c;
  nvs = n;
  state = disabled;
  task = none;
  has_mutex = false;
  session_taken = false;
  kick_requested = false;
  shutdown_requested = false;
  total_connections = 0;
  failed_auths = 0;
}

-- `mutex`, `created`: whether the mutex and the task are created
unfoldable pub remote_console_init : Bool → Bool → Option Nvs → Server → EspErr × Server
remote_console_init false created loaded s = (no_mem, record s { has_mutex = false })
remote_console_init true created loaded s =
    let c = load_config loaded s.config in
    if c.enabled
    then if created
      then (
        esp_ok,
        record s { has_mutex = true; config = c; task = some opening; state = listening },
      )
      else (no_mem, record s { has_mutex = true; config = c })
    else (esp_ok, record s { has_mutex = true; config = c; state = disabled })

abbrev enabled_as : Bool → Server → Server → Server
enabled_as opens s t = set_config opens (record (s.config) { enabled = true }) t

-- with the flag set: the task, if there is none
abbrev start_task : Bool → Bool → Server → EspErr × Server
start_task opens true s =
    (esp_ok, record s { shutdown_requested = false; task = some opening; state = listening })
start_task opens false s = (
  no_mem,
  set_config opens (record (s.config) { enabled = false })
      (record s { shutdown_requested = false }),
)

abbrev start_if_none : Bool → Bool → Option Phase → Server → EspErr × Server
start_if_none opens created none s = start_task opens created s
start_if_none opens created (some phase) s = (esp_ok, s)

unfoldable pub remote_console_enable : Bool → Bool → Server → EspErr × Server
remote_console_enable opens created s =
    if s.config.enabled
    then (esp_ok, s)
    else start_if_none opens created s.task
        (set_config opens (record (s.config) { enabled = true }) s)

unfoldable pub remote_console_set_port : Bool → ℕ → Server → EspErr × Server
remote_console_set_port opens port s =
    if port == 0
    then (invalid_arg, s)
    else (esp_ok, set_config opens (record (s.config) { port = port }) s)

unfoldable pub remote_console_set_timeout : Bool → ℕ → Server → EspErr × Server
remote_console_set_timeout opens timeout_sec s =
    (esp_ok, set_config opens (record (s.config) { idle_timeout_sec = timeout_sec }) s)

abbrev is_active : RcState → Bool
is_active active = true
is_active _ = false

unfoldable pub remote_console_kick : Server → EspErr × Server
remote_console_kick s =
    if is_active s.state then (esp_ok, record s { kick_requested = true }) else (not_found, s)

-- what `accept` gives: no client, a client from the WAN that is turned away, or a client
pub data Accept : Type 0 where
  no_client wan_client client : Accept

-- What a step of the task meets: whether a socket is opened, bound and listens, what `accept`
-- gives, what `authenticate_client` gives and counts, whether there is memory for the session, and
-- whether the session ends by itself.
pub record Env : Type 0 where
  pub opens : Bool
  pub accept : Accept
  pub auth : AuthResult
  pub wrong : ℕ
  pub area : Bool
  pub session_over : Bool

-- the end of a client
abbrev pub release : Server → Server
release s = record s {
  task = some accepting;
  state = listening;
  kick_requested = false;
  session_taken = false;
}

-- A mutex that was not created is never taken: FreeRTOS stops the router there with an assertion, and
-- no client gets beyond this.
abbrev pub on_accept : Accept → Server → Server
on_accept no_client s =
    if s.shutdown_requested
    then record s { task = some opening }
    else record s { task = some accepting }
on_accept wan_client s = record s { task = some accepting }
on_accept client s =
    let counted : Server = record s { total_connections = u32 (s.total_connections + 1) } in
    if not s.has_mutex || s.session_taken
    then record counted { task = some accepting }
    else record counted {
      session_taken = true;
      state = auth_wait;
      kick_requested = false;
      task = some authenticating;
    }

-- An interrupted `recv_line` returns, so a login that is interrupted ends.
abbrev pub on_auth : Env → AuthResult → Server → Server
on_auth e accepted s =
    if e.area then record s { task = some in_session; state = active } else release s
on_auth e refused s = release s
on_auth e pending s = if s.kick_requested || s.shutdown_requested then release s else s

abbrev pub phase_step : Env → Option Phase → Server → Server
phase_step e none s = s
phase_step e (some opening) s =
    if s.shutdown_requested
    then record s { state = disabled; task = none }
    else if e.opens
    then record s { state = listening; task = some accepting }
    else s
phase_step e (some accepting) s =
    if s.shutdown_requested
    then record s { task = some opening }
    else record s { task = some in_accept }
phase_step e (some in_accept) s = on_accept e.accept s
phase_step e (some authenticating) s =
    on_auth e e.auth (record s { failed_auths = u32 (s.failed_auths + e.wrong) })
phase_step e (some in_session) s =
    if s.kick_requested || s.shutdown_requested || e.session_over then release s else s

unfoldable pub remote_console_task : Env → Server → Server
remote_console_task e s = phase_step e s.task s

unfoldable pub run_task : List Env → Server → Server
unfolding remote_console_task
run_task [] s = s
run_task (e ∷ es) s = run_task es (remote_console_task e s)

-- RC_SHUTDOWN_TIMEOUT_MS / RC_SHUTDOWN_POLL_MS
abbrev pub shutdown_polls : ℕ
shutdown_polls = 150

-- the wait for the task: `during n` are the task's steps while `n` polls are left behind it
unfoldable pub wait : (ℕ → List Env) → ℕ → Option Phase → Server → Server
unfolding run_task
wait during left none s = s
wait during zero (some phase) s = s
wait during (suc left) (some phase) s =
    let t = run_task (during left) s in wait during left t.task t

-- the requests that a disable makes before its wait
abbrev pub ask_to_stop : Bool → Server → Server
ask_to_stop opens s = record (set_config opens (record (s.config) { enabled = false }) s) {
  shutdown_requested = true;
  kick_requested = true;
}

unfoldable pub remote_console_disable : Bool → (ℕ → List Env) → Server → EspErr × Server
unfolding wait
remote_console_disable opens during s =
    if s.config.enabled
    then (
      esp_ok,
      record (wait during shutdown_polls (ask_to_stop opens s).task (ask_to_stop opens s)) {
        state = disabled;
      },
    )
    else (esp_ok, s)

-- One step of the console: of its task, of a call, or of a part of a disable. The wait of a
-- disable leaves room for steps between its request and its end.
pub data Step : Server → Server → Type 0 where
  by_task : (e : Env) (s : Server) → Step s (remote_console_task e s)
  by_enable :
      (opens created : Bool) (s : Server) → Step s ((remote_console_enable opens created s).1)
  by_request : (opens : Bool) (s : Server) → Step s (ask_to_stop opens s)
  by_disabled : (s : Server) → Step s (record s { state = disabled })
  by_port :
      (opens : Bool) (port : ℕ) (s : Server) → Step s ((remote_console_set_port opens port s).1)
  by_timeout :
      (opens : Bool) (t : ℕ) (s : Server) → Step s ((remote_console_set_timeout opens t s).1)
  by_kick : (s : Server) → Step s ((remote_console_kick s).1)

-- the console after its start, and after each step
pub data Reachable : Server → Type 0 where
  booted :
      (mutex created : Bool) (loaded : Option Nvs) (c : Config) (n : Nvs)
      → Reachable ((remote_console_init mutex created loaded (at_boot c n)).1)
  stepped : (s t : Server) → Reachable s → Step s t → Reachable t
