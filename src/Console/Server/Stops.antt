-- ===== src/Console/Server/Stops.antt =====
-- The task of the remote console (remote_console.c) stops when it is asked to.
use esp32_pppo_e_router.Base.{
  not, ◌||◌, ℕ, zero, suc, ◌+◌, ◌-◌, ◌≤◌, ◌≡◌, refl, sym, ap, ◌∙◌, arith, Bool, true, false, ◌||◌,
  Option, none, some, List, [], ◌∷◌, length, if◌then◌else◌,
}
use esp32_pppo_e_router.Console.Auth.{AuthResult, accepted, refused, pending}
use esp32_pppo_e_router.Console.Server.{
  Nvs, Config, disabled, listening, Phase, opening, accepting, in_accept, authenticating,
  in_session, Server, esp_ok, save_config, set_config, ask_to_stop, Accept, no_client, wan_client,
  client, Env, on_accept, on_auth, phase_step, remote_console_task, run_task, shutdown_polls, wait,
  remote_console_enable, remote_console_disable,
}

-- how many steps are left to the end of the task, at most
abbrev pub steps_left : Option Phase → ℕ
steps_left none = 0
steps_left (some opening) = 1
steps_left (some accepting) = 2
steps_left (some in_session) = 3
steps_left (some authenticating) = 4
steps_left (some in_accept) = 5

-- what a step keeps, and how far it comes
abbrev Nearer : Server → ℕ → Server → Type 0
Nearer s n t =
    (steps_left t.task ≤ n)
    × (t.shutdown_requested ≡ true)
    × (t.config ≡ s.config)
    × (t.nvs ≡ s.nvs)

Nearer-if :
    (s : Server) (n : ℕ) (b : Bool) (x y : Server)
    → Nearer s n x
    → Nearer s n y
    → Nearer s n (if b then x else y)
Nearer-if s n true x y h k = h
Nearer-if s n false x y h k = k

stopping : (a b c : Bool) → b ≡ true → (a || b || c) ≡ true
stopping true b c h = refl
stopping false true c h = refl
stopping false false c h = absurd (ground (arith, h))

asked : (a b : Bool) → b ≡ true → (a || b) ≡ true
asked true b h = refl
asked false b h = h

on_accept-Nearer :
    (a : Accept) (s : Server) → s.shutdown_requested ≡ true → Nearer s 4 (on_accept a s)
on_accept-Nearer no_client s on = rw on (omega arith, refl, refl, refl)
on_accept-Nearer wan_client s on = (omega arith, on, refl, refl)
on_accept-Nearer client s on =
    Nearer-if s 4 (not s.has_mutex || s.session_taken) _ _ (omega arith, on, refl, refl)
      (omega arith, on, refl, refl)

on_auth-Nearer :
    (e : Env) (a : AuthResult) (s : Server)
    → s.shutdown_requested ≡ true
    → Nearer s 3 (on_auth e a s)
on_auth-Nearer e accepted s on =
    Nearer-if s 3 e.area _ _ (omega arith, on, refl, refl) (omega arith, on, refl, refl)
on_auth-Nearer e refused s on = (omega arith, on, refl, refl)
on_auth-Nearer e pending s on =
    rw (asked s.kick_requested s.shutdown_requested on) (omega arith, on, refl, refl)

phase_step-Nearer :
    (e : Env) (p : Option Phase) (s : Server)
    → s.task ≡ p
    → s.shutdown_requested ≡ true
    → Nearer s (steps_left p - 1) (phase_step e p s)
phase_step-Nearer e none s at on = (rw at (omega arith), on, refl, refl)
phase_step-Nearer e (some opening) s at on = rw on (omega arith, refl, refl, refl)
phase_step-Nearer e (some accepting) s at on = rw on (omega arith, refl, refl, refl)
phase_step-Nearer e (some in_accept) s at on = on_accept-Nearer e.accept s on
phase_step-Nearer e (some authenticating) s at on = on_auth-Nearer e e.auth _ on
phase_step-Nearer e (some in_session) s at on =
    rw (stopping s.kick_requested s.shutdown_requested e.session_over on)
      (omega arith, on, refl, refl)

run_task-Nearer :
    (es : List Env) (s : Server)
    → s.shutdown_requested ≡ true
    → Nearer s (steps_left s.task - length es) (run_task es s)
unfolding run_task remote_console_task
run_task-Nearer [] s on = (omega arith, on, refl, refl)
run_task-Nearer (e ∷ es) s on =
    let (near, on', same, stored) = phase_step-Nearer e s.task s refl on in
    let (near', on'', same', stored') = run_task-Nearer es (remote_console_task e s) on' in
    (omega (arith, near, near'), on'', same' ∙ same, stored' ∙ stored)

gone : (p : Option Phase) → steps_left p ≤ 0 → p ≡ none
gone none h = refl
gone (some opening) h = absurd (omega (arith, h))
gone (some accepting) h = absurd (omega (arith, h))
gone (some in_accept) h = absurd (omega (arith, h))
gone (some authenticating) h = absurd (omega (arith, h))
gone (some in_session) h = absurd (omega (arith, h))

five : (p : Option Phase) → steps_left p ≤ 5
five none = omega arith
five (some opening) = omega arith
five (some accepting) = omega arith
five (some in_accept) = omega arith
five (some authenticating) = omega arith
five (some in_session) = omega arith

-- Once a shutdown is requested, five steps end the task, wherever it is and whatever it meets.
pub run_task-stops :
    (es : List Env) (s : Server)
    → s.shutdown_requested ≡ true
    → 5 ≤ length es
    → (run_task es s).task ≡ none
run_task-stops es s on enough =
    let (near, on', same, stored) = run_task-Nearer es s on in
    gone (run_task es s).task (omega (arith, near, enough, five s.task))

-- the steps of all the intervals of the wait
abbrev pub steps_of : (ℕ → List Env) → ℕ → ℕ
steps_of during zero = 0
steps_of during (suc left) = length (during left) + steps_of during left

wait-Nearer :
    (during : ℕ → List Env) (left : ℕ) (p : Option Phase) (s : Server)
    → s.task ≡ p
    → s.shutdown_requested ≡ true
    → Nearer s (steps_left p - steps_of during left) (wait during left p s)
unfolding wait
wait-Nearer during zero none s at on = (rw at (omega arith), on, refl, refl)
wait-Nearer during (suc left) none s at on = (rw at (omega arith), on, refl, refl)
wait-Nearer during zero (some phase) s at on = (rw at (omega arith), on, refl, refl)
wait-Nearer during (suc left) (some phase) s at on =
    let t = run_task (during left) s in
    let (near, on', same, stored) = run_task-Nearer (during left) s on in
    let (near', on'', same', stored') = wait-Nearer during left t.task t refl on' in
    let there : steps_left s.task ≡ steps_left (some phase) = ap steps_left at in
    (omega (arith, near, near', there), on'', same' ∙ same, stored' ∙ stored)

-- the settings behind a call that disables the console: with the flag at 0 if they open
abbrev pub Kept : Bool → Nvs → Nvs → Type 0
Kept true before after = after.rc_enabled ≡ some 0
Kept false before after = after ≡ before

save_config-Kept :
    (opens : Bool) (c : Config) (before after : Nvs)
    → after ≡ save_config opens (record c { enabled = false }) before
    → Kept opens before after
save_config-Kept true c before after h = ap (λ (n : Nvs). n.rc_enabled) h
save_config-Kept false c before after h = h

pub remote_console_disable-stops :
    (opens : Bool) (during : ℕ → List Env) (s : Server)
    → s.config.enabled ≡ true
    → 5 ≤ steps_of during shutdown_polls
    → (t : Server) × (remote_console_disable opens during s ≡ (esp_ok, t))
      × (t.task ≡ none)
      × (t.state ≡ disabled)
      × (t.config ≡ record (s.config) { enabled = false })
      × Kept opens s.nvs t.nvs
unfolding remote_console_disable
remote_console_disable-stops opens during s on enough =
    let (near, on', same, stored) =
      wait-Nearer during shutdown_polls (ask_to_stop opens s).task (ask_to_stop opens s) refl
        refl in
    let t = wait during shutdown_polls (ask_to_stop opens s).task (ask_to_stop opens s) in
    (
      record t { state = disabled },
      ap (λ b. if b then (esp_ok, record t { state = disabled }) else (esp_ok, s)) on,
      gone t.task (omega (arith, near, enough, five s.task)),
      refl,
      same,
      save_config-Kept opens s.config s.nvs t.nvs stored,
    )

enable_fresh :
    (opens : Bool) (s : Server)
    → s.config.enabled ≡ false
    → s.task ≡ none
    → (t : Server) × (remote_console_enable opens true s ≡ (esp_ok, t))
      × (t.task ≡ some opening)
      × (t.shutdown_requested ≡ false)
      × (t.config ≡ record (s.config) { enabled = true })
unfolding remote_console_enable
enable_fresh opens s off none_left =
    let t : Server = record (set_config opens (record (s.config) { enabled = true }) s) {
      shutdown_requested = false;
      task = some opening;
      state = listening;
    } in
    (t, rw (off, none_left) refl, refl, refl, refl)

-- Disabling the console, with five steps of its task, and enabling it again: it runs, also when
-- the settings do not open.
pub remote_console_enable-restarts :
    (opens : Bool) (during : ℕ → List Env) (s : Server)
    → s.config.enabled ≡ true
    → 5 ≤ steps_of during shutdown_polls
    → (t : Server) × (remote_console_enable opens true ((remote_console_disable opens during s).1)
        ≡ (esp_ok, t))
      × (t.task ≡ some opening)
      × (t.shutdown_requested ≡ false)
      × (t.config ≡ s.config)
remote_console_enable-restarts opens during s on enough =
    let (t, e, no_task, state, same, stored) =
      remote_console_disable-stops opens during s on enough in
    let (u, e', task, flag, same') = enable_fresh opens t (ap Config.enabled same) no_task in
    (
      u,
      ap (λ r. remote_console_enable opens true (r.1)) e ∙ e',
      task,
      flag,
      same'
          ∙ ap (λ (c : Config). record c { enabled = true }) same
          ∙ ap (λ (b : Bool). record (s.config) { enabled = b }) (sym on),
    )

-- An enable while a task is still on its way out, from a disable whose wait was too short, returns
-- ESP_OK and starts no task: after five steps of the old one the console counts as enabled, has no
-- task, and a further enable changes nothing.
pub remote_console_enable-dead :
    (opens created : Bool) (phase : Phase) (es : List Env) (s : Server)
    → s.config.enabled ≡ false
    → s.task ≡ some phase
    → s.shutdown_requested ≡ true
    → 5 ≤ length es
    → (t : Server) × (remote_console_enable opens created s ≡ (esp_ok, t))
      × ((run_task es t).task ≡ none)
      × ((run_task es t).config.enabled ≡ true)
      × (remote_console_enable opens created (run_task es t) ≡ (esp_ok, run_task es t))
unfolding remote_console_enable
remote_console_enable-dead opens created phase es s off at on enough =
    let t = set_config opens (record (s.config) { enabled = true }) s in
    let (near, on', same, stored) = run_task-Nearer es t on in
    let on'' : (run_task es t).config.enabled ≡ true = ap Config.enabled same in
    (
      t,
      rw (off, at) refl,
      gone (run_task es t).task (omega (arith, near, enough, five t.task)),
      on'',
      rw on'' refl,
    )
