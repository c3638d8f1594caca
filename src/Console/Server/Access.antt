-- ===== src/Console/Server/Access.antt =====
-- Who has a session of the remote console (remote_console.c), in every state that it reaches.
use esp32_pppo_e_router.Base.{
  ◌||◌, not, ◌≡◌, ◌⊎◌, refl, sym, ap, ◌∙◌, arith, inl, inr, Bool, true, false, ◌||◌, Bool-cases,
  Option, none, some, if◌then◌else◌, ◌==◌,
}
use esp32_pppo_e_router.Console.Auth.{AuthResult, accepted, refused, pending}
use esp32_pppo_e_router.Console.Server.{
  Config, Nvs, RcState, disabled, listening, auth_wait, active, Phase, opening, accepting,
  in_accept, authenticating, in_session, Server, EspErr, load_config, at_boot, is_active, Accept,
  no_client, wan_client, client, Env, on_accept, on_auth, phase_step, remote_console_task,
  start_if_none, remote_console_init, remote_console_enable, remote_console_set_port,
  remote_console_set_timeout, remote_console_kick, Step, by_task, by_enable, by_request,
  by_disabled, by_port, by_timeout, by_kick, Reachable, booted, stepped,
}

-- the state that is shown against the place of the task
abbrev pub Agrees : RcState → Option Phase → Type 0
Agrees disabled p = Unit
Agrees listening (some opening) = Unit
Agrees listening (some accepting) = Unit
Agrees listening (some in_accept) = Unit
Agrees listening _ = ⊥
Agrees auth_wait (some authenticating) = Unit
Agrees auth_wait _ = ⊥
Agrees active (some in_session) = Unit
Agrees active _ = ⊥

abbrev pub with_client : Option Phase → Bool
with_client (some authenticating) = true
with_client (some in_session) = true
with_client _ = false

-- The state that is shown is that of the task or disabled, and the mutex is held for a client.
abbrev pub Sound : Server → Type 0
Sound s = Agrees s.state s.task × (s.session_taken ≡ with_client s.task)

Sound-if : (b : Bool) (x y : Server) → Sound x → Sound y → Sound (if b then x else y)
Sound-if true x y h k = h
Sound-if false x y h k = k

to_opening : (r : RcState) → Agrees r (some accepting) → Agrees r (some opening)
to_opening disabled h = tt
to_opening listening h = tt
to_opening auth_wait h = elim h [ ]
to_opening active h = elim h [ ]

to_accept : (r : RcState) → Agrees r (some accepting) → Agrees r (some in_accept)
to_accept disabled h = tt
to_accept listening h = tt
to_accept auth_wait h = elim h [ ]
to_accept active h = elim h [ ]

from_accept : (r : RcState) → Agrees r (some in_accept) → Agrees r (some accepting)
from_accept disabled h = tt
from_accept listening h = tt
from_accept auth_wait h = elim h [ ]
from_accept active h = elim h [ ]

on_accept-Sound :
    (a : Accept) (s : Server)
    → Agrees s.state (some in_accept)
    → s.session_taken ≡ false
    → Sound (on_accept a s)
on_accept-Sound no_client s shown free =
    let back = from_accept s.state shown in
    Sound-if s.shutdown_requested _ _ (to_opening s.state back, free) (back, free)
on_accept-Sound wan_client s shown free = (from_accept s.state shown, free)
on_accept-Sound client s shown free =
    Sound-if (not s.has_mutex || s.session_taken) _ _ (from_accept s.state shown, free) (tt, refl)

on_auth-Sound :
    (e : Env) (a : AuthResult) (s : Server)
    → s.session_taken ≡ true
    → Sound s
    → Sound (on_auth e a s)
on_auth-Sound e accepted s taken sound = Sound-if e.area _ _ (tt, taken) (tt, refl)
on_auth-Sound e refused s taken sound = (tt, refl)
on_auth-Sound e pending s taken sound =
    Sound-if (s.kick_requested || s.shutdown_requested) _ _ (tt, refl) sound

phase_step-Sound :
    (e : Env) (p : Option Phase) (s : Server) → s.task ≡ p → Sound s → Sound (phase_step e p s)
phase_step-Sound e none s at sound = sound
phase_step-Sound e (some opening) s at (shown, held) =
    let free : s.session_taken ≡ false = held ∙ ap with_client at in
    Sound-if s.shutdown_requested _ _ (tt, free) (Sound-if e.opens _ _ (tt, free) (shown, held))
phase_step-Sound e (some accepting) s at (shown, held) =
    let free : s.session_taken ≡ false = held ∙ ap with_client at in
    let there : Agrees s.state (some accepting) = rw (sym at) shown in
    Sound-if s.shutdown_requested _ _ (to_opening s.state there, free)
      (to_accept s.state there, free)
phase_step-Sound e (some in_accept) s at (shown, held) =
    on_accept-Sound e.accept s (rw (sym at) shown) (held ∙ ap with_client at)
phase_step-Sound e (some authenticating) s at (shown, held) =
    on_auth-Sound e e.auth _ (held ∙ ap with_client at) (shown, held)
phase_step-Sound e (some in_session) s at (shown, held) =
    Sound-if (s.kick_requested || s.shutdown_requested || e.session_over) _ _ (tt, refl)
      (shown, held)

start_if_none-Sound :
    (opens created : Bool) (p : Option Phase) (s : Server)
    → s.task ≡ p
    → Sound s
    → Sound ((start_if_none opens created p s).1)
start_if_none-Sound opens true none s at (shown, held) = (tt, held ∙ ap with_client at)
start_if_none-Sound opens false none s at (shown, held) = (shown, held)
start_if_none-Sound opens created (some phase) s at sound = sound

reply_if-Sound :
    (b : Bool) (x y : EspErr × Server) → Sound (x.1) → Sound (y.1) → Sound ((if b then x else y).1)
reply_if-Sound true x y h k = h
reply_if-Sound false x y h k = k

Step-Sound : {s t : Server} → Step s t → Sound s → Sound t
unfolding remote_console_task remote_console_enable remote_console_set_port
    remote_console_set_timeout remote_console_kick
Step-Sound (by_task e s) sound = phase_step-Sound e s.task s refl sound
Step-Sound (by_enable opens created s) sound =
    reply_if-Sound s.config.enabled _ _ sound
      (start_if_none-Sound opens created s.task _ refl sound)
Step-Sound (by_request opens s) sound = sound
Step-Sound (by_disabled s) (shown, held) = (tt, held)
Step-Sound (by_port opens port s) sound = reply_if-Sound (port == 0) _ _ sound sound
Step-Sound (by_timeout opens timeout_sec s) sound = sound
Step-Sound (by_kick s) sound = reply_if-Sound (is_active s.state) _ _ sound sound

init-Sound :
    (mutex created : Bool) (loaded : Option Nvs) (c : Config) (n : Nvs)
    → Sound ((remote_console_init mutex created loaded (at_boot c n)).1)
unfolding remote_console_init
init-Sound false created loaded c n = (tt, refl)
init-Sound true created loaded c n =
    reply_if-Sound (load_config loaded c).enabled _ _
      (reply_if-Sound created _ _ (tt, refl) (tt, refl)) (tt, refl)

-- In every state that the console reaches, the state that is shown is disabled or that of the
-- task, active only with a session, and the mutex is held exactly while there is a client.
pub Reachable-Sound : (s : Server) → Reachable s → Sound s
Reachable-Sound s (booted mutex created loaded c n) = init-Sound mutex created loaded c n
Reachable-Sound s (stepped r t before step) = Step-Sound step (Reachable-Sound r before)

-- not active
abbrev Silent : Server → Type 0
Silent s = is_active s.state ≡ false

Silent-if : (b : Bool) (x y : Server) → Silent x → Silent y → Silent (if b then x else y)
Silent-if true x y h k = h
Silent-if false x y h k = k

reply_if-Silent :
    (b : Bool) (x y : EspErr × Server)
    → Silent (x.1)
    → Silent (y.1)
    → Silent ((if b then x else y).1)
reply_if-Silent true x y h k = h
reply_if-Silent false x y h k = k

on_accept-Silent : (a : Accept) (s : Server) → Silent s → Silent (on_accept a s)
on_accept-Silent no_client s h = Silent-if s.shutdown_requested _ _ h h
on_accept-Silent wan_client s h = h
on_accept-Silent client s h = Silent-if (not s.has_mutex || s.session_taken) _ _ h refl

start_if_none-Silent :
    (opens created : Bool) (p : Option Phase) (s : Server)
    → Silent s
    → Silent ((start_if_none opens created p s).1)
start_if_none-Silent opens true none s h = refl
start_if_none-Silent opens false none s h = h
start_if_none-Silent opens created (some phase) s h = h

-- the step with which an accepted client gets its session
abbrev pub Admits : Server → Server → Type 0
Admits s t =
    (e : Env) × (s.task ≡ some authenticating)
    × (e.auth ≡ accepted)
    × (e.area ≡ true)
    × (t ≡ remote_console_task e s)

Admission : Env → Option Phase → Type 0
Admission e p = (p ≡ some authenticating) × (e.auth ≡ accepted) × (e.area ≡ true)

on_auth-Silent :
    (e : Env) (a : AuthResult) (s : Server)
    → e.auth ≡ a
    → Silent s
    → Silent (on_auth e a s) ⊎ Admission e (some authenticating)
unfolding Admission
on_auth-Silent e accepted s passed h = elim (Bool-cases e.area) [
  | inl area ↦ inr (refl, passed, area)
  | inr area ↦ inl (rw area refl)
]
on_auth-Silent e refused s passed h = inl refl
on_auth-Silent e pending s passed h =
    inl (Silent-if (s.kick_requested || s.shutdown_requested) _ _ refl h)

phase_step-Silent :
    (e : Env) (p : Option Phase) (s : Server) → Silent s → Silent (phase_step e p s) ⊎ Admission e p
phase_step-Silent e none s h = inl h
phase_step-Silent e (some opening) s h =
    inl (Silent-if s.shutdown_requested _ _ refl (Silent-if e.opens _ _ refl h))
phase_step-Silent e (some accepting) s h = inl (Silent-if s.shutdown_requested _ _ h h)
phase_step-Silent e (some in_accept) s h = inl (on_accept-Silent e.accept s h)
phase_step-Silent e (some authenticating) s h = on_auth-Silent e e.auth _ refl h
phase_step-Silent e (some in_session) s h =
    inl (Silent-if (s.kick_requested || s.shutdown_requested || e.session_over) _ _ refl h)

Step-Silent : {s t : Server} → Step s t → Silent s → Silent t ⊎ Admits s t
unfolding remote_console_task remote_console_enable remote_console_set_port
    remote_console_set_timeout remote_console_kick Admission
Step-Silent (by_task e s) h = elim (phase_step-Silent e s.task s h) [
  | inl silent ↦ inl silent
  | inr (there, passed, area) ↦ inr (e, there, passed, area, refl)
]
Step-Silent (by_enable opens created s) h =
    inl (reply_if-Silent s.config.enabled _ _ h (start_if_none-Silent opens created s.task _ h))
Step-Silent (by_request opens s) h = inl h
Step-Silent (by_disabled s) h = inl refl
Step-Silent (by_port opens port s) h = inl (reply_if-Silent (port == 0) _ _ h h)
Step-Silent (by_timeout opens timeout_sec s) h = inl h
Step-Silent (by_kick s) h = inl (reply_if-Silent (is_active s.state) _ _ h h)

true≢false_of : (b : Bool) → b ≡ true → b ≡ false → ⊥
true≢false_of b h k = ground (arith, h, k)

-- A step after which a session is active, and before which none was, is a step of the task with a
-- client whose login was accepted: no call and no other step opens a session.
pub Step-Admits :
    {s t : Server} → Step s t → is_active s.state ≡ false → is_active t.state ≡ true → Admits s t
Step-Admits {s} {t} step before after = elim (Step-Silent step before) [
  | inl silent ↦ absurd (true≢false_of (is_active t.state) after silent)
  | inr admits ↦ admits
]
