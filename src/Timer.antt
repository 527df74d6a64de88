-- ===== src/Timer.antt =====
-- modules/timer.py: the timer that wakes the daemon when the next idle hook is due.
pub mod Next
use blankie.Prelude.{
  ℕ, ◌+◌, ◌*◌, List, [], ◌∷◌, Bool, true, false, ◌&&◌, Option, none, some, ltb, if◌then◌else◌,
}
use blankie.Prelude.Int.{ℤ, pos, ◌+ℤ◌, ◌-ℤ◌}
use blankie.Exec.{Exec, pure, modify, ◌>>=◌, ◌>>◌}
use blankie.World.{Moment, minus_inf, at, plus_inf, World, sensing}
use blankie.Idle.{before}
use blankie.Config.{idle_time, seconds}
use blankie.Session.{Daemon, invalidate_sessions}
use blankie.Manager.{on_world}

-- `timeout < next_time`, where `next_time` starts as infinity.
abbrev pub below_next : ℕ → Option ℕ → Bool
below_next t none = true
below_next t (some n) = ltb t n

-- The loop of `timer_start_next` over the schedule.
unfoldable pub next_time : Moment → Option ℕ → List ℕ → Option ℕ
next_time idle next [] = next
next_time idle next (t ∷ ts) =
    next_time idle (if before idle (seconds t) && below_next t next then some t else next) ts

-- `next_time - idle_time + 1`, in milliseconds.
unfoldable pub to_sleep : ℕ → Moment → Moment
to_sleep n minus_inf = plus_inf
to_sleep n (at i) = at (pos (n * 1000 + 1000) -ℤ i)
to_sleep n plus_inf = minus_inf

-- The attribute `timer` of the module, by its interval, and the rest of the daemon.
pub record TimerState : Type 0 where
  pub timer : Option Moment
  pub daemon : Daemon

abbrev on_daemon {ℓ} : {A : Type ℓ} → Exec Daemon A → Exec TimerState A
on_daemon act x = let (r, m) = act x.daemon in (r, record x { daemon = m })

unfoldable pub timer_cancel : TimerState → TimerState
timer_cancel x = record x { timer = none }

abbrev arm : Option ℕ → Moment → Exec TimerState (Unit {0})
arm none idle = pure tt
arm (some n) idle = modify (λ x. record x { timer = some (to_sleep n idle) })

unfoldable pub timer_start_next : List ℕ → Exec TimerState (Unit {0})
unfolding timer_cancel next_time
timer_start_next schedule = do
  modify timer_cancel
  idle ← on_daemon (on_world idle_time)
  if before idle (at (pos 0)) then pure tt else arm (next_time idle none schedule) idle

unfoldable pub timer_handle_done : Exec Daemon (Unit {0}) → List ℕ → Exec TimerState (Unit {0})
unfolding timer_start_next
timer_handle_done update schedule = do
  modify timer_cancel
  on_daemon (on_world (sensing invalidate_sessions))
  on_daemon update
  timer_start_next schedule
