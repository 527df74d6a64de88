-- ===== src/Config.antt =====
-- config.py: the configurator evaluates the user's configuration, and its selector asks for the
-- modules that it names.
pub mod Asks
pub mod Keeps
pub mod Wakeup
pub mod Schedule
use blankie.Prelude.{
  ℕ, zero, suc, ◌*◌, List, [], ◌∷◌, ◌++◌, Bool, true, false, Option, none, some, ltb, ◌==◌,
  if◌then◌else◌,
}
use blankie.Prelude.Int.{ℤ, pos, negsuc, ◌-ℤ◌}
use blankie.Exec.{Exec, return, user_error, pure, throw, gets, modify, ◌>>=◌, ◌>>◌}
use blankie.Spec.{Spec, number, numbers, nil, cons}
use blankie.UserConfig.{
  Argument, integer, other, UserConfig, finish, fail, run_module, is_locked, is_idle_for,
  set_bus_key,
}
use blankie.World.{Moment, minus_inf, at, plus_inf, World, sensing}
use blankie.Idle.{before, get_idle_since}
use blankie.Manager.{Selection}

-- `time.time() - t`
unfoldable pub elapsed : ℤ → Moment → Moment
elapsed now minus_inf = plus_inf
elapsed now (at t) = at (now -ℤ t)
elapsed now plus_inf = minus_inf

unfoldable pub idle_time : Exec World Moment
unfolding elapsed
idle_time = do
  t ← sensing get_idle_since
  now ← gets (λ w. w.sensors.outside.now)
  pure (elapsed now t)

-- A number of seconds, as the argument of a comparison.
abbrev pub seconds : ℕ → Moment
seconds n = at (pos (n * 1000))

abbrev pub note_timer : ℕ → World → World
note_timer n w = record w { idle_timers = w.idle_timers ++ n ∷ [] }

-- `is_idle_for`, with a valid argument.
unfoldable pub is_idle_for_seconds : ℕ → Exec World Bool
unfolding idle_time
is_idle_for_seconds n = do
  idle ← idle_time
  if before (seconds n) idle then pure true else modify (note_timer n) >> pure false

unfoldable pub ask_idle_for : Argument → Exec World Bool
unfolding is_idle_for_seconds
ask_idle_for (integer (pos (suc n))) = is_idle_for_seconds (suc n)
ask_idle_for (integer n) = throw (user_error "Invalid idle time - must be a positive integer")
ask_idle_for other = throw (user_error "Invalid idle time - must be a positive integer")

-- `module.config(self)`: the user's function, with the API's methods.
unfoldable pub run_config : UserConfig → Exec World (Unit {0})
run_config finish w = (return tt, w)
run_config (fail e) w = throw e w
run_config (run_module s next) w = run_config next (record w { modules = w.modules ++ s ∷ [] })
run_config (is_locked next) w = run_config (next w.locked) w
run_config (is_idle_for n next) w = (ask_idle_for n >>= λ b. run_config (next b)) w
run_config (set_bus_key key next) w = run_config next (record w { bus_key = some key })

unfoldable pub reset : World → World
reset w = record w { modules = []; idle_timers = []; bus_key = none }

abbrev config_or_nothing : Option UserConfig → Exec World (Unit {0})
config_or_nothing none = pure tt
config_or_nothing (some c) = run_config c

unfoldable pub evaluate : Exec World (Unit {0})
unfolding reset
evaluate w = config_or_nothing w.config (reset w)

-- `sorted(set(timers))`
unfoldable pub insert_sorted : ℕ → List ℕ → List ℕ
insert_sorted n [] = n ∷ []
insert_sorted n (m ∷ ms) =
    if n == m then m ∷ ms else if ltb n m then n ∷ m ∷ ms else m ∷ insert_sorted n ms

unfoldable pub get_schedule : List ℕ → List ℕ
unfolding insert_sorted
get_schedule [] = []
get_schedule (t ∷ ts) = insert_sorted t (get_schedule ts)

-- An action of the configurator, in a selector.
abbrev in_selection {ℓ} : {A : Type ℓ} → Exec World A → Exec (Selection World) A
in_selection act x = let (r, w) = act x.world in (r, record x { world = w })

abbrev ask_for : List Spec → Selection World → Selection World
ask_for specs x = record x { chosen = x.chosen ++ specs }

abbrev pub first_timeout : List ℕ → List Spec
first_timeout [] = []
first_timeout (t ∷ ts) = record { name = "xset"; params = cons (number t) nil } ∷ []

abbrev pub timer_for : List ℕ → Moment → List Spec
timer_for [] idle = []
timer_for (t ∷ ts) idle =
    if before idle (at (pos 0))
    then []
    else record { name = "timer"; params = cons (numbers (t ∷ ts)) nil } ∷ []

-- The method `selector`.
unfoldable pub config_selector : Exec (Selection World) (Unit {0})
unfolding evaluate get_schedule
config_selector = do
  in_selection evaluate
  timers ← gets (λ x. x.world.idle_timers)
  let schedule = get_schedule timers
  modify (ask_for (first_timeout schedule))
  idle ← in_selection idle_time
  modify (ask_for (timer_for schedule idle))
  modules ← gets (λ x. x.world.modules)
  modify (ask_for modules)
