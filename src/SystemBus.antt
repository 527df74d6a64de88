-- ===== src/SystemBus.antt =====
-- modules/glib.py, modules/dbus.py and modules/upower.py, and the `start` and `stop` of
-- modules/logind.py on them.
pub mod Release
use blankie.Prelude.{
  ℕ, suc, String, List, [], ◌∷◌, ◌++◌, Bool, true, false, Option, none, some, if◌then◌else◌,
}
use blankie.Exec.{
  Exec, Error, Outcome, return, raise, out_of_fuel, exception, pure, throw, diverge, modify, ◌>>=◌,
  ◌>>◌,
}
use blankie.Sleep.{Logind, inhibit, uninhibit}

-- The attributes of the `GLibModule`, and the functions that `GLib.idle_add` has queued for the
-- thread of the main loop, each with its effect on `S`.
pub record Glib (S : Type 0) : Type 0 where
  pub mainloop : Bool
  pub glib_thread : Bool
  pub idle : List (S → S)
  pub state : S

-- An element of `result_getter`.
pub data Getter (A : Type 0) : Type 0 where
  value : A → Getter A
  raiser : Error → Getter A

module _ {S : Type 0} where
  unfoldable pub start : Glib S → Glib S
  start g = record g { mainloop = true; glib_thread = true }

  unfoldable pub run_async : (S → S) → Glib S → Glib S
  run_async f g = record g { idle = g.idle ++ f ∷ [] }

  abbrev run_idle : List (S → S) → S → S
  run_idle [] s = s
  run_idle (f ∷ fs) s = run_idle fs (f s)

  -- The thread has performed what was queued.
  abbrev pub drain : Glib S → Glib S
  drain g = record g { idle = []; state = run_idle g.idle g.state }

  -- `stop`: `mainloop.quit` on None raises; then the thread ends.
  unfoldable pub stop : Exec (Glib S) (Unit {0})
  stop g =
      if g.mainloop
      then (return tt, record (drain g) { mainloop = false; glib_thread = false })
      else throw (exception "AttributeError") g

  module _ {A : Type 0} where
    -- `assert len(result_getter) == 1; return result_getter[0]()`
    abbrev call_getter : List (Getter A) → Exec (Glib S) A
    call_getter (value a ∷ []) = pure a
    call_getter (raiser e ∷ []) = throw e
    call_getter (g ∷ h ∷ gs) = throw (exception "AssertionError")
    call_getter [] = throw (exception "AssertionError")

    -- The end of `func`, which the local function `run` appends to `result_getter` before it sets
    -- the event that the caller waits for.
    abbrev finish : Outcome A → Exec (Glib S) A
    finish (return a) = call_getter (value a ∷ [])
    finish (raise e) = call_getter (raiser e ∷ [])
    finish out_of_fuel = diverge

    -- `run_sync`, with a main loop that runs.
    unfoldable pub run_sync : Exec S A → Exec (Glib S) A
    run_sync func g =
        let d = drain g in let (r, s) = func d.state in finish r (record d { state = s })

-- The `DBusModule`: `system_bus`, and whether its main loop is set.
pub record DBus : Type 0 where
  pub dbus_mainloop : Bool
  pub system_bus : Bool

unfoldable pub dbus_start : (reachable : Bool) → Exec DBus (Unit {0})
dbus_start reachable = do
  modify (λ d. record d { dbus_mainloop = true })
  if reachable
      then modify (λ d. record d { system_bus = true })
      else throw (exception "DBusException")

unfoldable pub dbus_stop : Exec DBus (Unit {0})
dbus_stop d =
    if d.system_bus
    then (return tt, record d { system_bus = false; dbus_mainloop = false })
    else throw (exception "AttributeError") d

-- Whether `dbus.system_bus` is set, whether a receiver of the signal `PrepareForSleep` is registered,
-- and the module that holds the lock.
pub record Bus : Type 0 where
  pub connected : Bool
  pub receiver : Bool
  pub logind : Logind

abbrev on_logind : Exec Logind (Unit {0}) → Exec Bus (Unit {0})
on_logind act b = let (r, l) = act b.logind in (r, record b { logind = l })

-- `add_signal_receiver` and `remove_signal_receiver` of `self.dbus.system_bus`, which may be None.
abbrev set_receiver : Bool → Exec Bus (Unit {0})
set_receiver there b =
    if b.connected
    then (return tt, record b { receiver = there })
    else throw (exception "AttributeError") b

-- The local functions `setup` and `teardown` of `LogindModule`.
unfoldable pub setup : (granted : Bool) → Exec Bus (Unit {0})
setup granted = do set_receiver true; on_logind (inhibit granted)

unfoldable pub teardown : Exec Bus (Unit {0})
teardown = do
  set_receiver false
  λ b. (if b.logind.inhibitor then on_logind uninhibit else pure tt) b

unfoldable pub logind_start : (granted : Bool) → Exec (Glib Bus) (Unit {0})
unfolding run_sync setup
logind_start granted = run_sync (setup granted)

unfoldable pub logind_stop : Exec (Glib Bus) (Unit {0})
unfolding run_sync teardown
logind_stop = run_sync teardown

-- The `UPowerModule`; `pings` counts the calls of `upower_handle_ping`, which calls `update`.
pub record UPower : Type 0 where
  pub upower_process : Bool
  pub upower_reader_thread : Bool
  pub pings : ℕ

abbrev launch_upower : (there : Bool) → Exec UPower (Unit {0})
launch_upower true = modify (λ u. record u { upower_process = true; upower_reader_thread = true })
launch_upower false = throw (exception "FileNotFoundError")

unfoldable pub upower_start : (there : Bool) → Exec UPower (Unit {0})
upower_start there = λ u. (if u.upower_process then pure tt else launch_upower there) u

unfoldable pub upower_stop : UPower → UPower
upower_stop u =
    if u.upower_process
    then record u { upower_process = false; upower_reader_thread = false }
    else u

-- The loop of `upower_reader` over the lines.
unfoldable pub upower_reader : List String → UPower → UPower
upower_reader [] u = u
upower_reader (line ∷ lines) u = upower_reader lines (record u { pings = suc u.pings })
