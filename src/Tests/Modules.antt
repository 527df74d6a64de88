-- ===== src/Tests/Modules.antt =====
-- The bus, the remote modules, the screen's brightness and the lock screens at concrete states.
use blankie.Prelude.{
  ℕ, String, List, [], ◌∷◌, true, false, ◌≡◌, refl, Option, some, none, arith, ◌==◌, if◌then◌else◌,
}
use blankie.Prelude.Int.{pos}
use blankie.Exec.{return, raise, exception}
use blankie.Spec.{contains, remove, spec_eq}
use blankie.World.{Moment, at, plus_inf, since, find, get_session, sensing}
use blankie.Idle.{
  get_idle_since, get_sessions, readings, effective, latest, sessions_idle_since, before,
}
use blankie.Packets.{Payload, disconnect, hello, idle_since}
use blankie.BusServer.{BusServer, Handler, handle_packet}
use blankie.BusServer.Same.{IsRegistry}
use blankie.BusServer.Threads.{Task, handle_socket, handle_line, stop_handler, perform}
use blankie.BusServer.Threads.Tasks.{Runs, here, then_task, Runs-IsRegistry}
use blankie.BusServer.Relay.{handle_packet-unidentified}
use blankie.Session.{Daemon, unlock, specs_of, set_specs, detach}
use blankie.Remote.{Sender, receive, remote_spec, remote_specs, detach_all, sender_update}
use blankie.Remote.Disconnect.{receive-disconnect}
use blankie.Remote.View.{hear_all, sender_update-Told}
use blankie.Backlight.{Backlight, sets, fails, missing, start, stop}
use blankie.Backlight.Restore.{begin, faded, stop-restores}
use blankie.Locker.{Locker, gone, refused, i3lock_stop, physlock_stop, handle_exit}
use blankie.Locker.Exit.{stop-handle_exit}
use blankie.Tests.Idle.{daemon, display, quiet}

abbrev named : Option String → Handler
named id = record { instance_id = id; challenge = 1 ∷ []; connected = true; broken = false }

-- Two clients, and a third that has not identified itself.
abbrev bus : BusServer
bus = record {
  handlers = λ k.
      if k == 0 then named (some "desk") else if k == 1 then named (some "lap") else named none;
  clients = ("desk", 0) ∷ ("lap", 1) ∷ [];
  bus_key = some (5 ∷ []);
  sent = [];
}

-- A stand-in for the hash.
abbrev hash : List ℕ → List ℕ
hash xs = 0 ∷ xs

-- A third client connects, proves that it knows the key under the id of the second, and leaves.
abbrev visited : BusServer → List Task → BusServer
visited b [] = b
visited b (t ∷ ts) = visited (perform hash t b).1 ts

abbrev visit : List Task
visit =
    handle_socket 3 (7 ∷ [])
    ∷ handle_line 3 (hello (some (0 ∷ 5 ∷ 7 ∷ [])) "lap")
    ∷ stop_handler 3
    ∷ []

visit-Runs : Runs hash bus (visited bus visit)
visit-Runs =
    then_task (stop_handler 3)
      (then_task (handle_line 3 (hello (some (0 ∷ 5 ∷ 7 ∷ [])) "lap"))
        (then_task (handle_socket 3 (7 ∷ [])) here refl) tt)
      tt

Runs-IsRegistry_example : IsRegistry (visited bus visit)
Runs-IsRegistry_example = Runs-IsRegistry hash bus (visited bus visit) (refl, (refl, tt)) visit-Runs

handle_packet-unidentified_example :
    (handle_packet hash 2 (hello (some (9 ∷ [])) "lap") bus).1 ≡ bus
handle_packet-unidentified_example =
    handle_packet-unidentified hash 2 (hello (some (9 ∷ [])) "lap") bus refl
      (λ (key, d, k, e, h). ground arith)

-- Attached to a display and to two other instances.
abbrev joined : Daemon
joined = set_specs (remote_spec "desk" ∷ display ∷ remote_spec "lap" ∷ []) daemon

disconnected : receive quiet disconnect joined ≡ (return tt, daemon)
unfolding receive detach_all remote_specs detach contains remove spec_eq
disconnected = refl

receive-disconnect_example : specs_of daemon ≡ display ∷ []
receive-disconnect_example = receive-disconnect quiet (λ m. refl) joined daemon disconnected

abbrev sender : Moment → List Payload → Daemon → Sender
sender t outbox m = record {
  last_idle_since = t;
  last_locked = false;
  outbox = outbox;
  world = m.world;
}

abbrev told : Sender
told = sender (at (pos 10000)) (idle_since (since (at (pos 10000))) ∷ []) daemon

updated : sender_update false (sender plus_inf [] daemon) ≡ (return tt, told)
unfolding sender_update get_idle_since sessions_idle_since get_sessions readings effective latest
    before get_session find spec_eq
updated = refl

sender_update-Told_example :
    (t : Moment) × ((sensing get_idle_since daemon.world).0 ≡ return t)
    × (hear_all (plus_inf, false) told.outbox ≡ (t, told.world.locked))
sender_update-Told_example =
    sender_update-Told (plus_inf, false) false (sender plus_inf [] daemon) told refl updated

abbrev backlight : Backlight
backlight = record {
  args = "-ctrl" ∷ "acpi" ∷ [];
  set_args = [];
  fading = false;
  brightness = none;
  screen = "80";
}

abbrev fading : Backlight
fading = record backlight { fading = true; brightness = some "80" }

abbrev dark : Backlight
dark = record fading { screen = "0" }

stop-restores_example :
    (let n = (stop sets dark).1 in
      (stop sets dark ≡ (return tt, n))
      × ((n.screen ≡ "80") × ((n.brightness ≡ none) × (n.fading ≡ false))))
    × (let n = (stop missing dark).1 in
        (stop missing dark ≡ (raise (exception "FileNotFoundError"), n))
        × ((n.screen ≡ "0")
            × ((n.brightness ≡ some "80")
                × ((n.fading ≡ false) × ((stop sets n).1.screen ≡ "80")))))
    × (let n = (stop (fails "3") dark).1 in
        (stop (fails "3") dark ≡ (return tt, n))
        × ((n.screen ≡ "3") × ((n.brightness ≡ none) × (n.fading ≡ false))))
unfolding start
stop-restores_example = stop-restores backlight fading dark "3" refl refl (faded begin "0" refl)

abbrev locker : Locker
locker = record { pid = some 42; waiter = true; daemon = daemon }

stop-handle_exit_example :
    (let y = (i3lock_stop gone locker).1 in handle_exit quiet 42 y ≡ (return tt, y))
    × (let y = (physlock_stop gone true locker).1 in handle_exit quiet 42 y ≡ (return tt, y))
    × (i3lock_stop refused locker ≡ (raise (exception "PermissionError"), locker))
    × (physlock_stop refused true locker ≡ (raise (exception "PermissionError"), locker))
    × (let y = (handle_exit quiet 42 locker).1 in
        (y.daemon ≡ (unlock quiet daemon).1) × (handle_exit quiet 42 y ≡ (return tt, y)))
stop-handle_exit_example = stop-handle_exit quiet true 42 42 locker refl
