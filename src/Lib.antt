-- ===== src/Lib.antt =====
-- A model of Blankie, the daemon that locks, fades and suspends an idle Linux machine. The daemon
-- keeps a list of running modules (plug-ins) equal to the list of modules that its selectors ask for;
-- sessions tell since when the user is idle; the user's configuration asks for modules according to
-- the idle time.
--
-- Which file models which part of the repository (a child module proves what its
-- name says):
--   Exec          Python code that mutates shared state and may raise: an outcome and the new state;
--                 Exec.Triples has the rules on preconditions and postconditions of code that returns.
--   Spec          module specs (tuples) and Python's list operations on them.
--   Manager       src/blankie/module.py: do_one_module, start_stop_modules (`rounds`), and in
--                 Manager.Update `update`, with the recursion of modules that call `update` when
--                 they are started or stopped (Manager.Reentrant). Manager.Promise is about what
--                 `update` leaves in the world and in the wanted list when modules call it again,
--                 Manager.Returns about its end with the program's dependencies.
--   Loading       src/blankie/module.py: get, its search over the classes (`search`), load_module, and
--                 the search for the configuration file in load of config.py. Loading.Dependencies:
--                 get_dependencies of the modules that have dependencies.
--   CommandLine   main of src/blankie/__init__.py, the client functions of src/blankie/server.py,
--                 get_session and remote_attach_or_detach of session.py, stop_remote of daemon.py.
--   World         the globals of src/blankie/__init__.py, config.py and session.py, and the session
--                 objects of src/blankie/modules/session/.
--   Idle          get_idle_since of src/blankie/__init__.py and of the session classes.
--   UserConfig    the user's function `config(c)`, as the API calls that it makes.
--   Config        src/blankie/config.py: the Configurator. Config.Asks: when a configuration asks for
--                 a module.
--   Session       src/blankie/session.py: attach, detach, the session selector, start and stop of
--                 sessions; lock and unlock of src/blankie/__init__.py.
--   Timer         src/blankie/modules/timer.py.
--   Selectors     the registry of selectors, core_selector, lock_selector, and the start and stop of
--                 PerSessionModuleLauncher. Selectors.Chosen and Selectors.Asked: what is in the list
--                 of wanted modules after all of them have run.
--   Program       the daemon put together: in Program.Modules the start and stop of its modules, by
--                 the name in a module's spec, as the classes of the module manager; Program.Locking,
--                 Program.Attaching, Program.Reloading and Program.Shutdown are about lock, attach,
--                 reload and shutdown with these classes.
--   EventLoop     src/blankie/daemon.py: the class EventLoop.
--   Lifecycle     src/blankie/daemon.py: shutdown and stop, in Lifecycle.Start start; config.reload.
--                 The assertion of `update` that it runs in the main thread stands in Lifecycle.Start
--                 (`asserted_update`), where it can fail; everywhere else `update` is called by the
--                 main thread.
--   Server        src/blankie/modules/server.py: server_run_command; in Server.Listener the threads
--                 that accept connections and read commands, and how the server stops.
--   WakeLock      src/blankie/modules/server.py: server_wake_lock.
--   Packets, BusServer   src/blankie/modules/bus_server.py; BusServer.Threads has the threads' loops
--                 and the tasks that they call.
--   BusClient     src/blankie/modules/bus_client.py.
--   Remote        src/blankie/modules/session/remote.py, remote_receiver.py, remote_sender.py, and
--                 the loop over the running modules in handle_packet of bus_client.py.
--   Backlight     src/blankie/modules/xbacklight.py.
--   Events        src/blankie/modules/xss.py and tty_idle.py: the event handlers, and in
--                 Events.Readers start, stop and the readers.
--   XssHelper     src/blankie/xss_helper.py.
--   Sleep         src/blankie/modules/logind.py and power.py.
--   SystemBus     src/blankie/modules/glib.py, dbus.py, upower.py, and start and stop of logind.py.
--   Locker        src/blankie/modules/i3lock.py, physlock.py and lock.py.
--   Logging       src/blankie/logging.py.
--   Commands      src/blankie/modules/xset.py, dpms.py, xkbmap.py, dunst.py and physlock_vtswitch.py.
--
-- How they interact: `update` runs the selectors in the order of their keys and then
-- `start_stop_modules`. Sessions, the lock state, the timer, the server and the remote modules call
-- `update`; in their models it is a parameter, an action on the state of the daemon, so that their
-- theorems hold for any modules. The module manager takes the classes of the modules as a record of
-- operations (`Classes`), of which `start` and `stop` may change the manager's own lists, since
-- modules call `update` from there. Program fills this record: sessions, launchers and the module
-- "lock" are the models of Session, Selectors and Locker, `update` in them is the manager's own, and
-- the selectors are those of Selectors; the modules that do not call `update` when they are started
-- or stopped stay a parameter (`Rest`), with what they must leave alone as hypotheses. The user's commands reach the daemon through the socket: in
-- CommandLine the daemon's answer is a parameter, and CommandLine.Refines gives it the server's
-- functions. What other threads do to shared state is a step relation (EventLoop, Server.Listener,
-- WakeLock) or a sequence of tasks (BusServer.Threads).
--
-- Numbers: times are numbers of milliseconds (integers, Python's int and float being unbounded or
-- wide enough), with infinities and NaN as in the source. Sets and dicts are lists in the order of
-- insertion.
--
-- Fuel: the rounds of `start_stop_modules`, the depth of dependencies and of nested updates, the walk
-- of the bus client over the running modules, and the waiting of `stop_remote` take a bound, and
-- `out_of_fuel` is the outcome when it is too small. How much is enough for the rounds, the
-- dependencies and the nested updates is a result (for the dependencies of the program's modules, a
-- depth of three); the other bounds are any number.
--
-- Not modelled: what the operating system, the X server, D-Bus, GLib and other programs do (their
-- answers are parameters or fields), JSON and the encoding of texts, the blocking of threads on each
-- other beyond the order of their steps, and the log messages of the other modules.
pub mod Backlight
pub mod BusClient
pub mod BusServer
pub mod CommandLine
pub mod Commands
pub mod Config
pub mod EventLoop
pub mod Events
pub mod Exec
pub mod Idle
pub mod Lifecycle
pub mod Loading
pub mod Locker
pub mod Logging
pub mod Manager
pub mod Packets
pub mod Prelude
pub mod Program
pub mod Remote
pub mod Selectors
pub mod Server
pub mod Session
pub mod Sleep
pub mod Spec
pub mod SystemBus
pub mod Tests
pub mod Timer
pub mod UserConfig
pub mod WakeLock
pub mod World
pub mod XssHelper
