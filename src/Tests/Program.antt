-- ===== src/Tests/Program.antt =====
-- The program's commands, the socket's server, and the start of the daemon, at concrete states.
use blankie.Prelude.{ℕ, suc, List, [], ◌∷◌, length, true, false, ◌≡◌, ◌≢◌, ◌⊎◌, refl, none, some}
use blankie.Exec.{Exec, Outcome, exception, return, pure, throw}
use blankie.Spec.{Spec, spec_eq}
use blankie.World.{get_session, find}
use blankie.Idle.{get_sessions}
use blankie.EventLoop.{EventLoop}
use blankie.Session.{Daemon, invalidate_sessions}
use blankie.Server.{Chunk, ping}
use blankie.Server.Listener.{
  Listener, Errand, wake_lock, handle_request, read_line, hand_over, command, errand,
  interrupt_requests, member, Reaches, here, then_step, accepts, hands_over, reads,
}
use blankie.Server.Listener.Stopping.{errands, interrupt_requests-quiet}
use blankie.Lifecycle.Start.{Process, live, start, has_pid_file, written, not_opened, not_written}
use blankie.Lifecycle.Start.Cleanup.{start-removes, start-unwritten}
use blankie.CommandLine.{Client, Machine, main, get_session as session_found}
use blankie.CommandLine.Refines.{IsCalm, Runs, Control, promise, view, serve_command, main-refines}
use blankie.Tests.Idle.{daemon, quiet, display}

abbrev main_loop : EventLoop ℕ Daemon
main_loop = record { queue = []; stopping = false; world = daemon }

abbrev no_command : Spec → Exec Daemon (Unit {0})
no_command s = throw (exception "NotImplementedError")

abbrev served : Errand → EventLoop ℕ Daemon → List Chunk × EventLoop ℕ Daemon
served (command c) l = serve_command quiet (pure tt) no_command c l
served wake_lock l = ([], l)

-- A terminal in the display `:0`.
abbrev terminal : Machine (EventLoop ℕ Daemon)
terminal = record {
  display = some ":0";
  tty_name = none;
  listening = λ l. true;
  serve = served;
  has_pid_file = λ l. true;
  still_running = λ l n. false;
  start = λ fork. pure 0;
  make_run_dir = pure tt;
  load = pure tt;
}

terminal-Runs : Runs quiet (pure tt) no_command terminal display main_loop
unfolding session_found
terminal-Runs = record {
  listening = refl;
  serves = λ c. refl;
  makes_run_dir = refl;
  loads = refl;
  session = refl;
}

quiet-IsCalm : IsCalm quiet
quiet-IsCalm = record { returns = λ m. refl; keeps_locked = λ m. refl; keeps_specs = λ m. refl }

main-refines_example :
    let x : Client (EventLoop ℕ Daemon) = record { machine = main_loop; output = [] } in
    let (r, y) = main terminal 3 ("lock" ∷ []) x in
    let (promised, output) = promise display Control.lock (view main_loop) in
    (r ≡ return 0) × (view y.machine ≡ promised) × (y.output ≡ output ∷ [])
unfolding invalidate_sessions get_sessions get_session find spec_eq
main-refines_example =
    main-refines quiet (pure tt) no_command quiet-IsCalm terminal 3 display Control.lock []
      (record { machine = main_loop; output = [] }) terminal-Runs refl

-- Connection 7 is about to pass `ping` on when the server is stopped.
abbrev serving : Listener
serving = record {
  has_server = true;
  stopping = false;
  accepting = true;
  requests = 7 ∷ 5 ∷ [];
  accepted = 7 ∷ 5 ∷ [];
  reading = 5 ∷ [];
  checked = (7, command ping) ∷ [];
  interrupted = [];
  calls = [];
}

abbrev quieted : Listener
quieted = record {
  has_server = true;
  stopping = true;
  accepting = false;
  requests = 8 ∷ 7 ∷ 5 ∷ [];
  accepted = 8 ∷ 7 ∷ 5 ∷ [];
  reading = 8 ∷ [];
  checked = [];
  interrupted = 7 ∷ 5 ∷ [];
  calls = (7, command ping) ∷ [];
}

listened : Unit {0}
unfolding handle_request read_line hand_over interrupt_requests
listened = tt

stopped : Reaches (interrupt_requests serving) quieted
unfolding listened
stopped =
    then_step
      (then_step (then_step here (hands_over 7 (command ping) [] [] refl))
        (reads 5 (errand (command ping)) refl))
      (accepts 8 refl)

interrupt_requests-quiet_example :
    (quieted.stopping ≡ true)
    × (member 5 quieted.interrupted ≡ true)
    × (errands quieted ≡ errands serving)
    × ((length quieted.accepted ≡ length serving.accepted)
        ⊎ (quieted.accepting ≡ false) × (length quieted.accepted ≡ suc (length serving.accepted)))
interrupt_requests-quiet_example = interrupt_requests-quiet serving quieted 5 refl stopped

abbrev launched : Process ℕ
launched = record {
  loop = main_loop;
  at_exit = false;
  handlers = false;
  event_loop_thread = false;
  ready = false;
}

-- The loop fails at once.
abbrev broken_loop : Exec (EventLoop ℕ Daemon) (Unit {0})
broken_loop = throw (exception "KeyboardInterrupt")

start-removes_example :
    (has_pid_file (live quiet broken_loop written launched) ≡ false)
    × ((◌≡◌ {A = Outcome (Unit {0})} (return tt) (return tt))
          × (start quiet broken_loop written launched ≡ 0)
        ⊎ (◌≢◌ {A = Outcome (Unit {0})} (return tt) (return tt))
          × (start quiet broken_loop written launched ≡ 1))
start-removes_example =
    start-removes quiet broken_loop launched refl refl (λ l h. cc) (λ h. cc) refl

start-unwritten_example :
    ((start quiet broken_loop not_opened launched ≡ 1)
      × ((live quiet broken_loop not_opened launched).loop.world.running ≡ daemon.running)
      × (has_pid_file (live quiet broken_loop not_opened launched) ≡ has_pid_file launched))
    × ((start quiet broken_loop not_written launched ≡ 1)
        × ((live quiet broken_loop not_written launched).loop.world.running ≡ daemon.running)
        × (has_pid_file (live quiet broken_loop not_written launched) ≡ true))
start-unwritten_example = start-unwritten quiet broken_loop launched refl refl
