-- ===== src/CommandLine/Refines.antt =====
-- The commands of the user (__init__.py), through the socket (server.py) to the daemon
-- (modules/server.py, session.py), against what they promise.
use blankie.Prelude.{
  ℕ, String, List, [], ◌∷◌, ◌++◌, Bool, true, false, ◌≡◌, refl, ◌∙◌, ap, some, arith, if◌then◌else◌,
}
use blankie.Exec.{Exec, return, user_error}
use blankie.Spec.{Spec, contains, remove}
use blankie.World.{World}
use blankie.EventLoop.{EventLoop}
use blankie.Session.{
  Daemon, specs_of, set_specs, set_locked, attach as attach_session, detach as detach_session,
  lock as lock_system, unlock as unlock_system, invalidate_sessions,
}
use blankie.Session.Invalidate.{invalidate_sessions-Same}
use blankie.Server.{
  Chunk, bytes, error_text, Command, lock_screen, unlock_screen, attach_to, detach_from,
  server_run_command,
}
use blankie.Server.Listener.{command}
use blankie.CommandLine.{
  Client, Machine, Output, reply, attached, detached, failed_to_attach, failed_to_detach, word_of,
  get_session, main, attach_report, detach_report, dispatch, query, send, remote_attach_or_detach,
}

-- What the user knows of the daemon.
pub record View : Type 0 where
  pub locked : Bool
  pub sessions : List Spec

pub data Control : Type 0 where
  lock : Control
  unlock : Control
  attach : Control
  detach : Control

abbrev pub name_of : Control → String
name_of lock = "lock"
name_of unlock = "unlock"
name_of attach = "attach"
name_of detach = "detach"

abbrev pub view : {T : Type 0} → EventLoop T Daemon → View
view l = record { locked = l.world.world.locked; sessions = specs_of l.world }

-- What a command does to the view, for a user in the session `s`, and what it shows.
abbrev pub promise : Spec → Control → View → View × Output
promise s lock v =
    if v.locked
    then (v, reply (bytes "Already locked.\n" ∷ []))
    else (record v { locked = true }, reply (bytes "Locked.\n" ∷ []))
promise s unlock v =
    if v.locked
    then (record v { locked = false }, reply (bytes "Unlocked.\n" ∷ []))
    else (v, reply (bytes "Already unlocked.\n" ∷ []))
promise s attach v =
    if contains v.sessions s
    then (v, failed_to_attach s (error_text (user_error "Already attached to this session") ∷ []))
    else (record v { sessions = v.sessions ++ s ∷ [] }, attached s)
promise s detach v =
    if contains v.sessions s then (record v { sessions = remove v.sessions s }, detached s) else (
      v,
      failed_to_detach s (error_text (user_error "Already not attached to this session") ∷ []),
    )

-- Updates return, and leave the lock state and the attached sessions alone.
pub record IsCalm (update : Exec Daemon (Unit {0})) : Type 0 where
  pub returns : (m : Daemon) → (update m).0 ≡ return tt
  pub keeps_locked : (m : Daemon) → (update m).1.world.locked ≡ m.world.locked
  pub keeps_specs : (m : Daemon) → specs_of (update m).1 ≡ specs_of m

abbrev pub command_of : Spec → Control → Command
command_of s lock = lock_screen
command_of s unlock = unlock_screen
command_of s attach = attach_to s
command_of s detach = detach_from s

-- What the client makes of the answer.
abbrev pub shown : Spec → Control → List Chunk → Output
shown s lock answer = reply answer
shown s unlock answer = reply answer
shown s attach answer = attach_report s answer
shown s detach answer = detach_report s answer

module _ {T : Type 0} (update : Exec Daemon (Unit {0})) (load : Exec World (Unit {0}))
    (server_command : Spec → Exec Daemon (Unit {0})) where
  -- The daemon's answer to a command, while the client waits.
  abbrev pub serve_command : Command → EventLoop T Daemon → List Chunk × EventLoop T Daemon
  serve_command c l =
      let y =
        (server_run_command update load server_command c
          (record { loop = l; written = []; gone = false; done = false })).1 in
      (y.written, y.loop)

  module _ (calm : IsCalm update) where
    abbrev Serves : Spec → Control → EventLoop T Daemon → Type 0
    Serves s k l =
        let (answer, after) = serve_command (command_of s k) l in
        (view after ≡ (promise s k (view l)).0) × (shown s k answer ≡ (promise s k (view l)).1)

    serve-lock : (s : Spec) (l : EventLoop T Daemon) → Serves s lock l
    unfolding server_run_command lock_system
    serve-lock s l =
        let m = set_locked true l.world in
        ground (arith, calm.returns m, calm.keeps_locked m, calm.keeps_specs m)

    serve-attach : (s : Spec) (l : EventLoop T Daemon) → Serves s attach l
    unfolding server_run_command attach_session
    serve-attach s l =
        let m = set_specs (specs_of l.world ++ s ∷ []) l.world in
        ground (arith, calm.returns m, calm.keeps_locked m, calm.keeps_specs m)

    serve-detach : (s : Spec) (l : EventLoop T Daemon) → Serves s detach l
    unfolding server_run_command detach_session
    serve-detach s l =
        let m = set_specs (remove (specs_of l.world) s) l.world in
        ground (arith, calm.returns m, calm.keeps_locked m, calm.keeps_specs m)

    serve-unlock :
        (s : Spec) (l : EventLoop T Daemon)
        → (invalidate_sessions l.world.world.sensors).0 ≡ return tt
        → Serves s unlock l
    unfolding server_run_command unlock_system
    serve-unlock s l can =
        let v = l.world.world.sensors in
        let told : World → World = λ w. record w {
          locked = false;
          sensors = (invalidate_sessions v).1;
          notified = w.notified ++ w.waiting;
          waiting = [];
        } in
        let m : Daemon = record l.world { world = told l.world.world } in
        ground (
          arith,
          can,
          invalidate_sessions-Same v.session_specs v refl,
          calm.returns m,
          calm.keeps_locked m,
          calm.keeps_specs m,
        )

    serve-promise :
        (s : Spec) (k : Control) (l : EventLoop T Daemon)
        → (invalidate_sessions l.world.world.sensors).0 ≡ return tt
        → Serves s k l
    serve-promise s lock l can = serve-lock s l
    serve-promise s unlock l can = serve-unlock s l can
    serve-promise s attach l can = serve-attach s l
    serve-promise s detach l can = serve-detach s l

  -- The machine whose daemon runs and answers its clients.
  pub record Runs (machine : Machine (EventLoop T Daemon)) (s : Spec) (l : EventLoop T Daemon)
      : Type 0 where
    pub listening : machine.listening l ≡ true
    pub serves : (c : Command) → machine.serve (command c) l ≡ serve_command c l
    pub makes_run_dir : machine.make_run_dir l ≡ (return tt, l)
    pub loads : machine.load l ≡ (return tt, l)
    pub session : get_session machine ≡ some s

  main-sends :
      (machine : Machine (EventLoop T Daemon)) (fuel : ℕ) (s : Spec) (k : Control)
      (args : List String) (x : Client (EventLoop T Daemon))
      → Runs machine s x.machine
      → let (answer, after) = serve_command (command_of s k) x.machine in
        main machine fuel (name_of k ∷ args) x
        ≡ (return 0, record x { machine = after; output = x.output ++ shown s k answer ∷ [] })
  unfolding main dispatch word_of query remote_attach_or_detach send
  main-sends machine fuel s lock args x runs =
      rw (runs.makes_run_dir, runs.loads) (rw runs.listening (rw (runs.serves lock_screen) refl))
  main-sends machine fuel s unlock args x runs =
      rw (runs.makes_run_dir, runs.loads) (rw runs.listening (rw (runs.serves unlock_screen) refl))
  main-sends machine fuel s attach args x runs =
      rw (runs.makes_run_dir, runs.loads)
        (rw runs.session (rw runs.listening (rw (runs.serves (attach_to s)) refl)))
  main-sends machine fuel s detach args x runs =
      rw (runs.makes_run_dir, runs.loads)
        (rw runs.session (rw runs.listening (rw (runs.serves (detach_from s)) refl)))

  -- The commands `lock`, `unlock`, `attach` and `detach`, from the arguments of the program through
  -- the socket to the daemon, do what they promise: if the daemon listens, updates return and leave
  -- the lock state and the attached sessions alone, the sessions can be invalidated and the user is
  -- in a session, then the program exits with 0, it shows whether the state was already as asked,
  -- and the lock state and the attached sessions change as promised, and else stay as they were.
  pub main-refines :
      (calm : IsCalm update) (machine : Machine (EventLoop T Daemon)) (fuel : ℕ) (s : Spec)
      (k : Control) (args : List String) (x : Client (EventLoop T Daemon))
      → Runs machine s x.machine
      → (invalidate_sessions x.machine.world.world.sensors).0 ≡ return tt
      → let (r, y) = main machine fuel (name_of k ∷ args) x in
        let (promised, output) = promise s k (view x.machine) in
        (r ≡ return 0) × (view y.machine ≡ promised) × (y.output ≡ x.output ++ output ∷ [])
  main-refines calm machine fuel s k args x runs can =
      let (kept, shows) = serve-promise calm s k x.machine can in
      let sent = main-sends machine fuel s k args x runs in
      (
        ap (λ r. r.0) sent,
        ap (λ r. view r.1.machine) sent ∙ kept,
        ap (λ r. r.1.output) sent ∙ ap (λ o. x.output ++ o ∷ []) shows,
      )
