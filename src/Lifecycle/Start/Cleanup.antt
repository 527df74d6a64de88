-- ===== src/Lifecycle/Start/Cleanup.antt =====
-- What the start of the daemon (daemon.py) leaves behind, and what the parent process is told.
use blankie.Prelude.{ℕ, Bool, true, false, ◌≡◌, ◌≢◌, refl, ◌⊎◌, inl, inr}
use blankie.Exec.{
  Exec, Outcome, continue, return, raise, out_of_fuel, pure, modify, ◌>>=◌, ◌>>◌, Outcome-cases,
}
use blankie.EventLoop.{EventLoop}
use blankie.Session.{Daemon}
use blankie.Lifecycle.{shutdown, stop, install_shutdown}
use blankie.Lifecycle.Start.{
  Process, has_pid_file, become_main_thread, boot, serve, stop_process, start_child, run_at_exit,
  live, start, written, not_opened, not_written, create_pid_file,
}

module _ {T : Type 0} (update : Exec Daemon (Unit {0}))
    (run : Exec (EventLoop T Daemon) (Unit {0})) where
  -- The update of `shutdown` returns.
  Settles : Daemon → Type 0
  Settles m = (update (install_shutdown m)).0 ≡ return tt

  stop_process-done :
      (p : Process T)
      → p.event_loop_thread ≡ true
      → Settles p.loop.world
      → ((stop_process update run p).0 ≡ return tt)
        × (has_pid_file (stop_process update run p).1 ≡ false)
        × ((stop_process update run p).1.at_exit ≡ false)
        × ((stop_process update run p).1.ready ≡ p.ready)
  unfolding stop_process stop shutdown Settles
  stop_process-done p main settles = rw main (rw settles (refl, refl, refl, refl))

  -- What becomes of the process once the event loop has run.
  Cleaned : Process T → Bool → Type 0
  Cleaned q ready =
      (has_pid_file (run_at_exit update run q) ≡ false) × ((run_at_exit update run q).ready ≡ ready)

  stopped-Cleaned :
      (p : Process T) (status : ℕ)
      → p.event_loop_thread ≡ true
      → Settles p.loop.world
      → Cleaned ((stop_process update run >> pure status) p).1 p.ready
  unfolding run_at_exit Cleaned
  stopped-Cleaned p status main settles =
      let (returned, removed, unregistered, ready) = stop_process-done p main settles in
      rw returned (rw unregistered (removed, ready))

  served-Cleaned :
      (p : Process T)
      → p.event_loop_thread ≡ true
      → (run p.loop).0 ≢ out_of_fuel
      → Settles (run p.loop).1.world
      → Cleaned
          ((serve update run >>= λ status. stop_process update run >> pure status) p).1
          p.ready
  unfolding serve
  served-Cleaned p main ends settles =
      let ran : Process T = record p { loop = (run p.loop).1 } in
      elim (Outcome-cases (run p.loop).0) [
        | inl (a, e) ↦ rw e (stopped-Cleaned ran 0 main settles)
        | inr (inl (x, e)) ↦ rw e (stopped-Cleaned ran 1 main settles)
        | inr (inr e) ↦ absurd (ends e)
      ]

  -- The process after the first update.
  updated : Process T → Process T
  updated p = record p {
    loop = record p.loop { world = (update (create_pid_file p.loop.world)).1 };
    handlers = true;
    event_loop_thread = true;
  }

  boot-update :
      (p : Process T) (r : Outcome (Unit {0}))
      → p.event_loop_thread ≡ false
      → (update (create_pid_file p.loop.world)).0 ≡ r
      → boot update run written p
        ≡ continue r (λ _. modify (λ q. record q { ready = true })) (updated p)
  unfolding boot become_main_thread updated
  boot-update p r fresh e = rw (fresh, e) refl

  -- The daemon's state when `shutdown` is called at last: after the event loop, or after a first
  -- update that did not return.
  abbrev after_boot : Outcome (Unit {0}) → EventLoop T Daemon → Daemon
  after_boot (return _) l = (run l).1.world
  after_boot (raise e) l = l.world
  after_boot out_of_fuel l = l.world

  abbrev pub at_shutdown : Process T → Daemon
  at_shutdown p =
      let (r, m) = update (create_pid_file p.loop.world) in
      after_boot r (record p.loop { world = m })

  live-Cleaned :
      (p : Process T) (r : Outcome (Unit {0}))
      → p.event_loop_thread ≡ false
      → p.ready ≡ false
      → ((l : EventLoop T Daemon) → (run l).0 ≢ out_of_fuel)
      → (update (create_pid_file p.loop.world)).0 ≡ r
      → r ≢ out_of_fuel
      → Settles (after_boot r (updated p).loop)
      → (has_pid_file (live update run written p) ≡ false)
        × ((r ≡ return tt) × ((live update run written p).ready ≡ true)
            ⊎ (r ≢ return tt) × ((live update run written p).ready ≡ false))
  unfolding live start_child updated Cleaned shutdown Settles
  live-Cleaned p (return tt) fresh unready ends e enough settles =
      let registered : Process T = record p { at_exit = true } in
      let (removed, ready) =
        served-Cleaned (record (updated registered) { ready = true }) refl (ends _) settles in
      rw (boot-update registered (return tt) fresh e) (removed, inl (refl, ready))
  live-Cleaned p (raise x) fresh unready ends e enough settles =
      let registered : Process T = record p { at_exit = true } in
      rw (boot-update registered (raise x) fresh e) (rw settles (refl, inr (λ q. cc, unready)))
  live-Cleaned p out_of_fuel fresh unready ends e enough settles = absurd (enough refl)

  -- If the PID file can be written, the first update and the event loop end, and the update of the
  -- last `shutdown` returns: the PID file is gone at the end of the daemon's process, whether the
  -- first update failed, the loop failed or the daemon was stopped; and `start` returns 0 to the
  -- parent exactly if the first update returned.
  pub start-removes :
      (p : Process T)
      → p.event_loop_thread ≡ false
      → p.ready ≡ false
      → ((l : EventLoop T Daemon) → (run l).0 ≢ out_of_fuel)
      → (update (create_pid_file p.loop.world)).0 ≢ out_of_fuel
      → (update (install_shutdown (at_shutdown p))).0 ≡ return tt
      → let first = (update (create_pid_file p.loop.world)).0 in
        (has_pid_file (live update run written p) ≡ false)
        × ((first ≡ return tt) × (start update run written p ≡ 0)
            ⊎ (first ≢ return tt) × (start update run written p ≡ 1))
  unfolding start updated Settles
  start-removes p fresh unready ends enough settles =
      let (removed, told) = live-Cleaned p _ fresh unready ends refl enough settles in
      (
        removed,
        elim told [
          | inl (e, ready) ↦ inl (e, rw ready refl)
          | inr (e, unready) ↦ inr (e, rw unready refl)
        ],
      )

  -- If the PID file cannot be opened, or cannot be written once it is created: `start` returns 1 to
  -- the parent, the same modules are running at the end of the daemon's process as before it, and
  -- no PID file is removed (since the update of the last `shutdown` fails its assertion): the one
  -- that was created is left behind, and so is one that was there and could not be opened.
  pub start-unwritten :
      (p : Process T)
      → p.event_loop_thread ≡ false
      → p.ready ≡ false
      → ((start update run not_opened p ≡ 1)
          × ((live update run not_opened p).loop.world.running ≡ p.loop.world.running)
          × (has_pid_file (live update run not_opened p) ≡ has_pid_file p))
        × ((start update run not_written p ≡ 1)
            × ((live update run not_written p).loop.world.running ≡ p.loop.world.running)
            × (has_pid_file (live update run not_written p) ≡ true))
  unfolding start live start_child boot run_at_exit shutdown
  start-unwritten p fresh unready = rw (fresh, unready) ((refl, refl, refl), (refl, refl, refl))
