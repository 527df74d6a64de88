-- ===== src/WakeLock.antt =====
-- `server_wake_lock` of modules/server.py: the thread of a client that holds a wake lock, and the two
-- tasks that it has the main thread perform.
pub mod Held
pub mod Inhibit
use blankie.Prelude.{ℕ, List, Bool, true, false, ◌≡◌, Option, none, some, if◌then◌else◌}
use blankie.Exec.{Exec, Error, Outcome, return, raise, out_of_fuel}
use blankie.Spec.{Spec, count, spec_eq}
use blankie.Session.{Daemon, specs_of, attach, detach}

-- Where the thread is. `refused` and `released` are its ends, with the exception that it raises
-- then; in `attaching` and `detaching` it waits for its task.
pub data Phase : Type 0 where
  attaching : Phase
  refused : Option Error → Phase
  attached : Phase
  holding : Phase
  detaching : Phase
  released : Option Error → Phase

pub record WakeLock : Type 0 where
  pub spec : Spec
  pub phase : Phase
  -- `server.stopping`
  pub stopping : Bool
  -- The event loop has exited: it performs no further task.
  pub loop_exited : Bool
  pub daemon : Daemon

abbrev pub after_attach : Outcome (Unit {0}) → Phase
after_attach (return _) = attached
after_attach (raise e) = refused (some e)
after_attach out_of_fuel = attaching

abbrev pub after_detach : Outcome (Unit {0}) → Phase
after_detach (return _) = released none
after_detach (raise e) = released (some e)
after_detach out_of_fuel = detaching

-- How often a session is in the list that stands for the set `session_specs`.
abbrev pub copies : Spec → List Spec → ℕ
copies s xs = count (λ x. spec_eq x s) xs

module _ (update : Exec Daemon (Unit {0})) where
  -- The task `attach`.
  unfoldable pub wake_attach : WakeLock → WakeLock
  wake_attach c =
      if c.stopping
      then record c { phase = refused none }
      else let (r, m) = attach update c.spec c.daemon in
        record c { phase = after_attach r; daemon = m }

  -- The task `detach`.
  unfoldable pub wake_detach : WakeLock → WakeLock
  wake_detach c =
      let (r, m) = detach update c.spec c.daemon in record c { phase = after_detach r; daemon = m }

  -- What can happen next. The tasks are performed by the event loop, unless it has exited. The acknowledgement may fail to be written; the connection is closed by
  -- the client, or by `interrupt_requests`, which first sets `stopping`; everything else that the
  -- daemon does leaves this lock's session as it is.
  pub data Step (c : WakeLock) : WakeLock → Type 0 where
    attach_runs : c.phase ≡ attaching → c.loop_exited ≡ false → Step c (wake_attach c)
    acknowledges : c.phase ≡ attached → Step c (record c { phase = holding })
    write_fails : c.phase ≡ attached → Step c (record c { phase = detaching })
    connection_closes : c.phase ≡ holding → Step c (record c { phase = detaching })
    detach_runs : c.phase ≡ detaching → c.loop_exited ≡ false → Step c (wake_detach c)
    loop_exits : Step c (record c { loop_exited = true })
    interrupts : Step c (record c { stopping = true })
    others :
        (m : Daemon)
        → copies c.spec (specs_of m) ≡ copies c.spec (specs_of c.daemon)
        → Step c (record c { daemon = m })

  pub data Reaches (c : WakeLock) : WakeLock → Type 0 where
    here : Reaches c c
    then_step : {d e : WakeLock} → Reaches c d → Step d e → Reaches c e
