-- ===== src/Server/Replies.antt =====
-- What clients are told, compared with what happened (modules/server.py).
use blankie.Prelude.{[], ◌∷◌, ◌++◌, true, false, ◌≡◌, ◌≢◌, refl, ◌⊎◌, inl, inr, arith}
use blankie.Exec.{Exec, Error, return, out_of_fuel, Outcome-cases}
use blankie.Spec.{Spec, contains}
use blankie.World.{World}
use blankie.Session.{Daemon, specs_of, set_locked, attach, lock}
use blankie.Session.Attach.{KeepsSpecs, attach-atomic}
use blankie.Server.{Request, bytes, error_text, attach_to, lock_screen, server_run_command}

module _ {T : Type 0} (update : Exec Daemon (Unit {0})) (load : Exec World (Unit {0}))
    (server_command : Spec → Exec Daemon (Unit {0})) where
  -- If updates leave the set of attached sessions alone, and the client of an `attach` of a new
  -- session is still there: it is told "ok" exactly if the session is attached afterwards, else it
  -- is told the exception, and the attached sessions are those from before. Either way the thread
  -- that waits for the command goes on. (The update has enough fuel.)
  pub attach-replies :
      KeepsSpecs update
      → (s : Spec) (x : Request T) → contains (specs_of x.loop.world) s ≡ false
      → x.gone ≡ false
      → (attach update s x.loop.world).0 ≢ out_of_fuel
      → let y = (server_run_command update load server_command (attach_to s) x).1 in
        (y.done ≡ true)
        × ((y.written ≡ x.written ++ bytes "ok" ∷ [])
              × (specs_of y.loop.world ≡ specs_of x.loop.world ++ s ∷ [])
            ⊎ ((e : Error) × (y.written ≡ x.written ++ error_text e ∷ [])
                × (specs_of y.loop.world ≡ specs_of x.loop.world)))
  unfolding server_run_command
  attach-replies keeps s x fresh here ends = (
    refl,
    elim (Outcome-cases (attach update s x.loop.world).0) [
      | inl (_, e) ↦ inl (ground (arith, e, attach-atomic update keeps s x.loop.world fresh ends))
      | inr (inl (err, e)) ↦
          let atomic = attach-atomic update keeps s x.loop.world fresh ends in
          inr (err, ground (arith, e, atomic), ground (arith, e, atomic))
      | inr (inr e) ↦ absurd (ends e)
    ],
  )

  -- If updates return and the client is still there: `lock` on the socket sets the lock state and
  -- calls `update` only if the system is not locked already, and the reply says which it was; the
  -- thread that waits for the command goes on.
  lock-replies :
      ((m : Daemon) → (update m).0 ≡ return tt)
      → (x : Request T) → x.gone ≡ false
      → let y = (server_run_command update load server_command lock_screen x).1 in
        (y.done ≡ true)
        × ((x.loop.world.world.locked ≡ true)
              × (y.written ≡ x.written ++ bytes "Already locked.\n" ∷ [])
              × (y.loop ≡ x.loop)
            ⊎ (x.loop.world.world.locked ≡ false)
              × (y.written ≡ x.written ++ bytes "Locked.\n" ∷ [])
              × (y.loop.world
                  ≡ (update (record x.loop.world {
                    world = record x.loop.world.world { locked = true };
                  })).1))
  unfolding server_run_command lock
  lock-replies returns x here = (refl, ground (arith, returns (set_locked true x.loop.world)))
