-- ===== src/SystemBus/Release.antt =====
-- What is left of the registration with logind (modules/logind.py) when the module is stopped.
use blankie.Prelude.{Bool, true, false, ◌⊎◌, ◌≡◌, refl, inl, inr, arith}
use blankie.Exec.{Exec, return, raise, exception, Outcome-cases}
use blankie.Sleep.{uninhibit}
use blankie.SystemBus.{Glib, Bus, drain, run_sync, setup, teardown, logind_start, logind_stop}

-- `run_sync` performs the functions that wait and then its own, and returns or raises what that
-- does.
pub run_sync_lem :
    {S A : Type 0} (func : Exec S A) (g : Glib S)
    → let (r, s) = func (drain g).state in run_sync func g ≡ (r, record (drain g) { state = s })
unfolding run_sync
run_sync_lem func g = elim (Outcome-cases (func (drain g).state).0) [
  | inl (a, e) ↦ rw e refl
  | inr (inl (x, e)) ↦ rw e refl
  | inr (inr e) ↦ rw e refl
]

-- With a connection to the system bus, however the start went and whatever happened since: `stop`
-- returns, and then no signal is received and no inhibitor lock is held; so also after another
-- `stop`. Without one, neither `start` nor `stop` does more than raise, once the functions that wait
-- have run.
pub logind_stop-released :
    (g : Glib Bus) (granted : Bool)
    → let n = (logind_stop g).1 in
      let no_bus = raise (exception "AttributeError") in
      ((drain g).state.connected ≡ true)
        × (((logind_stop g).0 ≡ return tt)
            × ((n.state.receiver ≡ false)
                × ((n.state.logind.inhibitor ≡ false) × (logind_stop n ≡ (return tt, n)))))
      ⊎ ((drain g).state.connected ≡ false)
        × ((logind_start granted g ≡ (no_bus, drain g)) × (logind_stop g ≡ (no_bus, drain g)))
unfolding logind_start logind_stop run_sync setup teardown uninhibit
logind_stop-released g granted = ground arith
