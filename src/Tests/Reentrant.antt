-- ===== src/Tests/Reentrant.antt =====
-- Modules that call `update` from their `start` and `stop`.
use blankie.Prelude.{ℕ, zero, suc, ◌≤◌, List, [], ◌∷◌, ◌++◌, false, ◌≡◌, refl, arith, if◌then◌else◌}
use blankie.Exec.{Exec, return, pure, modify, ◌>>◌}
use blankie.Spec.{Spec, contains, unique, spec_eq, str_eq}
use blankie.Manager.{Manager, Classes, Selection}
use blankie.Manager.Update.{collect, add, run_selectors, update}
use blankie.Manager.Reentrant.{changes, updates, in_turn}
use blankie.Manager.Reentrant.Nested.{Reenters, Settles, update-Settles}
use blankie.Tests.Manager.{spec}

-- `start` and `stop` count themselves, and call `update`. `logind` is selected, and needs `dbus`.
abbrev wants_logind : List Spec → Exec (Selection ℕ) (Unit {0})
wants_logind running = modify (λ x. record x { chosen = x.chosen ++ spec "logind" ∷ [] })

abbrev nested : Exec (Manager ℕ) (Unit {0}) → Classes ℕ
nested u = record {
  get = λ s. pure tt;
  start = λ s. modify (λ m. record m { world = suc m.world }) >> u;
  stop = λ s. u >> modify (λ m. record m { world = suc m.world });
  reconfigure = λ r s. pure false;
  rekey = λ r s w. w;
  dependencies = λ s. if str_eq s.name "logind" then spec "dbus" ∷ [] else [];
  selectors = λ w. wants_logind ∷ [];
}

abbrev bus : List Spec
bus = spec "dbus" ∷ spec "logind" ∷ []

bus-collected :
    (u : Exec (Manager ℕ) (Unit {0})) (bound : ℕ) (w : ℕ)
    → 2 ≤ bound
    → (collect (add (nested u) bound) (spec "logind" ∷ []) w).0 ≡ return bus
unfolding collect add
bus-collected u zero w h = absurd (omega arith)
bus-collected u (suc zero) w h = absurd (omega arith)
bus-collected u (suc (suc bound)) w h = refl

nested-Reenters : Reenters nested (spec "logind" ∷ []) bus 2
unfolding run_selectors
nested-Reenters = record {
  step_one =
      λ u. record { get_returns = λ s w. (tt, refl); reconfigure_returns = λ r s w. (false, refl) };
  starts = λ u s. in_turn (changes suc) updates;
  stops = λ u s. in_turn updates (changes suc);
  selects = λ u m h. (refl, rw h refl, refl);
  collects = bus-collected;
}

abbrev powered : Manager ℕ
powered = record { running = spec "power" ∷ []; wanted = []; world = 0 }

program : Unit {0}
unfolding unique contains spec_eq
program = tt

update-Settles_example : Settles bus (update nested 7) powered
unfolding program
update-Settles_example =
    update-Settles nested (spec "logind" ∷ []) bus 2 nested-Reenters 7 powered (omega arith)
