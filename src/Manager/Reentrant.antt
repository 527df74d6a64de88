-- ===== src/Manager/Reentrant.antt =====
-- Modules that call `update` when they are started or stopped (module.py: "support re-entrancy by
-- performing one operation at a time").
mod Progress
pub mod Round
pub mod Nested
use blankie.Prelude.{ℕ, ◌≤◌, ◌<◌, List, [], ◌≡◌, refl, arith}
use blankie.Exec.{Exec, Outcome, return, modify, ◌>>◌}
use blankie.Spec.{Spec}
use blankie.Manager.{Manager}
use blankie.Manager.Work.{work}

-- A method that changes the world, calls `update`, or does several of these in turn, as the world
-- tells it to.
pub data Calls {W : Type 0} (update : Exec (Manager W) (Unit {0}))
    : Exec (Manager W) (Unit {0}) → Type 0 where
  changes : (f : W → W) → Calls update (modify (λ m. record m { world = f m.world }))
  updates : Calls update update
  in_turn :
      {a b : Exec (Manager W) (Unit {0})} → Calls update a → Calls update b → Calls update (a >> b)
  chooses :
      {f : W → Exec (Manager W) (Unit {0})}
      → ((w : W) → Calls update (f w))
      → Calls update (λ m. f m.world m)

-- The action returned, the wanted list is `ws`, and there is at most so much work.
pub record Leaves {W : Type 0} (ws : List Spec) (most : ℕ) (r : Outcome (Unit {0}) × Manager W)
    : Type 0 where
  pub returned : r.0 ≡ return tt
  pub wanted : r.1.wanted ≡ ws
  pub work_le : work [] r.1.running ws ≤ most

module _ {W : Type 0} (ws : List Spec) where
  -- From a state with less work than `k`, the action leaves no more work than there was.
  abbrev pub Mild : ℕ → Exec (Manager W) (Unit {0}) → Type 0
  Mild k act =
      (m : Manager W)
      → m.wanted ≡ ws
      → work [] m.running ws < k
      → Leaves ws (work [] m.running ws) (act m)

  Leaves-then :
      (k : ℕ) (a b : Exec (Manager W) (Unit {0})) (m : Manager W)
      → work [] m.running ws < k
      → Leaves ws (work [] m.running ws) (a m)
      → Mild k b
      → Leaves ws (work [] m.running ws) ((a >> b) m)
  Leaves-then k a b m small h next =
      let rest = next (a m).1 h.wanted (omega (arith, h.work_le)) in
      rw h.returned (record {
        returned = rest.returned;
        wanted = rest.wanted;
        work_le = omega (arith, rest.work_le, h.work_le);
      })

  pub Calls-Mild : (k : ℕ) (u a : Exec (Manager W) (Unit {0})) → Mild k u → Calls u a → Mild k a
  Calls-Mild k u a mild (changes f) m h small = record {
    returned = refl;
    wanted = h;
    work_le = omega arith;
  }
  Calls-Mild k u a mild updates m h small = mild m h small
  Calls-Mild k u a mild (in_turn {a = b} {b = c} p q) m h small =
      Leaves-then k b c m small (Calls-Mild k u b mild p m h small) (Calls-Mild k u c mild q)
  Calls-Mild k u a mild (chooses {f} p) m h small =
      Calls-Mild k u (f m.world) mild (p m.world) m h small
