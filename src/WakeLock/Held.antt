-- ===== src/WakeLock/Held.antt =====
-- A wake lock's session is attached exactly while its client holds the lock (modules/server.py).
use blankie.Prelude.{
  ◌+◌, List, [], ◌∷◌, ◌++◌, Bool, true, false, ◌≡◌, ◌≢◌, refl, sym, ◌∙◌, ap, arith,
}
use blankie.Exec.{Exec, out_of_fuel}
use blankie.Spec.{
  Spec, contains, remove, spec_eq, spec_eq_refl, count, bit, count-append, count-remove,
}
use blankie.Session.{Daemon, specs_of, set_specs, attach, detach}
use blankie.Session.Attach.{KeepsSpecs, attach-atomic}
use blankie.WakeLock.{
  Phase, attaching, refused, attached, holding, detaching, released, WakeLock, wake_attach,
  wake_detach, copies, Step, attach_runs, acknowledges, write_fails, connection_closes, detach_runs,
  loop_exits, interrupts, others, Reaches, here, then_step,
}

abbrev pub is_held : Phase → Bool
is_held attaching = false
is_held (refused e) = false
is_held attached = true
is_held holding = true
is_held detaching = true
is_held (released e) = false

contains-copies : (s : Spec) (xs : List Spec) (b : Bool) → copies s xs ≡ bit b → contains xs s ≡ b
unfolding contains count
contains-copies s [] true h = cc
contains-copies s [] false h = refl
contains-copies s (x ∷ xs) b h =
    ground (arith, h, contains-copies s xs b, contains-copies s xs false)

copies-snoc : (s : Spec) (xs : List Spec) → copies s (xs ++ s ∷ []) ≡ copies s xs + 1
unfolding count
copies-snoc s xs = ground (arith, count-append (λ x. spec_eq x s) xs (s ∷ []), spec_eq_refl s)

copies-remove :
    (s : Spec) (xs : List Spec) → contains xs s ≡ true → copies s (remove xs s) + 1 ≡ copies s xs
copies-remove s xs h = ground (arith, count-remove (λ x. spec_eq x s) xs s h, spec_eq_refl s)

-- The session is in the set once while the lock is held, and else it is not.
abbrev Agrees : WakeLock → Type 0
Agrees c = copies c.spec (specs_of c.daemon) ≡ bit (is_held c.phase)

module _ (update : Exec Daemon (Unit {0})) (keeps : KeepsSpecs update)
    (ends : (m : Daemon) → (update m).0 ≢ out_of_fuel) where
  attach_ends : (s : Spec) (m : Daemon) → (attach update s m).0 ≢ out_of_fuel
  unfolding attach
  attach_ends s m h =
      let added = set_specs (specs_of m ++ s ∷ []) m in
      let after = (update added).1 in
      let undone = set_specs (remove (specs_of after) s) after in
      ground (arith, ends added, ends undone)

  wake_attach-Agrees :
      (c : WakeLock) → Agrees c → c.phase ≡ attaching → Agrees (wake_attach update c)
  unfolding wake_attach
  wake_attach-Agrees c h e =
      let fresh =
        contains-copies c.spec (specs_of c.daemon) false (h ∙ ap (λ q. bit (is_held q)) e) in
      let ends = attach_ends c.spec c.daemon in
      let atomic = attach-atomic update keeps c.spec c.daemon fresh ends in
      ground (arith, h, e, fresh, atomic, copies-snoc c.spec (specs_of c.daemon), ends)

  wake_detach-Agrees :
      (c : WakeLock) → Agrees c → c.phase ≡ detaching → Agrees (wake_detach update c)
  unfolding wake_detach detach
  wake_detach-Agrees c h e =
      let there =
        contains-copies c.spec (specs_of c.daemon) true (h ∙ ap (λ q. bit (is_held q)) e) in
      let removed = set_specs (remove (specs_of c.daemon) c.spec) c.daemon in
      ground (
        arith,
        h,
        e,
        there,
        keeps removed,
        ends removed,
        copies-remove c.spec (specs_of c.daemon) there,
      )

  Step-Agrees : (c d : WakeLock) → Agrees c → Step update c d → Agrees d
  Step-Agrees c d h (attach_runs e l) = wake_attach-Agrees c h e
  Step-Agrees c d h (acknowledges e) = h ∙ ap (λ q. bit (is_held q)) e
  Step-Agrees c d h (write_fails e) = h ∙ ap (λ q. bit (is_held q)) e
  Step-Agrees c d h (connection_closes e) = h ∙ ap (λ q. bit (is_held q)) e
  Step-Agrees c d h (detach_runs e l) = wake_detach-Agrees c h e
  Step-Agrees c d h loop_exits = h
  Step-Agrees c d h interrupts = h
  Step-Agrees c d h (others m e) = e ∙ h

  Reaches-Agrees : (c d : WakeLock) → Agrees c → Reaches update c d → Agrees d
  Reaches-Agrees c d h here = h
  Reaches-Agrees c d h (then_step {d = b} r t) = Step-Agrees b d (Reaches-Agrees c b h r) t

  -- If updates end and leave the set of attached sessions alone: whatever happens after a client
  -- has asked for a wake lock whose session is not attached, also failures, the shutdown of the
  -- server and the exit of the event loop, that session is attached from when its thread has it attached until its thread has it
  -- detached, and it is not attached when the thread has ended.
  pub wake_lock-held :
      (c d : WakeLock)
      → c.phase ≡ attaching
      → copies c.spec (specs_of c.daemon) ≡ 0
      → Reaches update c d
      → contains (specs_of d.daemon) d.spec ≡ is_held d.phase
  wake_lock-held c d e h r =
      contains-copies d.spec (specs_of d.daemon) (is_held d.phase)
        (Reaches-Agrees c d (h ∙ ap (λ q. bit (is_held q)) (sym e)) r)
