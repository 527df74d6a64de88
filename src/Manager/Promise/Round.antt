-- ===== src/Manager/Promise/Round.antt =====
-- One round of `start_stop_modules` (module.py) keeps what `update` promises.
use blankie.Prelude.{
  ℕ, suc, List, [], ◌∷◌, ◌++◌, Bool, true, false, not, ◌&&◌, ◌≡◌, ◌≢◌, refl, Option, none, some,
  if◌then◌else◌,
}
use blankie.Exec.{Exec, pure, modify, ◌>>◌}
use blankie.Exec.Triples.{Triple, Triple-pure, Triple-if, Triple-modify, Triple->>=, Triple-attempt}
use blankie.Spec.{Spec, contains, insert_at, remove}
use blankie.Manager.{
  Manager, Classes, idle, again, same_name, move_last, adopt, try_running, try_wanted, perform,
  stop_one, start_one, after_step_one, do_one_module, last_unwanted,
}
use blankie.Manager.Searches.{last_unwanted-some}
use blankie.Manager.Promise.{Promised, Unwanted, Honours, Keeps, Triple-on_world, Sound}

pub snoc-ne-nil : (l : List Spec) (s : Spec) → l ++ s ∷ [] ≢ []
snoc-ne-nil [] s h = cc
snoc-ne-nil (x ∷ l) s h = cc

module _ {W : Type 0} (I : W → Type 0) (C : List Spec → Type 0) (classes : Classes W)
    (k : Keeps I C classes) where
  try_running-Promised :
      (w : Spec) (i : ℕ) (rs : List Spec)
      → Triple (Promised I C) (try_running classes w i rs) (λ _. (Promised I C))
  unfolding try_running adopt
  try_running-Promised w i [] = Triple-pure (Promised I C) _ false (λ _ p. p)
  try_running-Promised w i (r ∷ rs) =
      let later = try_running-Promised w (suc i) rs in
      Triple-if (Promised I C) _ (λ m. same_name w r && not (contains m.wanted r)) _ _
        (Triple->>= (Promised I C) (λ _. (Promised I C)) _ _ _
          (Triple-on_world I C (classes.get r) (k.gets_world r))
          (λ _.
            Triple->>= (Promised I C) (λ _. (Promised I C)) _ _ _
              (Triple-on_world I C (classes.reconfigure r w) (k.reconfigures r w))
              (λ done. when done later)))
        later
    where
      when :
          {rest : Exec (Manager W) Bool} (done : Bool)
          → Triple (Promised I C) rest (λ _. (Promised I C))
          → Triple
              (Promised I C)
              (if done then modify (adopt classes i r w) >> pure true else rest)
              (λ _. (Promised I C))
      when true h =
          Triple->>= (Promised I C) (λ _. (Promised I C)) _ _ _
            (Triple-modify (Promised I C) (Promised I C) (adopt classes i r w)
              (λ m p. (k.rekeys r w m.world p.0, p.1)))
            (λ _. Triple-pure (Promised I C) _ true (λ _ p. p))
      when false h = h

  try_wanted-Promised :
      (ws : List Spec) → Triple (Promised I C) (try_wanted classes ws) (λ _. (Promised I C))
  unfolding try_wanted
  try_wanted-Promised [] = Triple-pure (Promised I C) _ false (λ _ p. p)
  try_wanted-Promised (w ∷ ws) =
      let later = try_wanted-Promised ws in
      Triple-if (Promised I C) _ (λ m. contains m.running w) _ _ later
        (λ m n a p e.
          Triple->>= (Promised I C) (λ _. (Promised I C)) _ (try_running classes w 0 m.running) _
            (try_running-Promised w 0 m.running) (λ hit. when hit later) m n a p e)
    where
      when :
          {rest : Exec (Manager W) Bool} (hit : Bool)
          → Triple (Promised I C) rest (λ _. (Promised I C))
          → Triple (Promised I C) (if hit then pure true else rest) (λ _. (Promised I C))
      when true h = Triple-pure (Promised I C) _ true (λ _ p. p)
      when false h = h

  stop_one-Sound :
      (errors : List Spec) (i : ℕ) (r : Spec)
      → Triple (Unwanted I C r) (stop_one classes errors i r) (Sound I C)
  unfolding stop_one
  stop_one-Sound errors i r =
      let U = Unwanted I C r in
      Triple->>= U (λ _. U) _ _ _ (Triple-modify U U _ (λ _ p. p))
        (λ _.
          Triple->>= U (λ _. U) _ _ _
            (Triple-on_world I (λ ws. C ws × (contains ws r ≡ false)) (classes.get r)
              (k.gets_world r))
            (λ _.
              Triple->>= U (λ b m. b ≡ true → (Promised I C) m) _ _ _
                (Triple-attempt U (Promised I C) (classes.stop r) (k.stops r)) after))
    where
      after :
          (b : Bool)
          → Triple
              (λ m. b ≡ true → (Promised I C) m)
              (if b
                then pure (again errors)
                else modify (λ m. record m { running = insert_at m.running i r })
                  >> pure (again (errors ++ r ∷ [])))
              (Sound I C)
      after true = Triple-pure _ (Sound I C) (again errors) (λ m p _. p refl)
      after false =
          Triple->>= _ (λ _ _. Unit {0}) (Sound I C) _ _
            (Triple-modify _ (λ _. Unit {0}) _ (λ _ _. tt))
            (λ _.
              Triple-pure _ (Sound I C) (again (errors ++ r ∷ []))
                (λ _ _ h. absurd (snoc-ne-nil errors r h)))

  move_last-Promised :
      (w : Spec) (m : Manager W) → (Promised I C) m → (Promised I C) (move_last w m)
  unfolding move_last
  move_last-Promised w m p = go (contains m.wanted w && contains m.running w)
    where
      go :
          (b : Bool)
          → (Promised I C) (if b then record m { running = remove m.running w ++ w ∷ [] } else m)
      go true = p
      go false = p

  start_one-Promised : (w : Spec) → Honours I C (start_one classes w)
  unfolding start_one
  start_one-Promised w =
      Triple->>= (Promised I C) (λ _. (Promised I C)) _ _ _
        (Triple-modify (Promised I C) (Promised I C) _ (λ _ p. p))
        (λ _.
          Triple->>= (Promised I C) (λ _. (Promised I C)) _ _ _
            (Triple-on_world I C (classes.get w) (k.gets_world w))
            (λ _.
              Triple->>= (Promised I C) (λ _. (Promised I C)) _ _ _ (k.starts w)
                (λ _.
                  Triple-modify (Promised I C) (Promised I C) (move_last w)
                    (move_last-Promised w))))

  -- What step 2 has found is not wanted.
  abbrev FoundUnwanted : Option (ℕ × Spec) → Manager W → Type 0
  FoundUnwanted none m = Promised I C m
  FoundUnwanted (some (i, r)) m = Unwanted I C r m

  perform-Sound :
      (errors : List Spec) (found : Option (ℕ × Spec)) (missing : Option Spec)
      → Triple (FoundUnwanted found) (perform classes errors found missing) (Sound I C)
  unfolding perform
  perform-Sound errors (some (i, r)) missing = stop_one-Sound errors i r
  perform-Sound errors none (some w) =
      Triple->>= (Promised I C) (λ _. (Promised I C)) (Sound I C) _ _ (start_one-Promised w)
        (λ _. Triple-pure (Promised I C) (Sound I C) (again errors) (λ _ p _. p))
  perform-Sound errors none none = Triple-pure (Promised I C) (Sound I C) idle (λ _ p. p)

  last_unwanted-FoundUnwanted :
      (errors : List Spec) (found : Option (ℕ × Spec)) (m : Manager W)
      → last_unwanted m.wanted errors 0 m.running ≡ found
      → Promised I C m
      → FoundUnwanted found m
  last_unwanted-FoundUnwanted errors none m e p = p
  last_unwanted-FoundUnwanted errors (some (i, r)) m e p =
      (p.0, (p.1, (last_unwanted-some m.wanted errors m.running i r e).unwanted))

  after_step_one-Sound :
      (errors : List Spec) (hit : Bool)
      → Triple (Promised I C) (after_step_one classes errors hit) (Sound I C)
  unfolding after_step_one
  after_step_one-Sound errors true =
      Triple-pure (Promised I C) (Sound I C) (again errors) (λ _ p _. p)
  after_step_one-Sound errors false =
      λ m n a p e. perform-Sound errors _ _ m n a (last_unwanted-FoundUnwanted errors _ m refl p) e

  pub do_one_module-Sound :
      (errors : List Spec) → Triple (Promised I C) (do_one_module classes errors) (Sound I C)
  unfolding do_one_module
  do_one_module-Sound errors m =
      Triple->>= (Promised I C) (λ _. (Promised I C)) (Sound I C) (try_wanted classes m.wanted) _
        (try_wanted-Promised m.wanted) (after_step_one-Sound errors) m
