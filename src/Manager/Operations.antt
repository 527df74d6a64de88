-- ===== src/Manager/Operations.antt =====
-- The operations that one round of `start_stop_modules` (module.py) may perform, whatever the
-- modules do when they are started or stopped.
use blankie.Prelude.{
  ℕ, List, [], ◌∷◌, ◌++◌, Bool, true, false, ◌≡◌, refl, Option, none, some, arith, ap, subst,
  subst₂, set, ◌⊎◌, inl, inr,
}
use blankie.Exec.{return, raise, Error, pure, ◌>>◌, >>=-eq-return, Outcome-cases}
use blankie.Spec.{Spec, erase_at, insert_at}
use blankie.Manager.{
  Manager, Classes, again, last_unwanted, first_missing, move_last, try_wanted, perform, stop_one,
  start_one, after_step_one, do_one_module,
}
use blankie.Manager.Reconfigure.{Pair, try_wanted-false, try_wanted-true}

module _ {W : Type 0} (classes : Classes W) where
  -- `errors`, `running` and `wanted` are those before the round, `errors'` and `n` what it left.
  pub data Operation (errors errors' running wanted : List Spec) (n : Manager W) : Type 0 where
    reconfigured :
        (i : ℕ) (r w : Spec)
        → Pair running wanted i r w
        → errors' ≡ errors
        → n.running ≡ set running i w
        → n.wanted ≡ wanted
        → Operation errors errors' running wanted n
    stopped :
        (i : ℕ) (r : Spec) (x : W)
        → last_unwanted wanted errors 0 running ≡ some (i, r)
        → errors' ≡ errors
        → classes.stop r (record { running = erase_at running i; wanted = wanted; world = x })
          ≡ (return tt, n)
        → Operation errors errors' running wanted n
    failed :
        (i : ℕ) (r : Spec) (x : W) (e : Error) (k : Manager W)
        → last_unwanted wanted errors 0 running ≡ some (i, r)
        → errors' ≡ errors ++ r ∷ []
        → classes.stop r (record { running = erase_at running i; wanted = wanted; world = x })
          ≡ (raise e, k)
        → n ≡ record k { running = insert_at k.running i r }
        → Operation errors errors' running wanted n
    started :
        (w : Spec) (x : W) (k : Manager W)
        → last_unwanted wanted errors 0 running ≡ none
        → first_missing running wanted ≡ some w
        → errors' ≡ errors
        → classes.start w (record { running = running ++ w ∷ []; wanted = wanted; world = x })
          ≡ (return tt, k)
        → n ≡ move_last w k
        → Operation errors errors' running wanted n

  -- The states in which step 2 calls `stop`, and step 3 calls `start`.
  abbrev stopping : ℕ → Spec → Manager W → Manager W
  stopping i r m = record m { running = erase_at m.running i; world = (classes.get r m.world).1 }

  abbrev starting : Spec → Manager W → Manager W
  starting w m = record m { running = m.running ++ w ∷ []; world = (classes.get w m.world).1 }

  stop_one-again :
      (errors errors' : List Spec) (i : ℕ) (r : Spec) (m n : Manager W)
      → stop_one classes errors i r m ≡ (return (again errors'), n)
      → (classes.stop r (stopping i r m) ≡ (return tt, n)) × (errors' ≡ errors)
        ⊎ ((e : Error) × ((classes.stop r (stopping i r m)).0 ≡ raise e)
            × (errors' ≡ errors ++ r ∷ [])
            × (let k = (classes.stop r (stopping i r m)).1 in
                n ≡ record k { running = insert_at k.running i r }))
  unfolding stop_one
  stop_one-again errors errors' i r m n h =
      elim (Outcome-cases (classes.stop r (stopping i r m)).0) [
        | inl (_, done) ↦ inl (ground arith)
        | inr (inl (e, fails)) ↦ inr (e, fails, ground arith, ground arith)
        | inr (inr starved) ↦ inl (ground arith)
      ]

  start_one-again :
      (errors errors' : List Spec) (w : Spec) (m n : Manager W)
      → (start_one classes w >> pure (again errors)) m ≡ (return (again errors'), n)
      → ((classes.start w (starting w m)).0 ≡ return tt)
        × (errors' ≡ errors)
        × (n ≡ move_last w (classes.start w (starting w m)).1)
  unfolding start_one
  start_one-again errors errors' w m n h = ground arith

  perform-again :
      (errors errors' : List Spec) (found : Option (ℕ × Spec)) (missing : Option Spec)
      (m n : Manager W)
      → last_unwanted m.wanted errors 0 m.running ≡ found
      → first_missing m.running m.wanted ≡ missing
      → perform classes errors found missing m ≡ (return (again errors'), n)
      → Operation errors errors' m.running m.wanted n
  unfolding perform
  perform-again errors errors' (some (i, r)) missing m n e e' h =
      elim (stop_one-again errors errors' i r m n h) [
        | inl (done, kept) ↦ stopped i r _ e kept done
        | inr (x, fails, grown, back) ↦
            failed i r _ x _ e grown (λ j. (fails j, (classes.stop r (stopping i r m)).1)) back
      ]
  perform-again errors errors' none (some w) m n e e' h =
      let (done, kept, moved) = start_one-again errors errors' w m n h in
      started w _ _ e e' kept (λ j. (done j, (classes.start w (starting w m)).1)) moved
  perform-again errors errors' none none m n e e' h = cc

  after_step_one-again :
      (errors errors' : List Spec) (hit : Bool) (m k n : Manager W)
      → try_wanted classes m.wanted m ≡ (return hit, k)
      → after_step_one classes errors hit k ≡ (return (again errors'), n)
      → Operation errors errors' m.running m.wanted n
  unfolding after_step_one
  after_step_one-again errors errors' true m k n tried h =
      let same : k ≡ n = ap (λ x. x.1) h in
      let f =
        try_wanted-true classes m.wanted m n
          (subst (λ x. try_wanted classes m.wanted m ≡ (return true, x)) same tried) in
      reconfigured f.i f.r f.w
        (record {
          at = f.at;
          same = f.same;
          unwanted = f.unwanted;
          is_wanted = f.listed;
          missing = f.missing;
        })
        (ground arith) f.running f.wanted
  after_step_one-again errors errors' false m k n tried h =
      let (p, q) = try_wanted-false classes m.wanted m k tried in
      subst₂ (λ a b. Operation errors errors' a b n) p q
        (perform-again errors errors' _ _ k n refl refl h)

  -- Every round that goes on has performed one of these operations.
  pub do_one_module-Operation :
      (errors errors' : List Spec) (m n : Manager W)
      → do_one_module classes errors m ≡ (return (again errors'), n)
      → Operation errors errors' m.running m.wanted n
  unfolding do_one_module
  do_one_module-Operation errors errors' m n h =
      let (hit, e, rest) =
        >>=-eq-return (try_wanted classes m.wanted) (after_step_one classes errors) m h in
      after_step_one-again errors errors' hit m _ n (λ j. (e j, (try_wanted classes m.wanted m).1))
        rest
