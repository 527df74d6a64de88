-- ===== src/Config/Asks.antt =====
-- What the configuration asks for whatever the sensors say (config.py).
use blankie.Prelude.{
  suc, zero, [], ◌∷◌, ◌++◌, Bool, true, false, ◌≡◌, refl, sym, ap, subst, arith, ◌∙◌, ◌⊎◌, inl, inr,
  some,
}
use blankie.Prelude.Int.{pos, negsuc}
use blankie.Exec.{gets, return, >>=-eq-return, return-eq}
use blankie.Exec.Triples.{Triple, Triple-modify, Triple-gets, Triple->>=}
use blankie.Spec.{Spec, contains, contains-append, contains-snoc, spec_eq, spec_eq_refl}
use blankie.UserConfig.{
  Argument, integer, other, UserConfig, finish, fail, run_module, is_locked, is_idle_for,
  set_bus_key,
}
use blankie.World.{World}
use blankie.Manager.{Selection}
use blankie.Config.{
  idle_time, is_idle_for_seconds, ask_idle_for, run_config, evaluate, reset, config_or_nothing,
  config_selector, get_schedule, first_timeout, timer_for,
}

-- In this lock state the configuration, if it does not fail, asks for `s`, however long the user has
-- been idle.
abbrev pub AsksFor : Bool → Spec → UserConfig → Type 0
AsksFor locked s finish = ⊥
AsksFor locked s (fail e) = Unit
AsksFor locked s (run_module t next) = (t ≡ s) ⊎ AsksFor locked s next
AsksFor locked s (is_locked next) = AsksFor locked s (next locked)
AsksFor locked s (is_idle_for a next) = AsksFor locked s (next true) × AsksFor locked s (next false)
AsksFor locked s (set_bus_key key next) = AsksFor locked s next

idle_time-modules : (w : World) → (idle_time w).1.modules ≡ w.modules
unfolding idle_time
idle_time-modules w = ground arith

ask_idle_for-keeps :
    (a : Argument) (w : World)
    → ((ask_idle_for a w).1.modules ≡ w.modules) × ((ask_idle_for a w).1.locked ≡ w.locked)
unfolding ask_idle_for is_idle_for_seconds idle_time
ask_idle_for-keeps (integer (pos (suc n))) w = ground arith
ask_idle_for-keeps (integer (pos zero)) w = (refl, refl)
ask_idle_for-keeps (integer (negsuc n)) w = (refl, refl)
ask_idle_for-keeps other w = (refl, refl)

module _ (s : Spec) where
  abbrev Noted : World → Type 0
  Noted w = contains w.modules s ≡ true

  noted :
      (w : World) (t : Spec) {Later : Type 0}
      → Noted w ⊎ ((t ≡ s) ⊎ Later)
      → Noted (record w { modules = w.modules ++ t ∷ [] }) ⊎ Later
  noted w t (inl h) = inl (ground (arith, contains-snoc w.modules t s))
  noted w t (inr (inl same)) =
      inl (ground (arith, contains-snoc w.modules t s, ap (λ a. spec_eq a s) same, spec_eq_refl s))
  noted w t (inr (inr later)) = inr later

  answered :
      (w w' : World) (next : Bool → UserConfig) (b : Bool)
      → w'.modules ≡ w.modules
      → w'.locked ≡ w.locked
      → Noted w ⊎ (AsksFor w.locked s (next true) × AsksFor w.locked s (next false))
      → Noted w' ⊎ AsksFor w'.locked s (next b)
  answered w w' next b modules locked (inl h) = inl (ap (λ l. contains l s) modules ∙ h)
  answered w w' next true modules locked (inr h) =
      inr (subst (λ l. AsksFor l s (next true)) (sym locked) h.0)
  answered w w' next false modules locked (inr h) =
      inr (subst (λ l. AsksFor l s (next false)) (sym locked) h.1)

  run_config-asks :
      (c : UserConfig) (w v : World)
      → Noted w ⊎ AsksFor w.locked s c
      → run_config c w ≡ (return tt, v)
      → Noted v
  unfolding run_config
  run_config-asks finish w v (inl h) e = subst Noted (ap (λ p. p.1) e) h
  run_config-asks finish w v (inr h) e = absurd h
  run_config-asks (fail x) w v h e = cc
  run_config-asks (run_module t next) w v h e = run_config-asks next _ v (noted w t h) e
  run_config-asks (is_locked next) w v h e = run_config-asks (next w.locked) w v h e
  run_config-asks (is_idle_for a next) w v h e =
      let (b, q, e') = >>=-eq-return (ask_idle_for a) (λ b. run_config (next b)) w e in
      let w' = (ask_idle_for a w).1 in
      let (modules, locked) = ask_idle_for-keeps a w in
      run_config-asks (next b) w' v (answered w w' next b modules locked h) e'
  run_config-asks (set_bus_key key next) w v h e = run_config-asks next _ v h e

  evaluate-asks :
      (c : UserConfig) (w v : World)
      → w.config ≡ some c
      → AsksFor w.locked s c
      → evaluate w ≡ (return tt, v)
      → Noted v
  unfolding evaluate
  evaluate-asks c w v configured asks e =
      run_config-asks c (reset w) v (inr asks)
        (subst (λ o. config_or_nothing o (reset w) ≡ (return tt, v)) configured e)

  abbrev NotedIn : Selection World → Type 0
  NotedIn x = Noted x.world

  -- If the configuration asks for `s`, so does its selector when it returns.
  pub config_selector-asks :
      (c : UserConfig) (x y : Selection World)
      → x.world.config ≡ some c
      → AsksFor x.world.locked s c
      → config_selector x ≡ (return tt, y)
      → contains y.chosen s ≡ true
  unfolding config_selector
  config_selector-asks c x y configured asks e =
      Triple->>= Asking (λ _. NotedIn) (λ _ z. contains z.chosen s ≡ true) _ _ evaluated
        (λ _.
          Triple->>= NotedIn (λ _. NotedIn) _ _ _ (Triple-gets NotedIn (λ z. z.world.idle_timers))
            (λ timers.
              Triple->>= NotedIn (λ _. NotedIn) _ _ _
                (Triple-modify NotedIn NotedIn
                  (λ z. record z { chosen = z.chosen ++ first_timeout (get_schedule timers) })
                  (λ _ h. h))
                (λ _.
                  Triple->>= NotedIn (λ _. NotedIn) _ _ _ waited
                    (λ idle.
                      Triple->>= NotedIn (λ _. NotedIn) _ _ _
                        (Triple-modify NotedIn NotedIn
                          (λ z. record z {
                            chosen = z.chosen ++ timer_for (get_schedule timers) idle;
                          })
                          (λ _ h. h))
                        (λ _.
                          Triple->>= NotedIn (λ modules _. contains modules s ≡ true) _ _ _ listed
                            (λ modules.
                              Triple-modify (λ _. contains modules s ≡ true)
                                (λ z. contains z.chosen s ≡ true)
                                (λ z. record z { chosen = z.chosen ++ modules })
                                (λ z h. ground (arith, contains-append z.chosen modules s))))))))
        x y tt (configured, asks) e
    where
      Asking : Selection World → Type 0
      Asking z = (z.world.config ≡ some c) × AsksFor z.world.locked s c

      evaluated :
          Triple Asking
            (λ z. let (r, w) = evaluate z.world in (r, record z { world = w }))
            (λ _. NotedIn)
      evaluated z t a (set, ask) e =
          let w = (evaluate z.world).1 in
          subst NotedIn (ap (λ p. p.1) e)
            (evaluate-asks c z.world w set ask (λ i. ((ap (λ p. p.0) e) i, w)))

      waited :
          Triple NotedIn
            (λ z. let (r, w) = idle_time z.world in (r, record z { world = w }))
            (λ _. NotedIn)
      waited z t a h e =
          subst NotedIn (ap (λ p. p.1) e) (ap (λ l. contains l s) (idle_time-modules z.world) ∙ h)

      listed : Triple NotedIn (gets (λ z. z.world.modules)) (λ modules _. contains modules s ≡ true)
      listed z t a h e = ap (λ l. contains l s) (sym (return-eq e)) ∙ h
