-- ===== src/Config/Wakeup.antt =====
-- The timers that an evaluation of the configuration notes (config.py) are enough: what the
-- configuration asks for cannot change before one of them is passed.
use blankie.Prelude.{
  ℕ, zero, suc, List, [], ◌∷◌, ◌++◌, Bool, true, false, ◌≡◌, refl, ◌⊎◌, inl, inr, sym, ◌∙◌, ap,
  arith, if◌then◌else◌, Bool-cases, subst,
}
use blankie.Prelude.Int.{pos, negsuc}
use blankie.Exec.{return, >>=-eq-return}
use blankie.UserConfig.{
  Argument, integer, other, UserConfig, finish, fail, run_module, is_locked, is_idle_for,
  set_bus_key,
}
use blankie.World.{Moment, Sensors, World}
use blankie.Idle.{before, get_idle_since}
use blankie.Config.{
  elapsed, idle_time, seconds, note_timer, is_idle_for_seconds, ask_idle_for, run_config,
}

-- Reading the sensors gives the idle time `i` and changes nothing.
pub record Settled (v : Sensors) (i : Moment) : Type 0 where
  pub t : Moment
  pub reads : get_idle_since v ≡ (return t, v)
  pub idle : elapsed v.outside.now t ≡ i

abbrev pub Noted : ℕ → List ℕ → Type 0
Noted n [] = ⊥
Noted n (m ∷ ms) = (n ≡ m) ⊎ Noted n ms

Noted-append : (n : ℕ) (xs ys : List ℕ) → Noted n xs → Noted n (xs ++ ys)
Noted-append n [] ys m = absurd m
Noted-append n (x ∷ xs) ys (inl e) = inl e
Noted-append n (x ∷ xs) ys (inr m) = inr (Noted-append n xs ys m)

Noted-last : (n : ℕ) (xs : List ℕ) → Noted n (xs ++ n ∷ [])
Noted-last n [] = inl refl
Noted-last n (x ∷ xs) = inr (Noted-last n xs)

pub idle_time-Settled : (w : World) (i : Moment) → Settled w.sensors i → idle_time w ≡ (return i, w)
unfolding idle_time
idle_time-Settled w i s = rw (s.reads, s.idle)

is_idle_for_seconds-Settled :
    (n : ℕ) (w : World) (i : Moment)
    → Settled w.sensors i
    → is_idle_for_seconds n w
      ≡ (if before (seconds n) i then (return true, w) else (return false, note_timer n w))
unfolding is_idle_for_seconds
is_idle_for_seconds-Settled n w i s = ground (arith, idle_time-Settled w i s)

is_idle_for_seconds-timers :
    (n : ℕ) (w : World)
    → ((is_idle_for_seconds n w).1.idle_timers ≡ w.idle_timers)
      ⊎ ((is_idle_for_seconds n w).1.idle_timers ≡ w.idle_timers ++ n ∷ [])
unfolding is_idle_for_seconds
is_idle_for_seconds-timers n w = ground arith

ask_idle_for-timers :
    (a : Argument) (w : World)
    → ((ask_idle_for a w).1.idle_timers ≡ w.idle_timers)
      ⊎ ((n : ℕ) × ((ask_idle_for a w).1.idle_timers ≡ w.idle_timers ++ n ∷ []))
unfolding ask_idle_for
ask_idle_for-timers (integer (pos (suc n))) w = elim (is_idle_for_seconds-timers (suc n) w) [
  | inl e ↦ inl e
  | inr e ↦ inr (suc n, e)
]
ask_idle_for-timers (integer (pos zero)) w = inl refl
ask_idle_for-timers (integer (negsuc n)) w = inl refl
ask_idle_for-timers other w = inl refl

ask_idle_for-Noted :
    (n : ℕ) (a : Argument) (w : World)
    → Noted n w.idle_timers
    → Noted n (ask_idle_for a w).1.idle_timers
ask_idle_for-Noted n a w m = elim (ask_idle_for-timers a w) [
  | inl e ↦ rw e m
  | inr (k, e) ↦ rw e (Noted-append n w.idle_timers (k ∷ []) m)
]

-- Evaluation forgets no timer.
run_config-Noted :
    (c : UserConfig) (w v : World) (n : ℕ)
    → run_config c w ≡ (return tt, v)
    → Noted n w.idle_timers
    → Noted n v.idle_timers
unfolding run_config
run_config-Noted finish w v n h m = subst (λ x. Noted n x.idle_timers) (ap (λ x. x.1) h) m
run_config-Noted (fail e) w v n h m = cc
run_config-Noted (run_module s c) w v n h m = run_config-Noted c _ v n h m
run_config-Noted (is_locked next) w v n h m = run_config-Noted (next w.locked) w v n h m
run_config-Noted (set_bus_key key c) w v n h m = run_config-Noted c _ v n h m
run_config-Noted (is_idle_for a next) w v n h m =
    let (b, e, h') = >>=-eq-return (ask_idle_for a) (λ b. run_config (next b)) w h in
    run_config-Noted (next b) _ v n h' (ask_idle_for-Noted n a w m)

-- Two worlds that agree on what the configuration sees, apart from the idle time, and on what it
-- has asked for so far.
pub record SameView (w w' : World) : Type 0 where
  pub locked : w'.locked ≡ w.locked
  pub modules : w'.modules ≡ w.modules
  pub idle_timers : w'.idle_timers ≡ w.idle_timers

-- In `w` no noted timer is passed by the idle time `i`.
abbrev pub NonePassed : World → Moment → Type 0
NonePassed w i = (n : ℕ) → Noted n w.idle_timers → before (seconds n) i ≡ false

before_mono : (a b c : Moment) → before c b ≡ false → before a b ≡ true → before a c ≡ true
unfolding before
before_mono a b c h k = ground arith

yes_answer :
    (n : ℕ) (w : World) (i : Moment)
    → Settled w.sensors i
    → before (seconds n) i ≡ true
    → is_idle_for_seconds n w ≡ (return true, w)
yes_answer n w i s e = is_idle_for_seconds-Settled n w i s ∙ rw e

no_answer :
    (n : ℕ) (w : World) (i : Moment)
    → Settled w.sensors i
    → before (seconds n) i ≡ false
    → is_idle_for_seconds n w ≡ (return false, note_timer n w)
no_answer n w i s e = is_idle_for_seconds-Settled n w i s ∙ rw e

module _ (i i' : Moment) (later : before i' i ≡ false) where
  -- An answer "no" is the same later, since its timer is not passed; "yes" stays "yes".
  ask_idle_for-later :
      (a : Argument) (b : Bool) (w w' v : World) (c : UserConfig)
      → Settled w.sensors i
      → Settled w'.sensors i'
      → SameView w w'
      → (ask_idle_for a w).0 ≡ return b
      → run_config c (ask_idle_for a w).1 ≡ (return tt, v)
      → NonePassed v i'
      → ((ask_idle_for a w').0 ≡ return b)
        × SameView (ask_idle_for a w).1 (ask_idle_for a w').1
        × Settled (ask_idle_for a w).1.sensors i
        × Settled (ask_idle_for a w').1.sensors i'
  unfolding ask_idle_for
  ask_idle_for-later (integer (pos (suc n))) b w w' v c s s' same e h none_passed =
      elim (Bool-cases (before (seconds (suc n)) i)) [
        | inl past ↦
            let y = yes_answer (suc n) w i s past in
            let y' = yes_answer (suc n) w' i' s' (before_mono _ i i' later past) in
            rw (y, y') (ap (λ x. x.0) (sym y) ∙ e, same, s, s')
        | inr ahead ↦
            let y = no_answer (suc n) w i s ahead in
            let noted =
              run_config-Noted c (note_timer (suc n) w) v (suc n) (rw y at h)
                (Noted-last (suc n) w.idle_timers) in
            let y' = no_answer (suc n) w' i' s' (none_passed (suc n) noted) in
            rw (y, y')
              (
                ap (λ x. x.0) (sym y) ∙ e,
                record {
                  locked = same.locked;
                  modules = same.modules;
                  idle_timers = ap (λ l. l ++ suc n ∷ []) same.idle_timers;
                },
                s,
                s',
              )
      ]
  ask_idle_for-later (integer (pos zero)) b w w' v c s s' same e h none_passed = cc
  ask_idle_for-later (integer (negsuc n)) b w w' v c s s' same e h none_passed = cc
  ask_idle_for-later other b w w' v c s s' same e h none_passed = cc

  -- Where reading the sensors changes nothing: if an evaluation of the configuration returned,
  -- then a later one, which starts with the same lock state, modules and timers, with an idle time
  -- that is not smaller and that passes no timer that the first one noted, returns too, and asks
  -- for the same modules and notes the same timers.
  pub run_config-later :
      (c : UserConfig) (w w' v : World)
      → Settled w.sensors i
      → Settled w'.sensors i'
      → SameView w w'
      → run_config c w ≡ (return tt, v)
      → NonePassed v i'
      → ((run_config c w').0 ≡ return tt) × SameView v (run_config c w').1
  unfolding run_config
  run_config-later finish w w' v s s' same h none_passed =
      (refl, subst (λ x. SameView x w') (ap (λ x. x.1) h) same)
  run_config-later (fail e) w w' v s s' same h none_passed = cc
  run_config-later (run_module spec c) w w' v s s' same h none_passed =
      run_config-later c _ _ v s s'
        (record {
          locked = same.locked;
          modules = ap (λ l. l ++ spec ∷ []) same.modules;
          idle_timers = same.idle_timers;
        })
        h none_passed
  run_config-later (is_locked next) w w' v s s' same h none_passed =
      subst (λ l. ((run_config (next l) w').0 ≡ return tt) × SameView v (run_config (next l) w').1)
        (sym same.locked) (run_config-later (next w.locked) w w' v s s' same h none_passed)
  run_config-later (set_bus_key key c) w w' v s s' same h none_passed =
      run_config-later c _ _ v s s'
        (record { locked = same.locked; modules = same.modules; idle_timers = same.idle_timers }) h
        none_passed
  run_config-later (is_idle_for a next) w w' v s s' same h none_passed =
      let (b, e, h') = >>=-eq-return (ask_idle_for a) (λ b. run_config (next b)) w h in
      let (e', same', s1, s1') =
        ask_idle_for-later a b w w' v (next b) s s' same e h' none_passed in
      rw e' (run_config-later (next b) _ _ v s1 s1' same' h' none_passed)
