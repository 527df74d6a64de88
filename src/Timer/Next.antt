-- ===== src/Timer/Next.antt =====
-- The timer fires for the next timeout of the schedule, and after it (modules/timer.py).
use blankie.Prelude.{
  ℕ, ◌+◌, ◌*◌, ◌≤◌, List, [], ◌∷◌, true, false, ◌&&◌, ◌≡◌, refl, ◌⊎◌, inl, inr, Option, none, some,
  arith, lt→ltb, ltb→lt, ltb, subst, if◌then◌else◌,
}
use blankie.Prelude.Int.{ℤ, pos, ◌+ℤ◌, ◌-ℤ◌, int_laws}
use blankie.Exec.{return}
use blankie.World.{Moment, at}
use blankie.Idle.{before}
use blankie.Config.{seconds}
use blankie.Config.Wakeup.{Noted, Settled, idle_time-Settled}
use blankie.Timer.{below_next, next_time, to_sleep, TimerState, timer_start_next}

-- `n` is a timeout of the schedule that is ahead of the idle time, and none that is ahead comes
-- earlier.
pub record IsNext (idle : Moment) (schedule : List ℕ) (n : ℕ) : Type 0 where
  pub listed : Noted n schedule
  pub ahead : before idle (seconds n) ≡ true
  pub least : (m : ℕ) → Noted m schedule → before idle (seconds m) ≡ true → n ≤ m

-- What the loop has found so far, `next`, and what it finds in the rest.
abbrev Best : Moment → List ℕ → Option ℕ → Option ℕ → Type 0
Best idle ts next none = (next ≡ none) × ((m : ℕ) → Noted m ts → before idle (seconds m) ≡ false)
Best idle ts next (some n) =
    ((next ≡ some n) ⊎ (Noted n ts × (before idle (seconds n) ≡ true)))
    × ((k : ℕ) → next ≡ some k → n ≤ k)
    × ((m : ℕ) → Noted m ts → before idle (seconds m) ≡ true → n ≤ m)

abbrev chosen : Moment → ℕ → Option ℕ → Option ℕ
chosen idle t next = if before idle (seconds t) && below_next t next then some t else next

le_of_chosen :
    (idle : Moment) (t n : ℕ) (next : Option ℕ)
    → before idle (seconds t) ≡ true
    → ((k : ℕ) → chosen idle t next ≡ some k → n ≤ k)
    → n ≤ t
le_of_chosen idle t n none ahead le = le t (ground arith)
le_of_chosen idle t n (some k) ahead le = ground (arith, le t, le k)

-- One round of the loop.
Best-cons :
    (idle : Moment) (t : ℕ) (ts : List ℕ) (next result : Option ℕ)
    → Best idle ts (chosen idle t next) result
    → Best idle (t ∷ ts) next result
Best-cons idle t ts next none (e, none_ahead) = (ground arith, all)
  where
    all : (m : ℕ) → Noted m (t ∷ ts) → before idle (seconds m) ≡ false
    all m (inl p) = rw p (ground arith)
    all m (inr h) = none_ahead m h
Best-cons idle t ts next (some n) (found, le_next, le_rest) = (where_found found, le_before, all)
  where
    where_found :
        (chosen idle t next ≡ some n) ⊎ (Noted n ts × (before idle (seconds n) ≡ true))
        → (next ≡ some n) ⊎ (Noted n (t ∷ ts) × (before idle (seconds n) ≡ true))
    where_found (inl e) = ground arith
    where_found (inr (h, ahead)) = inr (inr h, ahead)

    le_before : (k : ℕ) → next ≡ some k → n ≤ k
    le_before k e = ground (arith, le_next t, le_next k)

    all : (m : ℕ) → Noted m (t ∷ ts) → before idle (seconds m) ≡ true → n ≤ m
    all m (inl p) ahead = rw p (le_of_chosen idle t n next (rw p at ahead) le_next)
    all m (inr h) ahead = le_rest m h ahead

next_time-Best :
    (idle : Moment) (next : Option ℕ) (ts : List ℕ) → Best idle ts next (next_time idle next ts)
unfolding next_time
next_time-Best idle none [] = (refl, λ m h. absurd h)
next_time-Best idle (some n) [] = (inl refl, λ k e. ground arith, λ m h. absurd h)
next_time-Best idle next (t ∷ ts) =
    Best-cons idle t ts next _ (next_time-Best idle (chosen idle t next) ts)

-- The loop finds the next timeout, and finds none only if none is ahead.
pub next_time-none :
    (idle : Moment) (schedule : List ℕ)
    → next_time idle none schedule ≡ none
    → (m : ℕ) → Noted m schedule
    → before idle (seconds m) ≡ false
next_time-none idle schedule e = (rw e at (next_time-Best idle none schedule)).1

next_time-some :
    (idle : Moment) (schedule : List ℕ) (n : ℕ)
    → next_time idle none schedule ≡ some n
    → IsNext idle schedule n
next_time-some idle schedule n e =
    let (found, _, le) = subst (Best idle schedule none) e (next_time-Best idle none schedule) in
    record { listed = (pick found).0; ahead = (pick found).1; least = le }
  where
    pick :
        (◌≡◌ {A = Option ℕ} none (some n)) ⊎ (Noted n schedule × (before idle (seconds n) ≡ true))
        → Noted n schedule × (before idle (seconds n) ≡ true)
    pick (inl e) = cc
    pick (inr h) = h

-- What the timer's interval must be, in milliseconds, at the idle time `i`.
pub record WakesFor (i : ℤ) (schedule : List ℕ) (timer : Option Moment) : Type 0 where
  pub n : ℕ
  pub next : IsNext (at i) schedule n
  pub interval : ℤ
  pub armed : timer ≡ some (at interval)
  pub positive : before (at (pos 1000)) (at interval) ≡ true
  pub hook_due : before (seconds n) (at (i +ℤ interval)) ≡ true
  pub prompt : before (at (pos (n * 1000 + 1000))) (at (i +ℤ interval)) ≡ false

ge→ltb : (a b : ℕ) → b ≤ a → ltb a b ≡ false
ge→ltb a b h = ground arith

interval-WakesFor :
    (i : ℤ) (schedule : List ℕ) (n : ℕ)
    → IsNext (at i) schedule n
    → WakesFor i schedule (some (to_sleep n (at i)))
unfolding to_sleep before
interval-WakesFor i schedule n next = record {
  n = n;
  next = next;
  interval = pos (n * 1000 + 1000) -ℤ i;
  armed = refl;
  positive = lt→ltb _ _ (omega (int_laws, ltb→lt, next.ahead));
  hook_due = lt→ltb _ _ (omega (int_laws));
  prompt = ge→ltb _ _ (omega (int_laws));
}

abbrev scheduled : Option ℕ → Moment → Option Moment
scheduled none idle = none
scheduled (some n) idle = some (to_sleep n idle)

timer_start_next-timer :
    (schedule : List ℕ) (x : TimerState) (idle : Moment)
    → Settled x.daemon.world.sensors idle
    → before idle (at (pos 0)) ≡ false
    → let (r, y) = timer_start_next schedule x in
      (r ≡ return tt) × (y.timer ≡ scheduled (next_time idle none schedule) idle)
unfolding timer_start_next
timer_start_next-timer schedule x idle s h =
    ground (arith, idle_time-Settled x.daemon.world idle s, h)

-- Where reading the sensors changes nothing, and the system has been idle for `i` milliseconds:
-- `timer_start_next` returns, and either no timeout of the schedule is ahead and no timer is left,
-- or the timer's interval is longer than a second, and when it has passed, the system is idle for
-- longer than the next timeout, by a second at most, if nothing else happened.
pub timer_start_next-WakesFor :
    (schedule : List ℕ) (x : TimerState) (i : ℤ)
    → Settled x.daemon.world.sensors (at i)
    → before (at i) (at (pos 0)) ≡ false
    → let (r, y) = timer_start_next schedule x in
      (r ≡ return tt)
      × ((y.timer ≡ none) × ((m : ℕ) → Noted m schedule → before (at i) (seconds m) ≡ false)
          ⊎ WakesFor i schedule y.timer)
timer_start_next-WakesFor schedule x i s idle =
    let (returned, timer) = timer_start_next-timer schedule x (at i) s idle in
    (returned, rw timer (go (next_time (at i) none schedule) refl))
  where
    go :
        (o : Option ℕ)
        → next_time (at i) none schedule ≡ o
        → (scheduled o (at i) ≡ none)
            × ((m : ℕ) → Noted m schedule → before (at i) (seconds m) ≡ false)
          ⊎ WakesFor i schedule (scheduled o (at i))
    go none e = inl (refl, next_time-none (at i) schedule e)
    go (some n) e = inr (interval-WakesFor i schedule n (next_time-some (at i) schedule n e))
