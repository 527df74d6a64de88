-- ===== src/Remote/View.antt =====
-- What other instances know of this one (modules/remote_sender.py).
use blankie.Prelude.{
  List, [], ◌∷◌, ◌++◌, Bool, true, false, ◌&&◌, ◌||◌, ◌≡◌, refl, sym, ◌∙◌, ap, arith,
}
use blankie.Prelude.Int.{pos, negsuc}
use blankie.Exec.{return, >>=-eq-return}
use blankie.World.{Moment, minus_inf, at, plus_inf, since, nan, sensing}
use blankie.Idle.{before, get_idle_since}
use blankie.Packets.{Payload, idle_since, lock, unlock, other}
use blankie.Remote.{
  Sender, sender_update, differs, tell_idle, tell_locked, unlike, lock_message, on_sensors,
  tell_changes,
}

-- What an instance knows of the sender's idle time and lock state, after one message more, and
-- after a list of them.
abbrev pub hear : Moment × Bool → Payload → Moment × Bool
hear (t, b) (idle_since nan) = (t, b)
hear (t, b) (idle_since (since u)) = (u, b)
hear (t, b) lock = (t, true)
hear (t, b) unlock = (t, false)
hear (t, b) other = (t, b)

abbrev pub hear_all : Moment × Bool → List Payload → Moment × Bool
hear_all v [] = v
hear_all v (p ∷ ps) = hear_all (hear v p) ps

hear_all-snoc :
    (v : Moment × Bool) (ps : List Payload) (p : Payload)
    → hear_all v (ps ++ p ∷ []) ≡ hear (hear_all v ps) p
hear_all-snoc v [] p = refl
hear_all-snoc v (q ∷ ps) p = hear_all-snoc (hear v q) ps p

-- The sender has told what it takes the others to know.
abbrev pub Told : Moment × Bool → Sender → Type 0
Told v x = hear_all v x.outbox ≡ (x.last_idle_since, x.last_locked)

differs-eq : (a b : Moment) → differs a b ≡ false → a ≡ b
unfolding before
differs-eq minus_inf minus_inf h = refl
differs-eq minus_inf (at y) h = cc
differs-eq minus_inf plus_inf h = cc
differs-eq (at x) minus_inf h = cc
differs-eq (at (pos m)) (at (pos n)) h = ap (λ k. at (pos k)) (ground arith)
differs-eq (at (pos m)) (at (negsuc n)) h = absurd (ground arith)
differs-eq (at (negsuc m)) (at (pos n)) h = absurd (ground arith)
differs-eq (at (negsuc m)) (at (negsuc n)) h = ap (λ k. at (negsuc k)) (ground arith)
differs-eq (at x) plus_inf h = cc
differs-eq plus_inf minus_inf h = cc
differs-eq plus_inf (at y) h = cc
differs-eq plus_inf plus_inf h = refl

module _ (v : Moment × Bool) where
  tell_idle-hear :
      (c : Bool) (t : Moment) (x : Sender)
      → Told v x
      → (c ≡ false → x.last_idle_since ≡ t)
      → hear_all v (tell_idle c t x).outbox ≡ (t, x.last_locked)
  tell_idle-hear true t x h q =
      hear_all-snoc v x.outbox (idle_since (since t)) ∙ ap (λ w. hear w (idle_since (since t))) h
  tell_idle-hear false t x h q = h ∙ ap (λ u. (u, x.last_locked)) (q refl)

  hear-lock_message : (t : Moment) (l b : Bool) → hear (t, l) (lock_message b) ≡ (t, b)
  hear-lock_message t l true = refl
  hear-lock_message t l false = refl

  tell_locked-hear :
      (c b : Bool) (t : Moment) (x : Sender)
      → hear_all v x.outbox ≡ (t, x.last_locked)
      → (c ≡ false → x.last_locked ≡ b)
      → hear_all v (tell_locked c b x).outbox ≡ (t, b)
  tell_locked-hear true b t x h q =
      hear_all-snoc v x.outbox (lock_message b)
      ∙ ap (λ w. hear w (lock_message b)) h
      ∙ hear-lock_message t x.last_locked b
  tell_locked-hear false b t x h q = h ∙ ap (λ l. (t, l)) (q refl)

  tell_idle-locked :
      (c : Bool) (t : Moment) (x : Sender) → (tell_idle c t x).last_locked ≡ x.last_locked
  tell_idle-locked true t x = refl
  tell_idle-locked false t x = refl

  tell_locked-world : (c b : Bool) (x : Sender) → (tell_locked c b x).world ≡ x.world
  tell_locked-world true b x = refl
  tell_locked-world false b x = refl

  unlike-eq : (l b : Bool) → unlike l b ≡ false → l ≡ b
  unlike-eq true true h = refl
  unlike-eq true false h = cc
  unlike-eq false true h = cc
  unlike-eq false false h = refl

  or-right : (a b : Bool) → (a || b) ≡ false → b ≡ false
  or-right true b h = cc
  or-right false b h = h

  -- If an instance that has heard all messages knows what the sender takes it to know: after an
  -- `update` that returns, forced or not, it knows the idle time that `get_idle_since` gives now,
  -- and the lock state.
  pub sender_update-Told :
      (force : Bool) (x y : Sender)
      → Told v x
      → sender_update force x ≡ (return tt, y)
      → (t : Moment) × ((sensing get_idle_since x.world).0 ≡ return t)
        × (hear_all v y.outbox ≡ (t, y.world.locked))
  unfolding sender_update
  sender_update-Told force x y h e =
      let (t, p, q) =
        >>=-eq-return (on_sensors (sensing get_idle_since)) (tell_changes force) x e in
      let asked = (on_sensors (sensing get_idle_since) x).1 in
      let c1 = force || differs asked.last_idle_since t in
      let told = tell_idle c1 t asked in
      let b = told.world.locked in
      let c2 = force && b || unlike told.last_locked b in
      let idle = tell_idle-hear c1 t asked h (λ n.
        differs-eq asked.last_idle_since t (or-right force (differs asked.last_idle_since t) n)) in
      let kept : told.last_locked ≡ asked.last_locked = tell_idle-locked c1 t asked in
      let locked =
        tell_locked-hear c2 b t told (idle ∙ ap (λ l. (t, l)) (sym kept)) (λ n.
          unlike-eq told.last_locked b (or-right (force && b) (unlike told.last_locked b) n)) in
      let same : tell_locked c2 b told ≡ y = ap (λ r. r.1) q in
      (
        t,
        p,
        ap (λ z. hear_all v z.outbox) (sym same)
            ∙ locked
            ∙ ap (λ l. (t, l))
                (ap (λ w. w.locked) (sym (tell_locked-world c2 b told))
                  ∙ ap (λ z. z.world.locked) same),
      )
