-- ===== src/Remote/Disconnect.antt =====
-- What the receiver does when the connection to the bus is lost (modules/remote_receiver.py).
use blankie.Prelude.{
  List, [], ◌∷◌, true, false, ◌≡◌, ◌≢◌, refl, sym, ◌∙◌, ap, inl, inr, Bool-cases, arith,
  if◌then◌else◌,
}
use blankie.Exec.{Exec, return, >>=-eq-return}
use blankie.Spec.{Spec, str_eq, spec_eq, spec_eq_iff, spec_eq_refl, remove}
use blankie.Session.{Daemon, specs_of, detach, set_specs}
use blankie.Session.Attach.{KeepsSpecs}
use blankie.Packets.{disconnect}
use blankie.Remote.{remote_specs, detach_all, receive}

abbrev pub local_specs : List Spec → List Spec
local_specs [] = []
local_specs (s ∷ ss) =
    let rest = local_specs ss in if str_eq s.name "session.remote" then rest else s ∷ rest

abbrev remove_all : List Spec → List Spec → List Spec
remove_all [] xs = xs
remove_all (r ∷ rs) xs = remove_all rs (remove xs r)

true≢false : true ≢ false
true≢false h = cc

remove-other :
    (x z : Spec) (ys : List Spec)
    → str_eq x.name "session.remote" ≡ false
    → str_eq z.name "session.remote" ≡ true
    → remove (x ∷ ys) z ≡ x ∷ remove ys z
unfolding remove
remove-other x z ys h e = elim (Bool-cases (spec_eq x z)) [
  | inl q ↦ absurd (
      true≢false
        (sym e ∙ ap (λ s. str_eq s.name "session.remote") (sym ((spec_eq_iff x z).0 q)) ∙ h))
  | inr q ↦ rw q
]

remove-first : (x : Spec) (xs : List Spec) → remove (x ∷ xs) x ≡ xs
unfolding remove
remove-first x xs = rw (spec_eq_refl x)

remove_all-head :
    (x : Spec) (xs ys : List Spec)
    → str_eq x.name "session.remote" ≡ false
    → remove_all (remote_specs xs) (x ∷ ys) ≡ x ∷ remove_all (remote_specs xs) ys
unfolding remote_specs
remove_all-head x [] ys h = refl
remove_all-head x (z ∷ zs) ys h = elim (Bool-cases (str_eq z.name "session.remote")) [
  | inl e ↦ rw e (
      ap (remove_all (remote_specs zs)) (remove-other x z ys h e)
      ∙ remove_all-head x zs (remove ys z) h)
  | inr e ↦ rw e (remove_all-head x zs ys h)
]

-- Taking the remote sessions away one by one leaves the local ones.
remove_all-remote : (xs : List Spec) → remove_all (remote_specs xs) xs ≡ local_specs xs
unfolding remote_specs
remove_all-remote [] = refl
remove_all-remote (x ∷ xs) = elim (Bool-cases (str_eq x.name "session.remote")) [
  | inl e ↦ rw e (ap (remove_all (remote_specs xs)) (remove-first x xs) ∙ remove_all-remote xs)
  | inr e ↦ rw e (remove_all-head x xs xs e ∙ ap (λ l. x ∷ l) (remove_all-remote xs))
]

module _ (update : Exec Daemon (Unit {0})) (keeps : KeepsSpecs update) where
  detach-removes :
      (s : Spec) (m n : Daemon)
      → (detach update s m).0 ≡ return tt
      → specs_of (detach update s m).1 ≡ remove (specs_of m) s
  unfolding detach
  detach-removes s m n h =
      let removed = set_specs (remove (specs_of m) s) m in ground (arith, keeps removed)

  detach_all-removes :
      (ss : List Spec) (m n : Daemon)
      → detach_all update ss m ≡ (return tt, n)
      → specs_of n ≡ remove_all ss (specs_of m)
  unfolding detach_all
  detach_all-removes [] m n h = ap (λ y. specs_of y.1) (sym h)
  detach_all-removes (s ∷ ss) m n h =
      let (_, e, p) = >>=-eq-return (detach update s) (λ _. detach_all update ss) m h in
      detach_all-removes ss (detach update s m).1 n p ∙ ap (remove_all ss) (detach-removes s m n e)

  -- If updates leave the set of attached sessions alone, and the handling of a lost connection to
  -- the bus returns: the sessions of all remote instances are detached, and all other sessions
  -- stay attached, in their order.
  pub receive-disconnect :
      (m n : Daemon)
      → receive update disconnect m ≡ (return tt, n)
      → specs_of n ≡ local_specs (specs_of m)
  unfolding receive
  receive-disconnect m n h =
      detach_all-removes (remote_specs (specs_of m)) m n h ∙ remove_all-remote (specs_of m)
