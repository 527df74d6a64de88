-- ===== src/BusServer/Leaving.antt =====
-- A client that leaves, or is stopped, takes its id out of the registry (modules/bus_server.py).
use blankie.Prelude.{
  ℕ, String, List, [], ◌∷◌, true, false, ◌≡◌, ◌≢◌, refl, sym, subst, if◌then◌else◌, ◌∙◌, ap, inl,
  inr, Option, none, some, Bool-cases, ◌==◌, ==_iff,
}
use blankie.Exec.{Outcome, continue, ◌>>◌, return, raise, out_of_fuel, modify}
use blankie.Spec.{str_eq, str_eq-true, str_eq-eq}
use blankie.Packets.{leave}
use blankie.BusServer.{
  BusServer, Handler, client_of, put_client, drop_client, broadcast, identify, unregister,
  leave_bus, close_socket, stop_client, remove_client,
}
use blankie.BusServer.Same.{
  Identified, IsRegistry, SameRegistry, Identified-ext, SameRegistry-IsRegistry, broadcast_to-same,
  close_socket-same,
}

-- Leaving and entering the registry.
pub none≢some : {a : String} → ◌≢◌ {A = Option String} none (some a)
none≢some q = cc

some-eq : {j id : String} → ◌≡◌ {A = Option String} (some j) (some id) → j ≡ id
some-eq h = cc

other_id :
    (f : ℕ → Handler) (j id : String) (k h : ℕ)
    → str_eq j id ≡ false
    → (f h).instance_id ≡ some id
    → (f k).instance_id ≡ some j
    → (k == h) ≡ false
other_id f j id k h new_id e r = elim (Bool-cases (k == h)) [
  | inl c ↦
      let one = some-eq (sym r ∙ ap (λ n. (f n).instance_id) ((==_iff k h).0 c) ∙ e) in
      absurd (true≢false (sym (str_eq-true one) ∙ new_id))
  | inr c ↦ c
]
  where
    true≢false : true ≢ false
    true≢false q = cc

Identified-drop :
    (id : String) (l : List (String × ℕ)) (f : ℕ → Handler) (h : ℕ) (x : Handler)
    → (f h).instance_id ≡ some id
    → Identified l f
    → Identified (drop_client id l) (λ k. if k == h then x else f k)
unfolding drop_client
Identified-drop id [] f h x e r = tt
Identified-drop id ((j, k) ∷ l) f h x e (r, rs) =
    let rest = Identified-drop id l f h x e rs in
    elim (Bool-cases (str_eq j id)) [
      | inl same_id ↦ rw same_id rest
      | inr new_id ↦ rw (new_id, other_id f j id k h new_id e r) (r, rest)
    ]

pub Identified-fresh :
    (l : List (String × ℕ)) (f : ℕ → Handler) (h : ℕ) (x : Handler)
    → (f h).instance_id ≡ none
    → Identified l f
    → Identified l (λ k. if k == h then x else f k)
Identified-fresh [] f h x e r = tt
Identified-fresh ((j, k) ∷ l) f h x e (r, rs) = (
  elim (Bool-cases (k == h)) [
    | inl c ↦ absurd (none≢some (sym e ∙ ap (λ n. (f n).instance_id) (sym ((==_iff k h).0 c)) ∙ r))
    | inr c ↦ rw c r
  ],
  Identified-fresh l f h x e rs,
)

pub Identified-put :
    (id : String) (h : ℕ) (l : List (String × ℕ)) (f : ℕ → Handler)
    → (f h).instance_id ≡ some id
    → Identified l f
    → Identified (put_client id h l) f
unfolding put_client
Identified-put id h [] f e r = (e, tt)
Identified-put id h ((j, k) ∷ l) f e (r, rs) = elim (Bool-cases (str_eq j id)) [
  | inl same_id ↦ rw same_id (e ∙ ap some (sym (str_eq-eq same_id)), rs)
  | inr new_id ↦ rw new_id (r, Identified-put id h l f e rs)
]

drop_client-Identified :
    (id : String) (l : List (String × ℕ)) (f : ℕ → Handler)
    → Identified l f
    → Identified (drop_client id l) f
unfolding drop_client
drop_client-Identified id [] f r = tt
drop_client-Identified id ((j, k) ∷ l) f (r, rs) =
    let rest = drop_client-Identified id l f rs in
    elim (Bool-cases (str_eq j id)) [
      | inl same_id ↦ rw same_id rest
      | inr new_id ↦ rw new_id (r, rest)
    ]

-- The end of `leave_bus`, after the others were told.
leave_end :
    (r : Outcome (Unit {0})) (h : ℕ) (id : String) (b c : BusServer)
    → (b.handlers h).instance_id ≡ some id
    → IsRegistry b
    → SameRegistry (record b { clients = drop_client id b.clients }) c
    → IsRegistry (continue r (λ _. modify (identify h none)) c).1
leave_end (return a) h id b c e reg s =
    let gone =
      Identified-drop id b.clients c.handlers h (record (c.handlers h) { instance_id = none })
        (s.ids h ∙ e) (Identified-ext b.clients b.handlers c.handlers s.ids reg) in
    subst (λ l. Identified l (identify h none c).handlers) (sym s.clients) gone
leave_end (raise x) h id b c e reg s =
    SameRegistry-IsRegistry (record b { clients = drop_client id b.clients }) c s
      (drop_client-Identified id b.clients b.handlers reg)
leave_end out_of_fuel h id b c e reg s =
    SameRegistry-IsRegistry (record b { clients = drop_client id b.clients }) c s
      (drop_client-Identified id b.clients b.handlers reg)

leave_bus-Identified :
    (h : ℕ) (me : Option String) (b : BusServer)
    → (b.handlers h).instance_id ≡ me
    → IsRegistry b
    → IsRegistry (leave_bus h me b).1
unfolding leave_bus unregister broadcast
leave_bus-Identified h none b e r = r
leave_bus-Identified h (some id) b e r = go (client_of b.clients id)
  where
    go :
        (k : Option ℕ)
        → IsRegistry
            ((remove_client k id >> (broadcast (leave id) none >> modify (identify h none))) b).1
    go none = r
    go (some k) =
        let left = record b { clients = drop_client id b.clients } in
        let told = broadcast (leave id) none left in
        leave_end told.0 h id b told.1 e r (broadcast_to-same left.clients (leave id) none left)

-- `stop` keeps the registry, whatever it raises.
pub stop_client-IsRegistry : (h : ℕ) (b : BusServer) → IsRegistry b → IsRegistry (stop_client h b).1
unfolding stop_client
stop_client-IsRegistry h b r =
    let me = (b.handlers h).instance_id in
    go (leave_bus h me b).0 (leave_bus h me b).1 (leave_bus-Identified h me b refl r)
  where
    go :
        (x : Outcome (Unit {0})) (c : BusServer)
        → IsRegistry c
        → IsRegistry (continue x (λ _. close_socket h) c).1
    go (return a) c r = SameRegistry-IsRegistry c (close_socket h c).1 (close_socket-same h c) r
    go (raise e) c r = r
    go out_of_fuel c r = r
