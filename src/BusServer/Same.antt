-- ===== src/BusServer/Same.antt =====
-- What the bus sends leaves its registry alone (modules/bus_server.py).
use blankie.Prelude.{
  ℕ, String, List, [], ◌∷◌, ◌++◌, Bool, true, false, not, ◌≡◌, refl, sym, subst, if◌then◌else◌, ◌∙◌,
  ap, inl, inr, Option, none, some, Bool-cases, ◌==◌, ==_iff,
}
use blankie.Exec.{Exec, Outcome, continue, ◌>>◌, return, raise, out_of_fuel, throw, exception}
use blankie.Packets.{Packet}
use blankie.BusServer.{BusServer, Handler, send, broadcast_to, close_socket, set_handler}

-- The clients in the registry have the ids that they are registered under.
abbrev pub Identified : List (String × ℕ) → (ℕ → Handler) → Type 0
Identified [] f = Unit
Identified ((id, k) ∷ l) f = ((f k).instance_id ≡ some id) × Identified l f

abbrev pub IsRegistry : BusServer → Type 0
IsRegistry b = Identified b.clients b.handlers

-- The registry and the clients' ids are the same.
pub record SameRegistry (b c : BusServer) : Type 0 where
  pub clients : c.clients ≡ b.clients
  pub ids : (k : ℕ) → (c.handlers k).instance_id ≡ (b.handlers k).instance_id

pub same : {b : BusServer} → SameRegistry b b
same = record { clients = refl; ids = λ k. refl }

pub same_then : {b c d : BusServer} → SameRegistry b c → SameRegistry c d → SameRegistry b d
same_then p q = record { clients = q.clients ∙ p.clients; ids = λ k. q.ids k ∙ p.ids k }

pub Identified-ext :
    (l : List (String × ℕ)) (f g : ℕ → Handler)
    → ((k : ℕ) → (g k).instance_id ≡ (f k).instance_id)
    → Identified l f
    → Identified l g
Identified-ext [] f g e h = tt
Identified-ext ((j, k) ∷ l) f g e (h, hs) = (e k ∙ h, Identified-ext l f g e hs)

pub SameRegistry-IsRegistry : (b c : BusServer) → SameRegistry b c → IsRegistry b → IsRegistry c
SameRegistry-IsRegistry b c s h =
    subst (λ l. Identified l c.handlers) (sym s.clients)
      (Identified-ext b.clients b.handlers c.handlers s.ids h)

choice-same :
    (x : Bool) (p q : Outcome (Unit {0}) × BusServer) (b : BusServer)
    → SameRegistry b p.1
    → SameRegistry b q.1
    → SameRegistry b (if x then p else q).1
choice-same true p q b h k = h
choice-same false p q b h k = k

pub send-same : (h : ℕ) (p : Packet) (b : BusServer) → SameRegistry b (send h p b).1
unfolding send
send-same h p b =
    let x = b.handlers h in
    let added : Outcome (Unit {0}) × BusServer =
      (return tt, record b { sent = b.sent ++ (h, p) ∷ [] }) in
    let failed = throw (exception "OSError") b in
    choice-same (not x.connected) (throw (exception "AttributeError") b)
      (if x.broken then failed else added) b same
      (choice-same x.broken failed added b same (record { clients = refl; ids = λ k. refl }))

continue-same :
    {b : BusServer} (r : Outcome (Unit {0})) (f : Exec BusServer (Unit {0})) (c : BusServer)
    → SameRegistry b c
    → ((d : BusServer) → SameRegistry d (f d).1)
    → SameRegistry b (continue r (λ _. f) c).1
continue-same (return a) f c p k = same_then p (k c)
continue-same (raise e) f c p k = p
continue-same out_of_fuel f c p k = p

pub choice :
    (x : Bool) (f g : Exec BusServer (Unit {0})) (b : BusServer)
    → IsRegistry (f b).1
    → IsRegistry (g b).1
    → IsRegistry ((if x then f else g) b).1
choice true f g b p q = p
choice false f g b p q = q

choice_of-same :
    (x : Bool) (f g : Exec BusServer (Unit {0})) (b : BusServer)
    → SameRegistry b (f b).1
    → SameRegistry b (g b).1
    → SameRegistry b ((if x then f else g) b).1
choice_of-same true f g b p q = p
choice_of-same false f g b p q = q

pub broadcast_to-same :
    (l : List (String × ℕ)) (p : Packet) (ex : Option ℕ) (b : BusServer)
    → SameRegistry b (broadcast_to l p ex b).1
unfolding broadcast_to
broadcast_to-same [] p ex b = same
broadcast_to-same ((_, k) ∷ l) p none b =
    continue-same (send k p b).0 (broadcast_to l p none) (send k p b).1 (send-same k p b)
      (broadcast_to-same l p none)
broadcast_to-same ((_, k) ∷ l) p (some h) b =
    let rest = broadcast_to l p (some h) in
    choice_of-same (k == h) rest (send k p >> rest) b (broadcast_to-same l p (some h) b) (
      continue-same (send k p b).0 rest (send k p b).1 (send-same k p b)
        (broadcast_to-same l p (some h)))

pub close_socket-same : (h : ℕ) (b : BusServer) → SameRegistry b (close_socket h b).1
unfolding close_socket
close_socket-same h b =
    let x = b.handlers h in
    let closed : Outcome (Unit {0}) × BusServer =
      (return tt, set_handler h (record x { connected = false }) b) in
    let failed = throw (exception "OSError") b in
    choice-same (not x.connected) (return tt, b) (if x.broken then failed else closed) b same
      (choice-same x.broken failed closed b same (record {
        clients = refl;
        ids = λ k. elim (Bool-cases (k == h)) [
          | inl c ↦ rw c (ap (λ n. (b.handlers n).instance_id) (sym ((==_iff k h).0 c)))
          | inr c ↦ rw c
        ];
      }))
