-- ===== src/BusServer/Registered.antt =====
-- The registry of the bus: a client is registered under the id that it has (modules/bus_server.py).
use blankie.Prelude.{
  ℕ, String, List, [], ◌∷◌, ◌++◌, false, ◌≡◌, refl, sym, map, ◌∙◌, ap, inl, inr, Option, none, some,
  arith, Bool-cases, ◌==◌, ==_iff,
}
use blankie.Exec.{
  Exec, Outcome, continue, ◌>>◌, return, raise, out_of_fuel, throw, exception, modify,
}
use blankie.Spec.{str_eq, str_eq-eq}
use blankie.Packets.{leave, message, join, welcome, Request, hello, tell, unknown}
use blankie.BusServer.{
  BusServer, Handler, client_of, drop_client, send, broadcast, register, identify, unregister,
  leave_bus, close_socket, stop_client, stop_duplicate, enter, authenticate, handle_hello,
  handle_message, handle_packet, same_bytes, remove_client,
}
use blankie.BusServer.Same.{
  Identified, IsRegistry, SameRegistry-IsRegistry, send-same, broadcast_to-same, close_socket-same,
  choice,
}
use blankie.BusServer.Leaving.{none≢some, Identified-fresh, Identified-put, stop_client-IsRegistry}

-- Stopping a client leaves the other clients' ids alone.
module _ (k h : ℕ) (e : (h == k) ≡ false) where
  identify-other :
      (r : Outcome (Unit {0})) (c : BusServer)
      → ((continue r (λ _. modify (identify k none)) c).1.handlers h).instance_id
        ≡ (c.handlers h).instance_id
  identify-other (return a) c = rw e
  identify-other (raise x) c = refl
  identify-other out_of_fuel c = refl

  leave_bus-other :
      (me : Option String) (b : BusServer)
      → ((leave_bus k me b).1.handlers h).instance_id ≡ (b.handlers h).instance_id
  unfolding leave_bus unregister broadcast
  leave_bus-other none b = refl
  leave_bus-other (some id) b = go (client_of b.clients id)
    where
      go :
          (n : Option ℕ)
          → (((remove_client n id >> (broadcast (leave id) none >> modify (identify k none)))
                b).1.handlers
              h).instance_id
            ≡ (b.handlers h).instance_id
      go none = refl
      go (some n) =
          let left = record b { clients = drop_client id b.clients } in
          let told = broadcast (leave id) none left in
          identify-other told.0 told.1 ∙ (broadcast_to-same left.clients (leave id) none left).ids h

  close-other :
      (r : Outcome (Unit {0})) (c : BusServer)
      → ((continue r (λ _. close_socket k) c).1.handlers h).instance_id ≡ (c.handlers h).instance_id
  close-other (return a) c = (close_socket-same k c).ids h
  close-other (raise x) c = refl
  close-other out_of_fuel c = refl

  stop_client-other :
      (b : BusServer) → ((stop_client k b).1.handlers h).instance_id ≡ (b.handlers h).instance_id
  unfolding stop_client
  stop_client-other b =
      let me = (b.handlers k).instance_id in
      close-other (leave_bus k me b).0 (leave_bus k me b).1 ∙ leave_bus-other me b

client_of-Identified :
    (l : List (String × ℕ)) (f : ℕ → Handler) (k : ℕ) (id : String)
    → Identified l f
    → client_of l id ≡ some k
    → (f k).instance_id ≡ some id
unfolding client_of
client_of-Identified [] f k id r c = cc
client_of-Identified ((j, n) ∷ l) f k id (r, rs) c = elim (Bool-cases (str_eq j id)) [
  | inl same_id ↦ ground (arith, str_eq-eq same_id, r)
  | inr new_id ↦ ground (arith, client_of-Identified l f k id rs)
]

-- A client without an id is not in the registry.
client_of-other :
    (l : List (String × ℕ)) (f : ℕ → Handler) (h k : ℕ) (id : String)
    → Identified l f
    → (f h).instance_id ≡ none
    → client_of l id ≡ some k
    → (h == k) ≡ false
client_of-other l f h k id r e c =
    let e' = client_of-Identified l f k id r c in
    elim (Bool-cases (h == k)) [
      | inl q ↦ absurd (none≢some (sym e ∙ ap (λ n. (f n).instance_id) ((==_iff h k).0 q) ∙ e'))
      | inr q ↦ q
    ]

-- The last steps of `enter`.
tell_all-IsRegistry :
    (h : ℕ) (id : String) (b : BusServer)
    → (b.handlers h).instance_id ≡ some id
    → IsRegistry b
    → IsRegistry
        ((modify (register h id)
            >> (broadcast (join id) (some h)
                >> (λ c. send h (welcome (map (λ e. e.0) c.clients)) c)))
          b).1
unfolding register broadcast
tell_all-IsRegistry h id b e r =
    let c = register h id b in
    let told = broadcast (join id) (some h) c in
    go told.0 told.1 (
      SameRegistry-IsRegistry c told.1 (broadcast_to-same c.clients (join id) (some h) c)
        (Identified-put id h b.clients b.handlers e r))
  where
    go :
        (x : Outcome (Unit {0})) (c : BusServer)
        → IsRegistry c
        → IsRegistry (continue x (λ _. λ d. send h (welcome (map (λ e. e.0) d.clients)) d) c).1
    go (return a) c r =
        SameRegistry-IsRegistry c _ (send-same h (welcome (map (λ e. e.0) c.clients)) c) r
    go (raise x) c r = r
    go out_of_fuel c r = r

abbrev tell_all : ℕ → String → Exec BusServer (Unit {0})
tell_all h id =
    modify (register h id)
    >> (broadcast (join id) (some h) >> (λ c. send h (welcome (map (λ e. e.0) c.clients)) c))

after_stop :
    (x : Outcome (Unit {0})) (h : ℕ) (id : String) (c : BusServer)
    → (c.handlers h).instance_id ≡ some id
    → IsRegistry c
    → IsRegistry (continue x (λ _. tell_all h id) c).1
after_stop (return a) h id c e r = tell_all-IsRegistry h id c e r
after_stop (raise a) h id c e r = r
after_stop out_of_fuel h id c e r = r

enter-IsRegistry :
    (h : ℕ) (id : String) (b : BusServer)
    → (b.handlers h).instance_id ≡ none
    → IsRegistry b
    → IsRegistry (enter h id b).1
unfolding enter stop_duplicate
enter-IsRegistry h id b e r = go (client_of b.clients id) refl
  where
    b1 : BusServer
    b1 = identify h (some id) b

    named : (b1.handlers h).instance_id ≡ some id
    named = rw ((==_iff h h).1 refl)

    reg : IsRegistry b1
    reg =
        Identified-fresh b.clients b.handlers h (record (b.handlers h) { instance_id = some id }) e
          r

    go :
        (k : Option ℕ)
        → client_of b.clients id ≡ k
        → IsRegistry ((stop_duplicate k >> tell_all h id) b1).1
    go none q = tell_all-IsRegistry h id b1 named reg
    go (some k) q =
        after_stop (stop_client k b1).0 h id (stop_client k b1).1
          (stop_client-other k h (client_of-other b.clients b.handlers h k id r e q) b1 ∙ named)
          (stop_client-IsRegistry k b1 reg)

module _ (sha256 : List ℕ → List ℕ) where
  hello-IsRegistry :
      (h : ℕ) (me : Option String) (digest : Option (List ℕ)) (id : String) (b : BusServer)
      → (b.handlers h).instance_id ≡ me
      → IsRegistry b
      → IsRegistry (handle_hello sha256 h me digest id b).1
  unfolding handle_hello authenticate
  hello-IsRegistry h (some me) digest id b e r = r
  hello-IsRegistry h none digest id b e r = go b.bus_key digest
    where
      go : (key d : Option (List ℕ)) → IsRegistry (authenticate sha256 h key d id b).1
      go none d = r
      go (some key) none = r
      go (some key) (some d) =
          choice (same_bytes (sha256 (key ++ (b.handlers h).challenge)) d) (enter h id)
            (throw (exception "Exception")) b (enter-IsRegistry h id b e r) r

  -- Whatever packet arrives, and whether it is handled or raises: each client in the bus's registry
  -- stays registered under the id that it has.
  pub handle_packet-IsRegistry :
      (h : ℕ) (p : Request) (b : BusServer)
      → IsRegistry b
      → IsRegistry (handle_packet sha256 h p b).1
  unfolding handle_packet handle_message broadcast
  handle_packet-IsRegistry h (hello digest id) b r =
      hello-IsRegistry h (b.handlers h).instance_id digest id b refl r
  handle_packet-IsRegistry h (tell payload) b r = go (b.handlers h).instance_id
    where
      go : (me : Option String) → IsRegistry (handle_message sha256 h me payload b).1
      go none = r
      go (some me) =
          SameRegistry-IsRegistry b _ (broadcast_to-same b.clients (message me payload) (some h) b)
            r
  handle_packet-IsRegistry h unknown b r = r
