-- ===== src/BusServer/Relay.antt =====
-- Who receives what from the bus (modules/bus_server.py).
use blankie.Prelude.{
  ℕ, String, List, [], ◌∷◌, ◌++◌, true, false, ◌≡◌, refl, sym, ap, inl, inr, Option, none, some,
  arith, Bool-cases, ◌==◌, ==_iff, if◌then◌else◌, append_assoc, append-nil, true,
}
use blankie.Exec.{return}
use blankie.Packets.{Payload, Packet, message, Request, hello, tell, unknown}
use blankie.BusServer.{
  BusServer, Handler, send, broadcast_to, broadcast, same_bytes, authenticate, handle_hello,
  handle_message, handle_packet,
}

pub same_bytes-eq : (xs ys : List ℕ) → same_bytes xs ys ≡ true → xs ≡ ys
unfolding same_bytes
same_bytes-eq [] [] h = refl
same_bytes-eq [] (y ∷ ys) h = cc
same_bytes-eq (x ∷ xs) [] h = cc
same_bytes-eq (x ∷ xs) (y ∷ ys) h = ground (arith, ==_iff x y, same_bytes-eq xs ys)

-- A `hello` that proves the knowledge of the bus key for the challenge of the client `h`.
abbrev pub Proves : (List ℕ → List ℕ) → ℕ → Request → BusServer → Type 0
Proves sha256 h (hello digest id) b =
    (key : List ℕ) × (d : List ℕ) × (b.bus_key ≡ some key)
    × (digest ≡ some d)
    × (sha256 (key ++ (b.handlers h).challenge) ≡ d)
Proves sha256 h (tell payload) b = ⊥
Proves sha256 h unknown b = ⊥

module _ (sha256 : List ℕ → List ℕ) where
  authenticate-fails :
      (h : ℕ) (key digest : Option (List ℕ)) (id : String) (b : BusServer)
      → ¬ (
          (k : List ℕ) × (d : List ℕ) × (key ≡ some k)
          × (digest ≡ some d)
          × (sha256 (k ++ (b.handlers h).challenge) ≡ d))
      → (authenticate sha256 h key digest id b).1 ≡ b
  unfolding authenticate
  authenticate-fails h none digest id b fails = refl
  authenticate-fails h (some key) none id b fails = refl
  authenticate-fails h (some key) (some d) id b fails =
      let expected = sha256 (key ++ (b.handlers h).challenge) in
      elim (Bool-cases (same_bytes expected d)) [
        | inl e ↦ absurd (fails (key, d, refl, refl, same_bytes-eq expected d e))
        | inr e ↦ rw e
      ]

  -- A client that has not identified itself has no effect on the bus, and reaches no other client,
  -- unless its packet is a `hello` with the digest of the bus key and of the challenge that the bus
  -- sent to it.
  pub handle_packet-unidentified :
      (h : ℕ) (p : Request) (b : BusServer)
      → (b.handlers h).instance_id ≡ none
      → ¬ Proves sha256 h p b
      → (handle_packet sha256 h p b).1 ≡ b
  unfolding handle_packet handle_hello handle_message
  handle_packet-unidentified h (hello digest id) b e fails =
      rw e (authenticate-fails h b.bus_key digest id b fails)
  handle_packet-unidentified h (tell payload) b e fails = rw e
  handle_packet-unidentified h unknown b e fails = refl

-- The clients other than `h`, each with the packet.
abbrev pub to_others : ℕ → Packet → List (String × ℕ) → List (ℕ × Packet)
to_others h p [] = []
to_others h p ((_, k) ∷ l) = let rest = to_others h p l in if k == h then rest else (k, p) ∷ rest

abbrev pub Reachable : List (String × ℕ) → (ℕ → Handler) → Type 0
Reachable [] f = Unit
Reachable ((_, k) ∷ l) f = ((f k).connected ≡ true) × ((f k).broken ≡ false) × Reachable l f

send-sent :
    (k : ℕ) (p : Packet) (b : BusServer)
    → (b.handlers k).connected ≡ true
    → (b.handlers k).broken ≡ false
    → send k p b ≡ (return tt, record b { sent = b.sent ++ (k, p) ∷ [] })
unfolding send
send-sent k p b c d = rw (c, d)

broadcast_to-others :
    (h : ℕ) (p : Packet) (l : List (String × ℕ)) (b : BusServer)
    → Reachable l b.handlers
    → broadcast_to l p (some h) b ≡ (return tt, record b { sent = b.sent ++ to_others h p l })
unfolding broadcast_to
broadcast_to-others h p [] b r =
    ap (λ s. (return tt, record b { sent = s })) (sym (append-nil b.sent))
broadcast_to-others h p ((_, k) ∷ l) b (c, d, r) =
    let sent1 = record b { sent = b.sent ++ (k, p) ∷ [] } in
    elim (Bool-cases (k == h)) [
      | inl e ↦ rw (e, broadcast_to-others h p l b r)
      | inr e ↦ rw (
        e,
        send-sent k p b c d,
        broadcast_to-others h p l sent1 r,
        append_assoc b.sent ((k, p) ∷ []) (to_others h p l),
      )
    ]

-- If the registered clients are reachable: the message of an identified client goes once to every
-- other registered client, in the order of the registry, and not back to it, under the id that the
-- bus knows the client by.
handle_packet-relays :
    (sha256 : List ℕ → List ℕ) (h : ℕ) (me : String) (payload : Payload) (b : BusServer)
    → (b.handlers h).instance_id ≡ some me
    → Reachable b.clients b.handlers
    → handle_packet sha256 h (tell payload) b
      ≡ (return tt, record b { sent = b.sent ++ to_others h (message me payload) b.clients })
unfolding handle_packet handle_message broadcast
handle_packet-relays sha256 h me payload b e r =
    rw (e) (broadcast_to-others h (message me payload) b.clients b r)
