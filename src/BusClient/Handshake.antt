-- ===== src/BusClient/Handshake.antt =====
-- The challenge of the bus (modules/bus_server.py) and the answer of a client
-- (modules/bus_client.py).
use mathlib.Core.List.{append_cancel_right}
use blankie.Prelude.{
  ℕ, String, List, [], ◌∷◌, ◌++◌, true, false, ◌≡◌, ◌≢◌, refl, sym, ◌∙◌, ap, inl, inr, none, some,
  ◌⊎◌, arith, Bool-cases, ==_iff,
}
use blankie.Exec.{exception, return, raise, Exec}
use blankie.Spec.{Spec}
use blankie.Packets.{Packet, challenge, hello}
use blankie.Session.{Daemon}
use blankie.BusServer.{
  BusServer, same_bytes, enter, authenticate, handle_hello, handle_packet as receive,
}
use blankie.BusServer.Relay.{same_bytes-eq}
use blankie.BusClient.{BusClient, opened, send, answer_challenge, handle_packet}

same_bytes_refl : (xs : List ℕ) → same_bytes xs xs ≡ true
unfolding same_bytes
same_bytes_refl [] = refl
same_bytes_refl (x ∷ xs) = ground (arith, ==_iff x x, same_bytes_refl xs)

module _ (sha256 : List ℕ → List ℕ) (bus_packet : Spec → Packet → Exec Daemon (Unit {0})) where
  answer-accepted :
      (h : ℕ) (key mine : List ℕ) (id : String) (b : BusServer)
      → (b.handlers h).instance_id ≡ none
      → b.bus_key ≡ some key
      → (sha256 (key ++ (b.handlers h).challenge) ≡ sha256 (mine ++ (b.handlers h).challenge)
          → key ++ (b.handlers h).challenge ≡ mine ++ (b.handlers h).challenge)
      → let p = hello (some (sha256 (mine ++ (b.handlers h).challenge))) id in
        (mine ≡ key) × (receive sha256 h p b ≡ enter h id b)
        ⊎ (mine ≢ key) × (receive sha256 h p b ≡ (raise (exception "Exception"), b))
  unfolding receive handle_hello authenticate
  answer-accepted h key mine id b fresh has no_collision =
      let c = (b.handlers h).challenge in
      let expected = sha256 (key ++ c) in
      let digest = sha256 (mine ++ c) in
      elim (Bool-cases (same_bytes expected digest)) [
        | inl e ↦ inl (
          sym (append_cancel_right key mine c (no_collision (same_bytes-eq expected digest e))),
          rw fresh (rw has (rw e refl)),
        )
        | inr e ↦ inr (
          λ same. true≢false (
              sym (ap (λ k. same_bytes expected (sha256 (k ++ c))) same ∙ same_bytes_refl expected)
              ∙ e),
          rw fresh (rw has (rw e refl)),
        )
      ]
    where
      true≢false : true ≢ false
      true≢false q = cc

  -- A client that is connected, and that has `mine` as its bus key, sends one packet in answer to
  -- the challenge that the bus sent it. If the bus has the same key then the packet makes the client
  -- enter the bus; else it raises and the bus stays as it was. (Both are if the hash does not
  -- collide on the two keys with that challenge.)
  pub handshake :
      (h fuel : ℕ) (key mine : List ℕ) (x : BusClient) (b : BusServer)
      → (b.handlers h).instance_id ≡ none
      → b.bus_key ≡ some key
      → x.daemon.world.bus_key ≡ some mine
      → x.socket ≡ opened false
      → (sha256 (key ++ (b.handlers h).challenge) ≡ sha256 (mine ++ (b.handlers h).challenge)
          → key ++ (b.handlers h).challenge ≡ mine ++ (b.handlers h).challenge)
      → let p = hello (some (sha256 (mine ++ (b.handlers h).challenge))) x.instance_id in
        (handle_packet sha256 bus_packet fuel (challenge (b.handlers h).challenge) x
          ≡ (return tt, record x { sent = x.sent ++ p ∷ [] }))
        × ((mine ≡ key) × (receive sha256 h p b ≡ enter h x.instance_id b)
            ⊎ (mine ≢ key) × (receive sha256 h p b ≡ (raise (exception "Exception"), b)))
  unfolding handle_packet answer_challenge send
  handshake h fuel key mine x b fresh has has' connected no_collision = (
    rw has' (rw connected refl),
    answer-accepted h key mine x.instance_id b fresh has no_collision,
  )
