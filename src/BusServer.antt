-- ===== src/BusServer.antt =====
-- modules/bus_server.py: the bus, which identifies its clients and passes their messages on.
pub mod Same
mod Leaving
pub mod Registered
pub mod Relay
pub mod Threads
use blankie.Prelude.{
  ℕ, String, List, [], ◌∷◌, ◌++◌, Bool, true, false, not, Option, none, some, if◌then◌else◌, ◌==◌,
  map,
}
use blankie.Exec.{Exec, exception, return, pure, throw, gets, modify, ◌>>=◌, ◌>>◌}
use blankie.Spec.{str_eq}
use blankie.Packets.{Payload, Packet, welcome, join, leave, message, Request, hello, tell, unknown}

-- A `ClientHandler`: `connected` while its `socket` is not None, `broken` if using it raises.
pub record Handler : Type 0 where
  pub instance_id : Option String
  pub challenge : List ℕ
  pub connected : Bool
  pub broken : Bool

-- The handler objects, by a number for each; the dict `clients`; the configured key; and what was
-- sent, with the handler that sent it to its client.
pub record BusServer : Type 0 where
  pub handlers : ℕ → Handler
  pub clients : List (String × ℕ)
  pub bus_key : Option (List ℕ)
  pub sent : List (ℕ × Packet)

abbrev pub set_handler : ℕ → Handler → BusServer → BusServer
set_handler h x b = record b { handlers = λ k. if k == h then x else b.handlers k }

abbrev pub identify : ℕ → Option String → BusServer → BusServer
identify h id b = set_handler h (record (b.handlers h) { instance_id = id }) b

unfoldable pub client_of : List (String × ℕ) → String → Option ℕ
client_of [] id = none
client_of ((j, k) ∷ l) id = if str_eq j id then some k else client_of l id

-- `self.clients[id] = client` and `del self.clients[id]` (a dict has a key once).
unfoldable pub put_client : String → ℕ → List (String × ℕ) → List (String × ℕ)
put_client id h [] = (id, h) ∷ []
put_client id h ((j, k) ∷ l) = if str_eq j id then (j, h) ∷ l else (j, k) ∷ put_client id h l

unfoldable pub drop_client : String → List (String × ℕ) → List (String × ℕ)
drop_client id [] = []
drop_client id ((j, k) ∷ l) =
    let rest = drop_client id l in if str_eq j id then rest else (j, k) ∷ rest

unfoldable pub send : ℕ → Packet → Exec BusServer (Unit {0})
send h p b =
    let x = b.handlers h in
    if not x.connected
    then throw (exception "AttributeError") b
    else if x.broken
    then throw (exception "OSError") b
    else (return tt, record b { sent = b.sent ++ (h, p) ∷ [] })

-- `broadcast`, the loop over `clients.values()`.
unfoldable pub broadcast_to : List (String × ℕ) → Packet → Option ℕ → Exec BusServer (Unit {0})
unfolding send
broadcast_to [] p exclude = pure tt
broadcast_to ((_, k) ∷ l) p none = send k p >> broadcast_to l p none
broadcast_to ((_, k) ∷ l) p (some h) =
    let rest = broadcast_to l p (some h) in λ b. (if k == h then rest else send k p >> rest) b

unfoldable pub broadcast : Packet → Option ℕ → Exec BusServer (Unit {0})
unfolding broadcast_to
broadcast p exclude b = broadcast_to b.clients p exclude b

unfoldable pub register : ℕ → String → BusServer → BusServer
unfolding put_client
register h id b = record b { clients = put_client id h b.clients }

-- `del self.clients[id]` raises for a missing key.
abbrev pub remove_client : Option ℕ → String → Exec BusServer (Unit {0})
remove_client none id = throw (exception "KeyError")
remove_client (some k) id = modify (λ b. record b { clients = drop_client id b.clients })

unfoldable pub unregister : String → Exec BusServer (Unit {0})
unfolding drop_client client_of
unregister id b = remove_client (client_of b.clients id) id b

-- `ClientHandler.stop`: leaving the bus, then closing the socket.
unfoldable pub leave_bus : ℕ → Option String → Exec BusServer (Unit {0})
unfolding unregister broadcast
leave_bus h none = pure tt
leave_bus h (some id) = do unregister id; broadcast (leave id) none; modify (identify h none)

unfoldable pub close_socket : ℕ → Exec BusServer (Unit {0})
close_socket h b =
    let x = b.handlers h in
    if not x.connected
    then (return tt, b)
    else if x.broken
    then throw (exception "OSError") b
    else (return tt, set_handler h (record x { connected = false }) b)

unfoldable pub stop_client : ℕ → Exec BusServer (Unit {0})
unfolding leave_bus close_socket
stop_client h b = (leave_bus h (b.handlers h).instance_id >> close_socket h) b

-- `secrets.compare_digest`
unfoldable pub same_bytes : List ℕ → List ℕ → Bool
same_bytes [] [] = true
same_bytes [] (y ∷ ys) = false
same_bytes (x ∷ xs) [] = false
same_bytes (x ∷ xs) (y ∷ ys) = if x == y then same_bytes xs ys else false

unfoldable pub stop_duplicate : Option ℕ → Exec BusServer (Unit {0})
unfolding stop_client
stop_duplicate none = pure tt
stop_duplicate (some k) = stop_client k

-- `hello` from its successful authentication on.
unfoldable pub enter : ℕ → String → Exec BusServer (Unit {0})
unfolding stop_duplicate register broadcast client_of
enter h id = do
  modify (identify h (some id))
  duplicate ← gets (λ b. client_of b.clients id)
  stop_duplicate duplicate
  modify (register h id)
  broadcast (join id) (some h)
  ids ← gets (λ b. map (λ c. c.0) b.clients)
  send h (welcome ids)

-- `sha256` is that of hashlib.
module _ (sha256 : List ℕ → List ℕ) where
  unfoldable pub authenticate :
      ℕ → Option (List ℕ) → Option (List ℕ) → String → Exec BusServer (Unit {0})
  unfolding enter same_bytes
  authenticate h none digest id = throw (exception "AssertionError")
  authenticate h (some key) none id = throw (exception "ValueError")
  authenticate h (some key) (some digest) id = λ b.
      (if same_bytes (sha256 (key ++ (b.handlers h).challenge)) digest
          then enter h id
          else throw (exception "Exception"))
        b

  unfoldable pub handle_hello :
      ℕ → Option String → Option (List ℕ) → String → Exec BusServer (Unit {0})
  unfolding authenticate
  handle_hello h (some me) digest id = throw (exception "Exception")
  handle_hello h none digest id = λ b. authenticate h b.bus_key digest id b

  unfoldable pub handle_message : ℕ → Option String → Payload → Exec BusServer (Unit {0})
  unfolding broadcast
  handle_message h none payload = throw (exception "Exception")
  handle_message h (some me) payload = broadcast (message me payload) (some h)

  -- `handle_packet`
  unfoldable pub handle_packet : ℕ → Request → Exec BusServer (Unit {0})
  unfolding handle_hello handle_message
  handle_packet h (hello digest id) = λ b. handle_hello h (b.handlers h).instance_id digest id b
  handle_packet h (tell payload) = λ b. handle_message h (b.handlers h).instance_id payload b
  handle_packet h unknown = pure tt

-- The loop of `BusServerModule.stop` over the clients.
unfoldable pub stop_clients : List (String × ℕ) → Exec BusServer (Unit {0})
unfolding stop_client
stop_clients [] = pure tt
stop_clients ((_, k) ∷ l) = stop_client k >> stop_clients l

unfoldable pub stop_bus : Exec BusServer (Unit {0})
unfolding stop_clients
stop_bus b = (stop_clients b.clients >> modify (λ c. record c { clients = [] })) b
