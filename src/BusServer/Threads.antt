-- ===== src/BusServer/Threads.antt =====
-- The threads of the bus (modules/bus_server.py), the tasks that they call, and the server's `start`
-- and `stop`.
pub mod Tasks
use blankie.Prelude.{
  ℕ, suc, List, [], ◌∷◌, ◌++◌, Bool, true, false, Option, none, some, if◌then◌else◌, map,
}
use blankie.Exec.{
  Exec, Outcome, return, raise, out_of_fuel, exception, pure, throw, modify, ◌>>=◌, ◌>>◌,
}
use blankie.Packets.{challenge, Request}
use blankie.BusServer.{BusServer, Handler, set_handler, send, handle_packet, stop_client, stop_bus}

-- What the threads have the main thread do. Handlers have numbers.
pub data Task : Type 0 where
  handle_socket : (h : ℕ) → (token : List ℕ) → Task
  handle_line : (h : ℕ) → Request → Task
  stop_handler : (h : ℕ) → Task

-- The constructor of `ClientHandler`, with the bytes of `secrets.token_bytes`; its thread starts.
abbrev new_handler : List ℕ → Handler
new_handler token = record {
  instance_id = none;
  challenge = token;
  connected = true;
  broken = false;
}

-- The lines up to the connection's end; a line that is not a packet raises.
abbrev pub read_requests : List (Option Request) → List Request
read_requests [] = []
read_requests (none ∷ ls) = []
read_requests (some p ∷ ls) = p ∷ read_requests ls

-- The tasks that `recv_loop` calls, if the challenge could be sent and if not.
abbrev pub calls_of : ℕ → Outcome (Unit {0}) → List (Option Request) → List Task
calls_of h (return _) lines = map (handle_line h) (read_requests lines) ++ stop_handler h ∷ []
calls_of h (raise e) lines = stop_handler h ∷ []
calls_of h out_of_fuel lines = []

-- `recv_loop` of the handler `h`, over the lines that its client sends.
unfoldable pub recv_loop : ℕ → List (Option Request) → BusServer → List Task × BusServer
unfolding send
recv_loop h lines b =
    let (r, c) = send h (challenge (b.handlers h).challenge) b in (calls_of h r lines, c)

module _ (sha256 : List ℕ → List ℕ) where
  unfoldable pub perform : Task → Exec BusServer (Unit {0})
  unfolding handle_packet stop_client
  perform (handle_socket h token) = modify (set_handler h (new_handler token))
  perform (handle_line h p) = handle_packet sha256 h p
  perform (stop_handler h) = stop_client h

-- The `BusServerModule` itself: `server_socket`, which listens or not, and the clients' side.
pub record Server : Type 0 where
  pub server_socket : Option Bool
  pub accept_thread : Bool
  pub bus : BusServer

-- `start`; `free` is whether the address can be bound.
unfoldable pub start : (free : Bool) → Exec Server (Unit {0})
start free = do
  modify (λ s. record s { server_socket = some false })
  if free
      then modify (λ s. record s { server_socket = some true; accept_thread = true })
      else throw (exception "OSError")

-- A socket that does not listen cannot be shut down.
abbrev close_server : Option Bool → Exec Server (Unit {0})
close_server none = pure tt
close_server (some false) = throw (exception "OSError")
close_server (some true) = modify (λ s. record s { server_socket = none })

abbrev on_bus : Exec BusServer (Unit {0}) → Exec Server (Unit {0})
on_bus act s = let (r, b) = act s.bus in (r, record s { bus = b })

unfoldable pub stop : Exec Server (Unit {0})
unfolding stop_bus
stop = do
  λ s. close_server s.server_socket s
  modify (λ s. record s { accept_thread = false })
  on_bus stop_bus

-- `accept_loop`, over what `accept` gives until it raises.
unfoldable pub accept_loop : List (ℕ × List ℕ) → List Task
accept_loop [] = []
accept_loop ((h, token) ∷ sockets) = handle_socket h token ∷ accept_loop sockets
