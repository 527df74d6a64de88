-- ===== src/BusClient.antt =====
-- modules/bus_client.py: the connection of an instance to the network bus.
pub mod Handshake
use blankie.Prelude.{
  ℕ, String, List, [], ◌∷◌, ◌++◌, Bool, true, false, Option, none, some, if◌then◌else◌,
}
use blankie.Exec.{Exec, exception, return, pure, throw, modify, ◌>>=◌, ◌>>◌}
use blankie.Spec.{Spec}
use blankie.Session.{Daemon}
use blankie.Packets.{Payload, Packet, challenge, disconnect, Request, hello, tell}
use blankie.Remote.{deliver}

-- `self.socket`: None, or a socket on which calls raise if it is broken.
pub data Socket : Type 0 where
  unset : Socket
  opened : (broken : Bool) → Socket

-- The attributes of a `BusClientModule`, what it sent, and the packets for which its thread called
-- `handle_packet` on the main thread.
pub record BusClient : Type 0 where
  pub instance_id : String
  pub running : Bool
  pub socket : Socket
  pub has_thread : Bool
  pub sent : List Request
  pub calls : List Packet
  pub daemon : Daemon

-- `send`, which catches every exception.
abbrev send_on : Socket → Request → Exec BusClient Bool
send_on unset p = pure false
send_on (opened true) p = pure false
send_on (opened false) p = λ x. (return true, record x { sent = x.sent ++ p ∷ [] })

unfoldable pub send : Request → Exec BusClient Bool
send p x = send_on x.socket p x

unfoldable pub send_message : Payload → Exec BusClient (Unit {0})
unfolding send
send_message m = send (tell m) >>= λ _. pure tt

-- `sha256` is that of hashlib, and `bus_packet` the method of a module's instance; the fuel bounds
-- the walk over the running modules.
module _ (sha256 : List ℕ → List ℕ) (bus_packet : Spec → Packet → Exec Daemon (Unit {0})) where
  -- The first case of `handle_packet`.
  unfoldable pub answer_challenge : Option (List ℕ) → List ℕ → Exec BusClient (Unit {0})
  unfolding send
  answer_challenge none c = throw (exception "AssertionError")
  answer_challenge (some key) c =
      λ x. (send (hello (some (sha256 (key ++ c))) x.instance_id) >>= λ _. pure tt) x

  abbrev pub on_daemon : Exec Daemon (Unit {0}) → Exec BusClient (Unit {0})
  on_daemon act x = let (r, m) = act x.daemon in (r, record x { daemon = m })

  unfoldable pub handle_packet : (fuel : ℕ) → Packet → Exec BusClient (Unit {0})
  unfolding answer_challenge
  handle_packet fuel (challenge c) = λ x. answer_challenge x.daemon.world.bus_key c x
  handle_packet fuel p = on_daemon (deliver bus_packet fuel 0 p)

  unfoldable pub handle_disconnect : (fuel : ℕ) → Exec BusClient (Unit {0})
  unfolding handle_packet
  handle_disconnect fuel = handle_packet fuel disconnect

unfoldable pub start : BusClient → BusClient
start x = record x { running = true; has_thread = true }

abbrev close_socket : Socket → Exec BusClient (Unit {0})
close_socket unset = pure tt
close_socket (opened true) = throw (exception "OSError")
close_socket (opened false) = modify (λ x. record x { socket = unset })

-- `stop`; `join` waits for the thread, which ends when it sees that it should not run.
unfoldable pub stop : Exec BusClient (Unit {0})
stop = do
  modify (λ x. record x { running = false })
  λ x. close_socket x.socket x
  modify (λ x. record x { has_thread = false })

-- What happens to one attempt to connect: it is refused, or the bus sends lines until the connection
-- ends. A line that is not a packet is `none`.
pub data Attempt : Type 0 where
  refused : Attempt
  connected : List (Option Packet) → Attempt

-- The loop over the lines: a line that is not JSON raises.
abbrev pub read_lines : List (Option Packet) → List Packet
read_lines [] = []
read_lines (none ∷ ls) = []
read_lines (some p ∷ ls) = p ∷ read_lines ls

-- One turn of the loop of `thread_func`. After a refused attempt the new socket stays.
unfoldable pub connect_once : Attempt → BusClient → BusClient
connect_once refused x = record x { socket = opened true }
connect_once (connected ls) x = record x {
  socket = unset;
  calls = x.calls ++ read_lines ls ++ disconnect ∷ [];
}

-- `thread_func` over the attempts to come, each with what the main thread does before it.
unfoldable pub thread_func : List ((BusClient → BusClient) × Attempt) → BusClient → BusClient
unfolding connect_once
thread_func [] x = x
thread_func ((meanwhile, a) ∷ rest) x =
    let y = meanwhile x in
    let more = thread_func rest (connect_once a y) in if y.running then more else y
