-- ===== src/BusServer/Threads/Tasks.antt =====
-- What the tasks of the bus's threads (modules/bus_server.py) do, in whatever order they come.
use blankie.Prelude.{ℕ, List, none, ◌≡◌}
use blankie.BusServer.{BusServer}
use blankie.BusServer.Same.{IsRegistry}
use blankie.BusServer.Leaving.{stop_client-IsRegistry, Identified-fresh}
use blankie.BusServer.Registered.{handle_packet-IsRegistry}
use blankie.BusServer.Threads.{Task, handle_socket, handle_line, stop_handler, perform}

-- A socket is handled by a new object.
abbrev pub IsFresh : Task → BusServer → Type 0
IsFresh (handle_socket h token) b = (b.handlers h).instance_id ≡ none
IsFresh (handle_line h p) b = Unit {0}
IsFresh (stop_handler h) b = Unit {0}

module _ (sha256 : List ℕ → List ℕ) where
  -- The main thread performs tasks in any order, and goes on after one that raises.
  pub data Runs (b : BusServer) : BusServer → Type 0 where
    here : Runs b b
    then_task : {c : BusServer} (t : Task) → Runs b c → IsFresh t c → Runs b (perform sha256 t c).1

  perform-IsRegistry :
      (t : Task) (b : BusServer) → IsFresh t b → IsRegistry b → IsRegistry (perform sha256 t b).1
  unfolding perform
  perform-IsRegistry (handle_socket h token) b fresh r =
      Identified-fresh b.clients b.handlers h _ fresh r
  perform-IsRegistry (handle_line h p) b fresh r = handle_packet-IsRegistry sha256 h p b r
  perform-IsRegistry (stop_handler h) b fresh r = stop_client-IsRegistry h b r

  -- Whatever connections, packets and disconnections the bus handles, in whatever order, and
  -- whatever raises: each client in its registry is registered under the id that it has.
  pub Runs-IsRegistry : (b c : BusServer) → IsRegistry b → Runs b c → IsRegistry c
  Runs-IsRegistry b c r here = r
  Runs-IsRegistry b c r (then_task {c = d} t path fresh) =
      perform-IsRegistry t d fresh (Runs-IsRegistry b d r path)
