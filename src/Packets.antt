-- ===== src/Packets.antt =====
-- The packets of the network bus, as modules/bus_server.py, modules/bus_client.py and the remote
-- modules build and read them.
use blankie.Prelude.{ℕ, String, List, Option}
use blankie.World.{Reading}

-- What one instance tells the others (`packet['message']`).
pub data Payload : Type 0 where
  idle_since : Reading → Payload
  lock : Payload
  unlock : Payload
  other : Payload

-- From the bus to an instance. `disconnect` is the client's own, for a lost connection.
pub data Packet : Type 0 where
  challenge : List ℕ → Packet
  welcome : List String → Packet
  join : String → Packet
  leave : String → Packet
  message : String → Payload → Packet
  disconnect : Packet

-- From an instance to the bus; the digest is `none` if it is not in hexadecimal.
pub data Request : Type 0 where
  hello : (digest : Option (List ℕ)) → (id : String) → Request
  tell : Payload → Request
  unknown : Request
