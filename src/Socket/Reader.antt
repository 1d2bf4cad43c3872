-- ===== src/Socket/Reader.antt =====
-- src/rb10_socket_client.cpp: `read_data_loop`, the thread that takes the packets off the data
-- connection and hands the states to the callback. `none` means that the fuel ran out with the loop
-- still going, or a fault of the parser.
pub mod Decoder
pub mod Stages
pub mod Refines
pub mod Frames
use rmp_proximity_sensor.Common.{
  ℕ, zero, suc, ◌+◌, ◌*◌, Bool, true, false, ◌&&◌, ◌||◌, String, Option, none, some, List, [], ◌∷◌,
  ◌++◌, ltb, ◌==◌, if◌then◌else◌, ◌>>=◌,
}
use rmp_proximity_sensor.Socket.{Posix, Client, SystemState, Log, message, log, set_disconnected}
use rmp_proximity_sensor.Socket.Io.{recv_exact, recv_byte}
use rmp_proximity_sensor.Socket.Payload.{parse_state_payload}

abbrev pub start_byte : ℕ
start_byte = 0x24

abbrev pub max_packet_payload_size : ℕ
max_packet_payload_size = 4096

abbrev pub state_packet_type : ℕ
state_packet_type = 3

-- How a round of the loop ends: by `continue` or the end of the body, or by `return`.
pub data Round (S : Type 0) : Type 0 where
  again : Client S → Round S
  leave : Client S → Round S

module _ {S : Type 0} where
  -- `if (state_callback_) { state_callback_(state); }`
  deliver : SystemState → Client S → Client S
  deliver state c =
      if c.state_callback then record c { delivered = c.delivered ++ state ∷ [] } else c

  pub handle_parsed : Client S × Option SystemState → Option (Round S)
  unfolding deliver
  handle_parsed (c, none) = some (again c)
  handle_parsed (c, some state) = some (again (deliver state c))

module _ {S : Type 0} (posix : Posix S) where
  -- A read that failed: while the client runs, the line is logged and the connection given up.
  pub lost : String → Client S → Round S
  unfolding log set_disconnected
  lost line c = leave (if c.running then set_disconnected posix (log (message line) c) else c)

  pub handle_payload : ℕ → Client S × Bool × List ℕ → Option (Round S)
  unfolding lost
  handle_payload packet_type (c, false, payload) =
      some (lost "[socket] data socket closed while reading packet payload" c)
  handle_payload packet_type (c, true, payload) =
      if packet_type == state_packet_type
      then (parse_state_payload payload c >>= handle_parsed)
      else some (again c)

module _ {S : Type 0} (posix : Posix S) (others : Client S → Client S) where
  -- The size is the first two bytes of the tail, the low one first (`h0 | h1 << 8` on bytes).
  pub handle_header : ℕ → Client S × Bool × List ℕ → Option (Round S)
  unfolding lost handle_payload
  handle_header fuel (c, true, size_low ∷ size_high ∷ packet_type ∷ []) =
      let payload_size = size_low + 256 * size_high in
      if payload_size == 0 || ltb max_packet_payload_size payload_size
      then some (again c)
      else (recv_exact posix others fuel c c.data_sock payload_size []
          >>= handle_payload posix packet_type)
  handle_header fuel (c, true, _) = none
  handle_header fuel (c, false, _) =
      some (lost posix "[socket] data socket closed while reading packet header" c)

  pub handle_start : ℕ → Client S × Option ℕ → Option (Round S)
  unfolding lost handle_header
  handle_start fuel (c, none) =
      some (lost posix "[socket] data socket closed while waiting for packet start" c)
  handle_start fuel (c, some b) =
      if b == start_byte
      then (recv_exact posix others fuel c c.data_sock 3 [] >>= handle_header fuel)
      else some (again c)

  -- The body of the loop; the fuel is for each of its reads.
  pub read_packet : ℕ → Client S → Option (Round S)
  unfolding handle_start
  read_packet fuel c = recv_byte posix others fuel c c.data_sock >>= handle_start fuel

  pub read_data_loop : ℕ → ℕ → Client S → Option (Client S)
  unfolding read_packet
  read_data_loop fuel zero c = none
  read_data_loop fuel (suc rounds) c = elim (c.running && c.connected) [
    | false ↦ some c
    | true ↦ elim (read_packet fuel c) [
      | none ↦ none
      | some (leave c') ↦ some c'
      | some (again c') ↦ read_data_loop fuel rounds c'
    ]
  ]
