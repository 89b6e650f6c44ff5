-- ===== src/Udp.antt =====
-- Datagrams as the discovery protocol reads them: the message bytes of
-- protocol_constants/protocol_constants.go, and the buffer of 1024 bytes that a loop reads into again and
-- again. `ReadFromUDP` writes the datagram's bytes over the front of the buffer and drops what has no
-- room, without an error.
pub mod Buffer
use simple_blockchain_client.Text.{Bytes}
use simple_blockchain_client.Prelude.{
  ◌++◌, drop, take, length, Option, ◌∷◌, [], zero, suc, ℕ, none, some, true, false,
}

abbrev pub node_discovery_ping : ℕ
node_discovery_ping = 0x01

abbrev pub node_discovery_pong : ℕ
node_discovery_pong = 0x02

abbrev pub node_discovery_find_node : ℕ
node_discovery_find_node = 0x03

abbrev pub node_discovery_neighbors : ℕ
node_discovery_neighbors = 0x04

abbrev pub node_discovery_enr_request : ℕ
node_discovery_enr_request = 0x05

abbrev pub node_discovery_enr_response : ℕ
node_discovery_enr_response = 0x06

abbrev pub comma : ℕ
comma = 44

abbrev pub zeros : ℕ → Bytes
zeros zero = []
zeros (suc n) = 0 ∷ zeros n

-- `make([]byte, 1024)`
unfoldable pub new_buffer : Bytes
new_buffer = zeros 1024

-- The buffer after `ReadFromUDP`, and the number of bytes that it returns.
unfoldable pub receive : Bytes → Bytes → Bytes
receive datagram buffer = take (length buffer) datagram ++ drop (length datagram) buffer

unfoldable pub received : Bytes → Bytes → ℕ
received datagram buffer = length (take (length buffer) datagram)

-- `buffer[0]`; a buffer of the program is never empty.
unfoldable pub first_byte : Bytes → ℕ
first_byte [] = 0
first_byte (c ∷ buffer) = c

-- `buffer[1:n]`, which panics when `n` is 0.
unfoldable pub from_second : ℕ → Bytes → Option Bytes
from_second zero buffer = none
from_second (suc n) buffer = some (take n (drop 1 buffer))
