-- ===== src/Discovery.antt =====
-- The discovery protocol from a full node's side: `ConnectBootstrapNode` and `ConnectBootstrapNodeTcp` of
-- p2p/bootstrap_connection.go, `StartUDPServer` of p2p/server.go, and the handshakes of `StartClient` of
-- p2p/client.go. What the network does is an argument.
pub mod Lossless
pub mod Safe
pub mod Bootstrap
pub mod Learn
pub mod Enr
use simple_blockchain_client.Text.Parts.{trim_space, split}
use simple_blockchain_client.Udp.{
  received, node_discovery_enr_request, from_second, node_discovery_pong, node_discovery_neighbors,
  node_discovery_enr_response, new_buffer, comma, receive, first_byte, node_discovery_ping,
  node_discovery_find_node,
}
use simple_blockchain_client.Text.{Bytes}
use simple_blockchain_client.Prelude.{
  nat_eq, ◌==◌, if◌then◌else◌, Option, List, Bool, ◌∷◌, [], zero, suc, ℕ, none, some, true, false,
}

-- What a socket does: whether the address resolves and the dial succeeds, whether a write succeeds, in
-- their order, and what the reads give, in their order; `none` is an error or the deadline.
pub record Socket : Type 0 where
  pub resolves : Bool
  pub dials : Bool
  pub first_write : Bool
  pub second_write : Bool
  pub first_read : Option Bytes
  pub second_read : Option Bytes

-- The ends of `ConnectBootstrapNode`: the list of nodes, or an error, by its message.
pub data Bootstrapped : Type 0 where
  nodes : List Bytes → Bootstrapped
  not_resolved not_dialed ping_not_sent no_pong : Bootstrapped
  find_node_not_sent no_neighbors : Bootstrapped
  not_neighbors not_pong slice_panic : Bootstrapped

-- The end of the call, and the datagrams that it wrote.
pub record Call (A : Type 0) : Type 0 where
  pub result : A
  pub sent : List Bytes

abbrev pub ping_message : Bytes
ping_message = node_discovery_ping ∷ []

abbrev pub find_node_message : Bytes → Bytes
find_node_message udp_server_address = node_discovery_find_node ∷ udp_server_address

-- What stands behind the read of the Neighbors message.
unfoldable pub read_neighbors : ℕ → Bytes → Bootstrapped
read_neighbors n buffer =
    if first_byte buffer == node_discovery_neighbors
    then elim (from_second n buffer) [
      | none ↦ slice_panic
      | some message ↦ nodes (split comma (trim_space message))
    ]
    else not_neighbors

-- What stands behind the read of the Pong message, which `buffer` holds.
unfoldable pub find_node : Socket → Bytes → Bytes → Call Bootstrapped
find_node socket udp_server_address buffer =
    let find = find_node_message udp_server_address in
    let sent = ping_message ∷ find ∷ [] in
    if first_byte buffer == node_discovery_pong
    then if socket.second_write
      then elim socket.second_read [
        | none ↦ record { result = no_neighbors; sent = sent }
        | some datagram ↦ record {
          result = read_neighbors (received datagram buffer) (receive datagram buffer);
          sent = sent;
        }
      ]
      else record { result = find_node_not_sent; sent = ping_message ∷ [] }
    else record { result = not_pong; sent = ping_message ∷ [] }

-- `ConnectBootstrapNode(bootstrapAddress, udpServerAddress)`
unfoldable pub connect_bootstrap_node : Socket → Bytes → Call Bootstrapped
connect_bootstrap_node socket udp_server_address =
    if socket.resolves
    then if socket.dials
      then if socket.first_write
        then elim socket.first_read [
          | none ↦ record { result = no_pong; sent = ping_message ∷ [] }
          | some datagram ↦ find_node socket udp_server_address (receive datagram new_buffer)
        ]
        else record { result = ping_not_sent; sent = [] }
      else record { result = not_dialed; sent = [] }
    else record { result = not_resolved; sent = [] }

-- `ConnectBootstrapNodeTcp(bootstrapAddress, serverAddress)`: what it writes, which has no line feed, and
-- the list of the line that it reads; `none` is an error of the read. An error of the write is only
-- reported.
unfoldable pub connect_bootstrap_node_tcp : Bool → Bytes → Option Bytes → List Bytes × Bytes
connect_bootstrap_node_tcp false server_address message = ([], [])
connect_bootstrap_node_tcp true server_address message =
    let sent = 0x01 ∷ server_address in
    elim message [ none ↦ ([], sent) | some l ↦ (split comma (trim_space l), sent) ]

-- A round of `StartUDPServer`: the buffer it leaves, and the replies it writes. The server does not use
-- the number of bytes read.
unfoldable pub serve_udp : Bytes → Option Bytes → Bytes → List Bytes × Bytes
serve_udp tcp_listening_addr none buf = ([], buf)
serve_udp tcp_listening_addr (some datagram) buf =
    let next = receive datagram buf in
    let first = first_byte next in
    if first == node_discovery_ping
    then ((node_discovery_pong ∷ []) ∷ [], next)
    else if first == node_discovery_enr_request
    then ((node_discovery_enr_response ∷ tcp_listening_addr) ∷ [], next)
    else ([], next)

-- What the handshake with one node gives: a TCP address to dial, nothing, or a panic.
pub data Handshake : Type 0 where
  tcp_server : Bytes → Handshake
  no_server : Handshake
  handshake_panic : Handshake

unfoldable pub read_enr_response : ℕ → Bytes → Handshake
read_enr_response n buffer =
    if first_byte buffer == node_discovery_enr_response
    then elim (from_second n buffer) [ none ↦ handshake_panic | some tcp ↦ tcp_server tcp ]
    else no_server

-- What stands behind the read of the Pong message, which `buffer` holds.
unfoldable pub request_enr : Socket → Bytes → Handshake
request_enr socket buffer =
    if first_byte buffer == node_discovery_pong
    then if socket.second_write
      then elim socket.second_read [
        | none ↦ no_server
        | some datagram ↦ read_enr_response (received datagram buffer) (receive datagram buffer)
      ]
      else no_server
    else no_server

-- The body of the loop of `StartClient` on one address, up to the dial.
unfoldable pub handshake : Socket → Bytes → Handshake
handshake socket [] = no_server
handshake socket (c ∷ address) =
    if socket.resolves
    then if socket.dials
      then if socket.first_write
        then elim socket.first_read [
          | none ↦ no_server
          | some datagram ↦ request_enr socket (receive datagram new_buffer)
        ]
        else no_server
      else no_server
    else no_server
