-- ===== src/Discovery/Safe.antt =====
-- The slices `buffer[1:n]` of the client, where an empty datagram has `n` equal to 0.
use simple_blockchain_client.Udp.Buffer.{from_second-receive, first_byte-receive, receive-nil}
use simple_blockchain_client.Udp.{
  node_discovery_enr_response, new_buffer, node_discovery_neighbors, receive, received,
  node_discovery_pong, first_byte,
}
use simple_blockchain_client.Text.{Bytes}
use simple_blockchain_client.Discovery.{
  node_discovery_enr_response, handshake_panic, request_enr, read_enr_response, handshake,
  new_buffer, Socket, find_node, connect_bootstrap_node, node_discovery_neighbors, slice_panic,
  receive, received, node_discovery_pong, first_byte, Bytes, read_neighbors,
}
use simple_blockchain_client.Prelude.{
  ==_iff, inl, inr, Option-cases, nat_eq, ◌==◌, Bool-cases, arith, ◌≢◌, ◌≡◌, ◌∷◌, [],
}

read_neighbors-safe :
    (datagram buffer : Bytes)
    → first_byte buffer ≡ node_discovery_pong
    → read_neighbors (received datagram buffer) (receive datagram buffer) ≢ slice_panic
unfolding read_neighbors
read_neighbors-safe [] buffer h = rw (receive-nil buffer, h) (λ e. cc)
read_neighbors-safe (c ∷ datagram) [] h = unfold first_byte in cc
read_neighbors-safe (c ∷ datagram) (b ∷ buffer) h =
    rw (first_byte-receive c b datagram buffer, from_second-receive c b datagram buffer)
      (ground (arith, Bool-cases (c == node_discovery_neighbors)))

find_node-safe :
    (socket : Socket) (address buffer : Bytes)
    → (find_node socket address buffer).result ≢ slice_panic
unfolding find_node
find_node-safe socket address buffer =
    elim (Bool-cases (first_byte buffer == node_discovery_pong)) [
      | inr other ↦ rw other (λ e. cc)
      | inl pong ↦ rw pong (elim (Bool-cases socket.second_write) [
        | inr error ↦ rw error (λ e. cc)
        | inl sent ↦ rw sent (elim (Option-cases socket.second_read) [
          | inl error ↦ rw error (λ e. cc)
          | inr (datagram, e) ↦ rw e (
              read_neighbors-safe datagram buffer
                ((==_iff (first_byte buffer) node_discovery_pong).0 pong))
        ])
      ])
    ]

connect_bootstrap_node-safe :
    (socket : Socket) (udp_server_address : Bytes)
    → (connect_bootstrap_node socket udp_server_address).result ≢ slice_panic
unfolding connect_bootstrap_node
connect_bootstrap_node-safe socket address = elim (Option-cases socket.first_read) [
  | inl error ↦ ground (
    arith,
    error,
    Bool-cases socket.resolves,
    Bool-cases socket.dials,
    Bool-cases socket.first_write,
  )
  | inr (datagram, e) ↦ ground (
    arith,
    e,
    find_node-safe socket address (receive datagram new_buffer),
    Bool-cases socket.resolves,
    Bool-cases socket.dials,
    Bool-cases socket.first_write,
  )
]

read_enr_response-safe :
    (datagram buffer : Bytes)
    → first_byte buffer ≡ node_discovery_pong
    → read_enr_response (received datagram buffer) (receive datagram buffer) ≢ handshake_panic
unfolding read_enr_response
read_enr_response-safe [] buffer h = rw (receive-nil buffer, h) (λ e. cc)
read_enr_response-safe (c ∷ datagram) [] h = unfold first_byte in cc
read_enr_response-safe (c ∷ datagram) (b ∷ buffer) h =
    rw (first_byte-receive c b datagram buffer, from_second-receive c b datagram buffer)
      (ground (arith, Bool-cases (c == node_discovery_enr_response)))

request_enr-safe : (socket : Socket) (buffer : Bytes) → request_enr socket buffer ≢ handshake_panic
unfolding request_enr
request_enr-safe socket buffer = elim (Option-cases socket.second_read) [
  | inl error ↦ ground (
    arith,
    error,
    Bool-cases (first_byte buffer == node_discovery_pong),
    Bool-cases socket.second_write,
  )
  | inr (datagram, e) ↦ ground (
    arith,
    e,
    read_enr_response-safe datagram buffer,
    ==_iff (first_byte buffer) node_discovery_pong,
    Bool-cases (first_byte buffer == node_discovery_pong),
    Bool-cases socket.second_write,
  )
]

handshake-safe : (socket : Socket) (address : Bytes) → handshake socket address ≢ handshake_panic
unfolding handshake
handshake-safe socket [] = λ e. cc
handshake-safe socket (c ∷ address) = elim (Option-cases socket.first_read) [
  | inl error ↦ ground (
    arith,
    error,
    Bool-cases socket.resolves,
    Bool-cases socket.dials,
    Bool-cases socket.first_write,
  )
  | inr (datagram, e) ↦ ground (
    arith,
    e,
    request_enr-safe socket (receive datagram new_buffer),
    Bool-cases socket.resolves,
    Bool-cases socket.dials,
    Bool-cases socket.first_write,
  )
]

-- Whatever the network does, neither `ConnectBootstrapNode` nor a handshake of `StartClient` reaches its
-- slice `buffer[1:n]` with `n` equal to 0, which would panic.
pub discovery_slices_safe :
    (socket : Socket) (udp_server_address address : Bytes)
    → ((connect_bootstrap_node socket udp_server_address).result ≢ slice_panic)
      × (handshake socket address ≢ handshake_panic)
discovery_slices_safe socket udp_server_address address =
    (connect_bootstrap_node-safe socket udp_server_address, handshake-safe socket address)
