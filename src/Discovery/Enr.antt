-- ===== src/Discovery/Enr.antt =====
-- The handshake of `StartClient` with a node that runs `StartUDPServer`.
use simple_blockchain_client.Udp.Buffer.{
  length-new_buffer, from_second-receive, first_byte-receive, buffer-cons, receive-nil,
  receive-cons,
}
use simple_blockchain_client.Udp.{
  new_buffer, node_discovery_ping, receive, node_discovery_pong, received,
  node_discovery_enr_request, node_discovery_enr_response, first_byte,
}
use simple_blockchain_client.Discovery.Lossless.{lossless}
use simple_blockchain_client.Text.{Bytes}
use simple_blockchain_client.Discovery.{
  Socket, new_buffer, tcp_server, node_discovery_ping, receive, node_discovery_pong, request_enr,
  received, ping_message, node_discovery_enr_request, node_discovery_enr_response, first_byte,
  serve_udp, read_enr_response, handshake,
}
use simple_blockchain_client.Prelude.{
  take-all, ap, ◌∙◌, take, refl, ◌≤◌, ◌≡◌, length, ◌∷◌, [], ℕ, some,
}

-- The socket to a server that has the given TCP address and buffer, no datagram being lost and none of
-- another node coming between.
unfoldable pub socket_with : Bytes → Bytes → Socket
socket_with tcp_address buf =
    let (first, next) = serve_udp tcp_address (some ping_message) buf in
    let (second, last) = serve_udp tcp_address (some (node_discovery_enr_request ∷ [])) next in
    lossless first second

serve_udp-ping :
    (tcp_address : Bytes) (b : ℕ) (rest : Bytes)
    → serve_udp tcp_address (some ping_message) (b ∷ rest)
      ≡ ((node_discovery_pong ∷ []) ∷ [], node_discovery_ping ∷ rest)
unfolding serve_udp first_byte
serve_udp-ping tcp_address b rest =
    rw (receive-cons node_discovery_ping b [] rest, receive-nil rest) refl

serve_udp-enr :
    (tcp_address : Bytes) (b : ℕ) (rest : Bytes)
    → serve_udp tcp_address (some (node_discovery_enr_request ∷ [])) (b ∷ rest)
      ≡ ((node_discovery_enr_response ∷ tcp_address) ∷ [], node_discovery_enr_request ∷ rest)
unfolding serve_udp first_byte
serve_udp-enr tcp_address b rest =
    rw (receive-cons node_discovery_enr_request b [] rest, receive-nil rest) refl

read_enr_response-cons :
    (tcp_address : Bytes) (b : ℕ) (rest : Bytes)
    → let d = node_discovery_enr_response ∷ tcp_address in
      read_enr_response (received d (b ∷ rest)) (receive d (b ∷ rest))
      ≡ tcp_server (take (length rest) tcp_address)
unfolding read_enr_response
read_enr_response-cons tcp_address b rest =
    rw
      (
        first_byte-receive node_discovery_enr_response b tcp_address rest,
        from_second-receive node_discovery_enr_response b tcp_address rest,
      )
      refl

handshake-lossless :
    (tcp_address : Bytes) (c : ℕ) (address : Bytes)
    → handshake
        (lossless
          ((node_discovery_pong ∷ []) ∷ [])
          ((node_discovery_enr_response ∷ tcp_address) ∷ []))
        (c ∷ address)
      ≡ tcp_server (take 1023 tcp_address)
unfolding handshake lossless request_enr
handshake-lossless tcp_address c address =
    let (b, rest, e, size) = buffer-cons new_buffer length-new_buffer in
    rw (e, receive-cons node_discovery_pong b [] rest, receive-nil rest)
      (unfold first_byte in
        read_enr_response-cons tcp_address node_discovery_pong rest
        ∙ ap (λ n. tcp_server (take n tcp_address)) size)

-- A node that answers, whatever earlier datagrams have left in its buffer, gives its TCP address to
-- `StartClient`, which dials it: the whole address, if it has at most 1023 bytes. No datagram is lost,
-- and the node's own address is not empty.
pub socket_with_gives_address :
    (tcp_address buf : Bytes) (c : ℕ) (address : Bytes)
    → length buf ≡ 1024
    → length tcp_address ≤ 1023
    → handshake (socket_with tcp_address buf) (c ∷ address) ≡ tcp_server tcp_address
unfolding socket_with
socket_with_gives_address tcp_address buf c address size short =
    let (b, rest, e, _) = buffer-cons buf size in
    rw (e, serve_udp-ping tcp_address b rest, serve_udp-enr tcp_address node_discovery_ping rest)
      (handshake-lossless tcp_address c address ∙ ap tcp_server (take-all 1023 tcp_address short))
