-- ===== src/Discovery/Bootstrap.antt =====
-- `ConnectBootstrapNode` against `StartBootstrapServer`: what a node that joins learns.
use simple_blockchain_client.Bootnode.Serve.{serve-ping, serve-find_node}
use simple_blockchain_client.Udp.Buffer.{
  length-receive, receive-nil, receive-cons, length-new_buffer, from_second-receive, buffer-cons,
  first_byte-receive,
}
use simple_blockchain_client.Text.Parts.{join, trim_space, split}
use simple_blockchain_client.Udp.{
  first_byte, node_discovery_ping, new_buffer, comma, receive, received, node_discovery_pong,
  node_discovery_neighbors,
}
use simple_blockchain_client.Text.{Bytes}
use simple_blockchain_client.Discovery.Lossless.{lossless}
use simple_blockchain_client.Discovery.{
  first_byte, node_discovery_ping, new_buffer, find_node_message, trim_space, ping_message, comma,
  split, receive, nodes, Bootstrapped, received, node_discovery_pong, Call,
  node_discovery_neighbors, find_node, Option, Bytes, read_neighbors, connect_bootstrap_node,
}
use simple_blockchain_client.Bootnode.{served, serve, Bootnode}
use simple_blockchain_client.Bootnode.{panicked, served}
use simple_blockchain_client.Prelude.{
  ◌∙◌, ap, refl, ◌++◌, take, ◌≡◌, length, Option, ◌∷◌, [], suc, ℕ, none, some,
}

-- The call of a node and the rounds of the bootstrap node on its two datagrams, none being lost and none
-- of another node coming between; nothing if the bootstrap node panics.
unfoldable pub join_network : Bootnode → Bytes → Option (Call Bootstrapped × Bootnode)
join_network s address = elim (serve (some ping_message) s) [
  | panicked ↦ none
  | served first next ↦ elim (serve (some (find_node_message address)) next) [
    | panicked ↦ none
    | served second last ↦ some (connect_bootstrap_node (lossless first second) address, last)
  ]
]

read_neighbors-cons :
    (joined : Bytes) (b : ℕ) (rest : Bytes)
    → let d = node_discovery_neighbors ∷ joined in
      read_neighbors (received d (b ∷ rest)) (receive d (b ∷ rest))
      ≡ nodes (split comma (trim_space (take (length rest) joined)))
unfolding read_neighbors
read_neighbors-cons joined b rest =
    rw
      (
        first_byte-receive node_discovery_neighbors b joined rest,
        from_second-receive node_discovery_neighbors b joined rest,
      )
      refl

connect_bootstrap_node-lossless :
    (joined address : Bytes)
    → connect_bootstrap_node
        (lossless ((node_discovery_pong ∷ []) ∷ []) ((node_discovery_neighbors ∷ joined) ∷ []))
        address
      ≡ record {
        result = nodes (split comma (trim_space (take 1023 joined)));
        sent = ping_message ∷ find_node_message address ∷ [];
      }
unfolding connect_bootstrap_node lossless find_node
connect_bootstrap_node-lossless joined address =
    let (b, rest, e, size) = buffer-cons new_buffer length-new_buffer in
    rw (e, receive-cons node_discovery_pong b [] rest, receive-nil rest)
      (unfold first_byte in
        ap (λ r. record { result = r; sent = ping_message ∷ find_node_message address ∷ [] })
          (read_neighbors-cons joined node_discovery_pong rest
            ∙ ap (λ n. nodes (split comma (trim_space (take n joined)))) size))

-- A node that joins gets from the bootstrap node the text of the addresses that were sent to it before,
-- with commas between them, cut off behind its first 1023 bytes, and takes it apart at the commas;
-- the bootstrap node then lists its address, cut off behind 1023 bytes too, as the last one. The
-- bootstrap node has a buffer of 1024 bytes, and keeps it.
pub join_network_truncates :
    (s : Bootnode) (address : Bytes)
    → length s.buf ≡ 1024
    → (next : Bootnode) × (join_network s address
        ≡ some (
          record {
            result = nodes (split comma (trim_space (take 1023 (join comma s.connected_nodes))));
            sent = ping_message ∷ find_node_message address ∷ [];
          },
          next,
        ))
      × (next.connected_nodes ≡ s.connected_nodes ++ take 1023 address ∷ [])
      × (length next.buf ≡ 1024)
unfolding join_network
join_network_truncates s address size =
    let (b, rest, e, long) = buffer-cons s.buf size in
    let joined = join comma s.connected_nodes in
    let next : Bootnode = record {
      buf = receive (find_node_message address) (node_discovery_ping ∷ rest);
      connected_nodes = s.connected_nodes ++ take (length rest) address ∷ [];
    } in
    (
      next,
      rw
          (
            serve-ping s b rest e,
            join_network,
            serve-find_node node_discovery_ping rest address s.connected_nodes,
          )
          (ap (λ c. some (c, next)) (connect_bootstrap_node-lossless joined address)),
      ap (λ n. s.connected_nodes ++ take n address ∷ []) long,
      length-receive (find_node_message address) (node_discovery_ping ∷ rest) ∙ ap suc long,
    )
