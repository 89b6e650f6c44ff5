-- ===== src/Bootnode/Serve.antt =====
-- The rounds of the bootstrap node: what it answers, and when it panics.
use simple_blockchain_client.Udp.Buffer.{
  receive-cons, received-nil, receive-nil, from_second-receive, first_byte-receive,
}
use simple_blockchain_client.Udp.{
  from_second, first_byte, receive, node_discovery_pong, node_discovery_ping,
  node_discovery_find_node,
}
use simple_blockchain_client.Text.{Bytes}
use simple_blockchain_client.Bootnode.{
  from_second, first_byte, List, panicked, Served, receive, node_discovery_pong, neighbors_message,
  served, node_discovery_ping, node_discovery_find_node, Bytes, Bootnode, answer, serve,
}
use simple_blockchain_client.Prelude.{
  nat_eq, inr, ◌==◌, inl, ◌⊎◌, Bool-cases, ◌↔◌, arith, List, ◌≢◌, length, take, refl, ◌++◌, ◌≡◌,
  ◌∷◌, [], ℕ, some,
}

pub serve-ping :
    (s : Bootnode) (b : ℕ) (rest : Bytes)
    → s.buf ≡ b ∷ rest
    → serve (some (node_discovery_ping ∷ [])) s
      ≡ served ((node_discovery_pong ∷ []) ∷ []) (record s { buf = node_discovery_ping ∷ rest })
unfolding serve answer first_byte
serve-ping s b rest h = rw (h, receive-cons node_discovery_ping b [] rest, receive-nil rest) refl

pub serve-find_node :
    (b : ℕ) (rest address : Bytes) (nodes : List Bytes)
    → serve
        (some (node_discovery_find_node ∷ address))
        (record { buf = b ∷ rest; connected_nodes = nodes })
      ≡ served (neighbors_message nodes ∷ []) (record {
        buf = receive (node_discovery_find_node ∷ address) (b ∷ rest);
        connected_nodes = nodes ++ take (length rest) address ∷ [];
      })
unfolding serve answer
serve-find_node b rest address nodes =
    rw
      (
        first_byte-receive node_discovery_find_node b address rest,
        from_second-receive node_discovery_find_node b address rest,
      )
      refl

pub Served-cases :
    (r : Served)
    → ((replies : List Bytes) × (s : Bootnode) × (r ≡ served replies s)) ⊎ (r ≡ panicked)
Served-cases (served replies s) = inl (replies, s, refl)
Served-cases panicked = inr refl

-- A datagram with a byte is served.
pub serve-cons :
    (s : Bootnode) (b c : ℕ) (rest datagram : Bytes)
    → s.buf ≡ b ∷ rest
    → serve (some (c ∷ datagram)) s ≢ panicked
unfolding serve answer
serve-cons s b c rest datagram h =
    rw (h, first_byte-receive c b datagram rest, from_second-receive c b datagram rest)
      (ground
        (arith, Bool-cases (c == node_discovery_ping), Bool-cases (c == node_discovery_find_node)))

-- An empty datagram leaves the byte that an earlier one has put first.
pub serve-nil :
    (s : Bootnode) → (serve (some []) s ≡ panicked) ↔ (first_byte s.buf ≡ node_discovery_find_node)
unfolding serve answer
serve-nil s =
    rw (receive-nil s.buf, received-nil s.buf)
      (unfold from_second in
        ground (
          arith,
          Bool-cases (first_byte s.buf == node_discovery_ping),
          Bool-cases (first_byte s.buf == node_discovery_find_node),
        ))
