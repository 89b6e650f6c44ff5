-- ===== src/Bootnode/Reach.antt =====
-- The states that the bootstrap node runs through, and the datagrams that end it.
use simple_blockchain_client.Bootnode.Serve.{serve-cons, serve-nil}
use simple_blockchain_client.Udp.{
  node_discovery_ping, receive, node_discovery_find_node, from_second, received, first_byte,
}
use simple_blockchain_client.Udp.Buffer.{buffer-cons, length-receive, length-new_buffer}
use simple_blockchain_client.Text.{Bytes}
use simple_blockchain_client.Bootnode.{
  node_discovery_ping, receive, node_discovery_find_node, from_second, received, first_byte, served,
  panicked, Option, List, Bytes, serve, new_bootnode, answer, Bootnode,
}
use simple_blockchain_client.Prelude.{
  refl, nat_eq, ◌==◌, Bool-cases, Option-cases, ◌∙◌, ◌↔◌, arith, ◌≡◌, length, Option, List, ◌∷◌, [],
  ℕ, none, some,
}

-- The states after any number of rounds of `StartBootstrapServer`.
pub data Reachable : Bootnode → Type 0 where
  started : Reachable new_bootnode
  round :
      {s next : Bootnode} (packet : Option Bytes) (replies : List Bytes)
      → Reachable s
      → serve packet s ≡ served replies next
      → Reachable next

answer-buf :
    (n : ℕ) (s : Bootnode) {replies : List Bytes} {next : Bootnode}
    → answer n s ≡ served replies next
    → length next.buf ≡ length s.buf
unfolding answer
answer-buf n s h = ground (
  arith,
  Option-cases (from_second n s.buf),
  Bool-cases (first_byte s.buf == node_discovery_ping),
  Bool-cases (first_byte s.buf == node_discovery_find_node),
)

serve-buf :
    (packet : Option Bytes) (s : Bootnode) {replies : List Bytes} {next : Bootnode}
    → serve packet s ≡ served replies next
    → length next.buf ≡ length s.buf
unfolding serve
serve-buf none s h = ground arith
serve-buf (some datagram) s h =
    answer-buf (received datagram s.buf) (record s { buf = receive datagram s.buf }) h
    ∙ length-receive datagram s.buf

pub Reachable-buf : (s : Bootnode) → Reachable s → length s.buf ≡ 1024
unfolding new_bootnode
Reachable-buf s started = length-new_buffer
Reachable-buf s (round {s = before} packet replies r step) =
    serve-buf packet before step ∙ Reachable-buf before r

-- In any state that the bootstrap node can reach, a datagram makes it panic exactly when it is empty and
-- the buffer still begins with the byte of an earlier FindNode.
pub serve_panics :
    (s : Bootnode) (datagram : Bytes)
    → Reachable s
    → (serve (some datagram) s ≡ panicked)
      ↔ ((datagram ≡ []) × (first_byte s.buf ≡ node_discovery_find_node))
serve_panics s [] r = (λ e. (refl, (serve-nil s).0 e), λ (empty, e). (serve-nil s).1 e)
serve_panics s (c ∷ datagram) r =
    let (b, rest, e, size) = buffer-cons s.buf (Reachable-buf s r) in
    (λ p. absurd (serve-cons s b c rest datagram e p), λ (empty, h). cc)
