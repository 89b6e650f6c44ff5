-- ===== src/Bootnode.antt =====
-- The bootstrap node of bootnode/bootnode.go: `StartBootstrapServer`, and the older
-- `tcpstartBootstrapServer`. A write that fails is only reported, so that a reply stands for the attempt.
pub mod Serve
pub mod Reach
use simple_blockchain_client.Text.Parts.{trim_space, join}
use simple_blockchain_client.Udp.{
  from_second, node_discovery_find_node, node_discovery_pong, node_discovery_ping, comma, receive,
  received, node_discovery_neighbors, new_buffer, first_byte,
}
use simple_blockchain_client.Text.{Bytes}
use simple_blockchain_client.Prelude.{
  nat_eq, ◌==◌, ◌++◌, if◌then◌else◌, Option, List, ◌∷◌, [], zero, suc, ℕ, none, some, true, false,
}

-- The variables of `StartBootstrapServer`: its buffer, and the addresses that were sent to it.
pub record Bootnode : Type 0 where
  pub buf : Bytes
  pub connected_nodes : List Bytes

unfoldable pub new_bootnode : Bootnode
new_bootnode = record { buf = new_buffer; connected_nodes = [] }

-- A round of the loop gives the replies it writes and the next state, or panics.
pub data Served : Type 0 where
  served : List Bytes → Bootnode → Served
  panicked : Served

abbrev pub neighbors_message : List Bytes → Bytes
neighbors_message nodes = node_discovery_neighbors ∷ join comma nodes

-- The `switch` on `buf[0]`, `n` bytes having been read.
unfoldable pub answer : ℕ → Bootnode → Served
answer n s =
    let first = first_byte s.buf in
    if first == node_discovery_ping
    then served ((node_discovery_pong ∷ []) ∷ []) s
    else if first == node_discovery_find_node
    then elim (from_second n s.buf) [
      | none ↦ panicked
      | some node_info ↦
          served (neighbors_message s.connected_nodes ∷ [])
            (record s { connected_nodes = s.connected_nodes ++ node_info ∷ [] })
    ]
    else served [] s

-- A round of `StartBootstrapServer`; `none` is an error of `ReadFromUDP`.
unfoldable pub serve : Option Bytes → Bootnode → Served
serve none s = served [] s
serve (some datagram) s =
    answer (received datagram s.buf) (record s { buf = receive datagram s.buf })

-- A connection to `tcpstartBootstrapServer` and what it returns: what it writes, and its list. The line
-- that the node sends is `none` where reading it gives an error.
unfoldable pub tcp_serve : Option Bytes → List Bytes → List Bytes × List Bytes
tcp_serve none nodes = ([], nodes)
tcp_serve (some node_address) nodes =
    let listed = nodes ++ trim_space node_address ∷ [] in
    let connected_nodes_string = join comma nodes in
    elim nodes [ [] ↦ ([], listed) | _ ∷ _ ↦ ((connected_nodes_string ++ 10 ∷ []) ∷ [], listed) ]
