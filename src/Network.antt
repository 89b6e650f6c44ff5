-- ===== src/Network.antt =====
-- The connections of a full node: the loop of `StartTCPServer` of p2p/server.go, and `StartClient` of
-- p2p/client.go up to its handlers. A goroutine of `RefactorHandleIncomingMessages` is the connection
-- that it reads.
pub mod Start
use simple_blockchain_client.Discovery.{handshake, Socket}
use simple_blockchain_client.Text.{Bytes}
use simple_blockchain_client.Peers.{visible, connect, Conn, Peers}
use simple_blockchain_client.Discovery.{handshake_panic, no_server, tcp_server}
use simple_blockchain_client.Prelude.{
  ◌++◌, Option, List, ◌∷◌, [], zero, suc, ℕ, none, some, true, false,
}

-- `ConnectedPeers`, and the connections for which a handler was started, once for each start.
pub record Network : Type 0 where
  pub peers : Peers
  pub handlers : List Conn

-- A round of `StartTCPServer`; `none` is an error of `Accept`.
unfoldable pub accept : Option Conn → Network → Network
accept none network = network
accept (some conn) network = record {
  peers = connect conn network.peers;
  handlers = network.handlers ++ conn ∷ [];
}

-- A node that `StartClient` is given: its UDP address, what the socket to it does, and what the dial of
-- a TCP address gives.
pub record Contact : Type 0 where
  pub address : Bytes
  pub socket : Socket
  pub dial : Bytes → Option Conn

-- The loop body of `StartClient`; `none` is a panic.
unfoldable pub discover_one : Contact → Peers → Option Peers
discover_one node peers = elim (handshake node.socket node.address) [
  | handshake_panic ↦ none
  | no_server ↦ some peers
  | tcp_server tcp ↦ elim (node.dial tcp) [
    | none ↦ some peers
    | some conn ↦ some (connect conn peers)
  ]
]

unfoldable pub discover : List Contact → Peers → Option Peers
discover [] peers = some peers
discover (node ∷ nodes) peers = elim (discover_one node peers) [
  | none ↦ none
  | some next ↦ discover nodes next
]

-- `StartClient(nodeAddress)` up to the handlers, one for each connection of `ConnectedPeers`.
unfoldable pub start_client : List Contact → Network → Option Network
start_client nodes network = elim (discover nodes network.peers) [
  | none ↦ none
  | some peers ↦ some (record { peers = peers; handlers = network.handlers ++ visible peers })
]
