-- ===== src/Network/Start.antt =====
-- `StartClient` among nodes that answer.
use simple_blockchain_client.Peers.Registry.{connect_refines, IsSlice}
use simple_blockchain_client.Peers.{visible, connect, Peers, Conn}
use simple_blockchain_client.Discovery.Enr.{socket_with_gives_address, socket_with}
use simple_blockchain_client.Text.{Bytes}
use simple_blockchain_client.Network.{
  start_client, visible, connect, Peers, Network, Conn, discover_one, discover, Contact,
}
use simple_blockchain_client.Discovery.{tcp_server, handshake}
use simple_blockchain_client.Prelude.{
  append-snoc, append-nil, ◌∙◌, sym, ◌++◌, ap, map, inr, bytes_eq, ◌==◌, inl, All, ==_refl, ◌⊎◌,
  ◌≤◌, refl, if◌then◌else◌, ◌≡◌, length, ◌≢◌, List, ◌∷◌, [], ℕ, none, some,
}

-- A node that runs `StartUDPServer`, and the connection that a dial of its TCP address gives.
pub record Server : Type 0 where
  pub udp_address : Bytes
  pub tcp_address : Bytes
  pub buf : Bytes
  pub conn : Conn

-- Dialing any other address fails.
unfoldable pub node_of : Server → Contact
node_of server = record {
  address = server.udp_address;
  socket = socket_with server.tcp_address server.buf;
  dial = λ tcp. if tcp == server.tcp_address then some server.conn else none;
}

pub record IsServer (server : Server) : Type 0 where
  pub udp_address : server.udp_address ≢ []
  pub tcp_address : length server.tcp_address ≤ 1023
  pub buf : length server.buf ≡ 1024

Bytes-cases : (s : Bytes) → (s ≡ []) ⊎ ((c : ℕ) × (rest : Bytes) × (s ≡ c ∷ rest))
Bytes-cases [] = inl refl
Bytes-cases (c ∷ rest) = inr (c, rest, refl)

handshake-node_of :
    (server : Server)
    → IsServer server
    → handshake (node_of server).socket (node_of server).address ≡ tcp_server server.tcp_address
unfolding node_of
handshake-node_of server v = elim (Bytes-cases server.udp_address) [
  | inl empty ↦ absurd (v.udp_address empty)
  | inr (c, rest, e) ↦
      ap (handshake (socket_with server.tcp_address server.buf)) e
      ∙ socket_with_gives_address server.tcp_address server.buf c rest v.buf v.tcp_address
]

discover_one-node_of :
    (server : Server) (peers : Peers)
    → IsServer server
    → discover_one (node_of server) peers ≡ some (connect server.conn peers)
unfolding discover_one
discover_one-node_of server peers v =
    rw (handshake-node_of server v, discover_one)
      (unfold node_of in rw (==_refl server.tcp_address) refl)

discover-cons :
    (node : Contact) (nodes : List Contact) (peers next : Peers)
    → discover_one node peers ≡ some next
    → discover (node ∷ nodes) peers ≡ discover nodes next
unfolding discover
discover-cons node nodes peers next h = rw (h, discover) refl

discover-servers :
    (servers : List Server) (peers : Peers)
    → IsSlice peers
    → All IsServer servers
    → (next : Peers) × (discover (map node_of servers) peers ≡ some next)
      × (visible next ≡ visible peers ++ map (λ s. s.conn) servers)
discover-servers [] peers slice h =
    (peers, unfold discover in refl, sym (append-nil (visible peers)))
discover-servers (server ∷ servers) peers slice (v, h) =
    let (seen, slice2) = connect_refines server.conn peers slice in
    let (next, found, all) = discover-servers servers (connect server.conn peers) slice2 h in
    (
      next,
      discover-cons (node_of server) (map node_of servers) peers (connect server.conn peers)
            (discover_one-node_of server peers v)
          ∙ found,
      all
          ∙ ap (λ l. l ++ map (λ s. s.conn) servers) seen
          ∙ sym (append-snoc (visible peers) server.conn (map (λ s. s.conn) servers)),
    )

-- Given nodes that answer, each with a UDP address that is not empty and a TCP address of at most 1023
-- bytes, `StartClient` connects to all of them, in their order, behind the peers that were there, and
-- then starts a handler for every peer, also for each that was there before, besides the handlers that
-- were started before. The length of the slice lies within its array.
pub start_client_connects :
    (servers : List Server) (network : Network)
    → IsSlice network.peers
    → All IsServer servers
    → let all = visible network.peers ++ map (λ s. s.conn) servers in
      (next : Network) × (start_client (map node_of servers) network ≡ some next)
      × (visible next.peers ≡ all)
      × (next.handlers ≡ network.handlers ++ all)
start_client_connects servers network slice h =
    let (peers, found, seen) = discover-servers servers network.peers slice h in
    (
      record { peers = peers; handlers = network.handlers ++ visible peers },
      unfold start_client in rw (found, start_client) refl,
      seen,
      ap (λ l. network.handlers ++ l) seen,
    )
