-- ===== src/Tests/Discovery.antt =====
-- Frames on a connection, and nodes that find each other.
use simple_blockchain_client.Wire.Forward.{forward_message_arrives}
use simple_blockchain_client.Peers.Broadcast.{to_each}
use simple_blockchain_client.Text.Parts.{join, trim_space, split}
use simple_blockchain_client.Text.Lines.{IsSolid}
use simple_blockchain_client.Text.{Bytes}
use simple_blockchain_client.Network.Start.{start_client_connects, node_of, Server, IsServer}
use simple_blockchain_client.Network.{start_client, Network}
use simple_blockchain_client.Discovery.Learn.{join_network_learns, IsNodeAddress, join_all}
use simple_blockchain_client.Discovery.Bootstrap.{join_network_truncates, join_network}
use simple_blockchain_client.Discovery.Safe.{discovery_slices_safe}
use simple_blockchain_client.Wire.Lost.{refactor_handle_incoming_messages_loses}
use simple_blockchain_client.Udp.{
  new_buffer, from_second, received, receive, comma, node_discovery_find_node, first_byte, zeros,
}
use simple_blockchain_client.Wire.Deliver.{
  refactor_handle_incoming_messages_delivers, reads_of, Arrival,
}
use simple_blockchain_client.Peers.{forward_message, visible, remove_conn, frame, Peers}
use simple_blockchain_client.Discovery.{
  find_node_message, ping_message, nodes, handshake_panic, handshake, slice_panic,
  connect_bootstrap_node, Socket,
}
use simple_blockchain_client.Bootnode.Reach.{started, round, serve_panics, Reachable}
use simple_blockchain_client.Bootnode.{answer, new_bootnode, panicked, serve, Bootnode}
use simple_blockchain_client.Wire.{
  refactor_handle_incoming_messages, end_of_file, read_error, bytes,
}
use simple_blockchain_client.Prelude.{
  length, take, nat_eq, ◌==◌, List, ◌↔◌, refl, arith, ◌≢◌, ◌≡◌, ◌∷◌, [], ℕ, some, true, false,
}

-- The frame of `ab` with the protocol byte of a transaction, in two reads.
abbrev arrival : Arrival
arrival = record {
  protocol_id = 1;
  message = 97 ∷ 98 ∷ [];
  parts = (1 ∷ 97 ∷ []) ∷ [];
  last = 98 ∷ [];
  whole = unfold frame in refl;
  parts_lack = ground arith;
  last_lacks = ground arith;
  solid = ground arith;
}

abbrev no_peers : Peers
no_peers = record { array = []; len = 0 }

refactor_handle_incoming_messages_delivers_example :
    (refactor_handle_incoming_messages 5 (reads_of (arrival ∷ []) (end_of_file ∷ [])) no_peers
      ≡ record { messages = (1 ∷ 97 ∷ 98 ∷ []) ∷ []; peers = remove_conn 5 no_peers; ended = true })
    × (refactor_handle_incoming_messages 5 (reads_of (arrival ∷ []) (read_error ∷ [])) no_peers
        ≡ record { messages = (1 ∷ 97 ∷ 98 ∷ []) ∷ []; peers = no_peers; ended = true })
refactor_handle_incoming_messages_delivers_example =
    refactor_handle_incoming_messages_delivers 5 (arrival ∷ []) no_peers

refactor_handle_incoming_messages_loses_example :
    refactor_handle_incoming_messages 5
      (bytes (1 ∷ 97 ∷ []) ∷ bytes (98 ∷ 10 ∷ 1 ∷ 99 ∷ 10 ∷ []) ∷ end_of_file ∷ [])
      no_peers
    ≡ refactor_handle_incoming_messages 5
        (bytes (1 ∷ 97 ∷ []) ∷ bytes (98 ∷ 10 ∷ []) ∷ end_of_file ∷ [])
        no_peers
refactor_handle_incoming_messages_loses_example =
    refactor_handle_incoming_messages_loses 5 ((1 ∷ 97 ∷ []) ∷ []) (98 ∷ []) (1 ∷ 99 ∷ 10 ∷ [])
      (end_of_file ∷ []) no_peers (ground arith) (ground arith)

abbrev empty : Bytes
empty = []

-- The bootstrap node after one FindNode.
abbrev asked : Bootnode
asked = record { buf = 3 ∷ 97 ∷ zeros 1022; connected_nodes = (97 ∷ []) ∷ [] }

asked-Reachable : Reachable asked
asked-Reachable = round {next = asked} (some (3 ∷ 97 ∷ [])) ((4 ∷ []) ∷ []) started (
    unfold serve answer receive received first_byte from_second new_bootnode new_buffer join in
    refl)

serve_panics_example :
    (serve (some empty) asked ≡ panicked)
    ↔ ((empty ≡ []) × (first_byte asked.buf ≡ node_discovery_find_node))
serve_panics_example = serve_panics asked empty asked-Reachable

abbrev deaf : Socket
deaf = record {
  resolves = true;
  dials = true;
  first_write = true;
  second_write = true;
  first_read = some (2 ∷ []);
  second_read = some [];
}

discovery_slices_safe_example :
    ((connect_bootstrap_node deaf (97 ∷ [])).result ≢ slice_panic)
    × (handshake deaf (98 ∷ []) ≢ handshake_panic)
discovery_slices_safe_example = discovery_slices_safe deaf (97 ∷ []) (98 ∷ [])

join_network_truncates_example :
    (next : Bootnode) × (join_network asked (99 ∷ [])
      ≡ some (
        record {
          result = nodes (split comma (trim_space (take 1023 (join comma ((97 ∷ []) ∷ [])))));
          sent = ping_message ∷ find_node_message (99 ∷ []) ∷ [];
        },
        next,
      ))
    × (next.connected_nodes ≡ (97 ∷ []) ∷ take 1023 (99 ∷ []) ∷ [])
    × (length next.buf ≡ 1024)
join_network_truncates_example = join_network_truncates asked (99 ∷ []) refl

abbrev addresses : List Bytes
addresses = (97 ∷ []) ∷ (98 ∷ []) ∷ []

-- An address of one byte.
letter : (c : ℕ) → IsSolid c → (c == comma) ≡ false → IsNodeAddress (c ∷ [])
letter c solid no_comma = record {
  solid = (solid, solid);
  no_comma = (no_comma, tt);
  short = omega arith;
}

join_network_learns_example :
    (s : Bootnode) × (next : Bootnode) × (join_all addresses new_bootnode ≡ some s)
    × (join_network s (99 ∷ [])
        ≡ some (
          record {
            result = nodes addresses;
            sent = ping_message ∷ find_node_message (99 ∷ []) ∷ [];
          },
          next,
        ))
join_network_learns_example =
    join_network_learns (97 ∷ []) ((98 ∷ []) ∷ []) (99 ∷ [])
      (letter 97 (ground arith) refl, (letter 98 (ground arith) refl, tt))
      (unfold join in ground arith)

abbrev server : Server
server = record { udp_address = 97 ∷ []; tcp_address = 98 ∷ []; buf = asked.buf; conn = 7 }

server-IsServer : IsServer server
server-IsServer = record { udp_address = λ e. cc; tcp_address = omega arith; buf = refl }

abbrev network : Network
network = record { peers = record { array = 5 ∷ []; len = 1 }; handlers = 5 ∷ [] }

start_client_connects_example :
    (next : Network) × (start_client (node_of server ∷ []) network ≡ some next)
    × (visible next.peers ≡ 5 ∷ 7 ∷ [])
    × (next.handlers ≡ 5 ∷ 5 ∷ 7 ∷ [])
start_client_connects_example =
    start_client_connects (server ∷ []) network (record { within = omega arith })
      (server-IsServer, tt)

forward_message_arrives_example :
    (forward_message (λ k. false) (1 ∷ 97 ∷ 98 ∷ []) no_peers
      ≡ record { sent = to_each (1 ∷ 97 ∷ 98 ∷ 10 ∷ []) []; closed = []; peers = no_peers })
    × ((refactor_handle_incoming_messages 5
          (reads_of (arrival ∷ []) (end_of_file ∷ []))
          no_peers).messages
        ≡ (1 ∷ 97 ∷ 98 ∷ []) ∷ [])
forward_message_arrives_example =
    forward_message_arrives (λ k. false) arrival no_peers 5 no_peers
      (record { within = omega arith }) (λ k h. refl)
