-- ===== src/Peers.antt =====
-- The connected peers: `ConnectedPeers` of p2p/bootstrap_connection.go, `RemoveConn` of
-- utils/utils.go, and `HandleSendingMessages` of p2p/client.go. A connection is a number; none of the
-- stored ones is nil, since only the result of a successful `Accept` or `Dial` is stored.
pub mod Registry
pub mod Broadcast
pub mod Middle
pub mod Skip
use simple_blockchain_client.Text.Parts.{trim_space}
use simple_blockchain_client.Text.{Bytes}
use simple_blockchain_client.Prelude.{
  nat_eq, bytes_eq, ◌==◌, ◌-◌, if◌then◌else◌, ◌+◌, take, drop, Option, ◌++◌, List, Bool, ◌∷◌, [],
  zero, suc, ℕ, none, some, true, false,
}

abbrev pub Conn : Type 0
Conn = ℕ

-- A slice: its length, and the array that it shares with every slice taken of it.
pub record Peers : Type 0 where
  pub array : List Conn
  pub len : ℕ

abbrev pub visible : Peers → List Conn
visible peers = take peers.len peers.array

-- `append(ConnectedPeers, conn)`: in place where the array has room. What a larger array holds behind
-- its last connection is left out.
unfoldable pub connect : Conn → Peers → Peers
connect conn peers = record {
  array = visible peers ++ conn ∷ drop (peers.len + 1) peers.array;
  len = peers.len + 1;
}

-- `for i, conn := range peers { if conn == target { … } }`
unfoldable pub index_of : Conn → List Conn → Option ℕ
index_of target [] = none
index_of target (conn ∷ conns) =
    let rest : Option ℕ = elim (index_of target conns) [ none ↦ none | some i ↦ some (suc i) ] in
    if conn == target then some 0 else rest

-- Every element moves one place to the front; the last one is written twice.
unfoldable pub shift : List Conn → List Conn
shift [] = []
shift (conn ∷ []) = conn ∷ []
shift (conn ∷ next ∷ conns) = next ∷ shift (next ∷ conns)

-- What `append(peers[:i], peers[i+1:]...)` leaves in the array.
unfoldable pub close_gap : ℕ → List Conn → List Conn
close_gap zero conns = shift conns
close_gap (suc i) [] = []
close_gap (suc i) (conn ∷ conns) = conn ∷ close_gap i conns

-- `RemoveConn`: the array is changed in place, and the slice that is returned is shorter by one.
unfoldable pub remove_conn : Conn → Peers → Peers
remove_conn target peers = elim (index_of target (visible peers)) [
  | none ↦ peers
  | some i ↦ record {
    array = close_gap i (visible peers) ++ drop peers.len peers.array;
    len = peers.len - 1;
  }
]

-- `append([]byte{protocolID}, []byte(message+"\n")...)`
unfoldable pub frame : ℕ → Bytes → Bytes
frame protocol_id message = protocol_id ∷ message ++ 10 ∷ []

-- The sends so far: what was written to whom, which connections were closed, and the peers.
pub record Sending : Type 0 where
  pub sent : List (Conn × Bytes)
  pub closed : List Conn
  pub peers : Peers

unfoldable pub read_at : List Conn → ℕ → Option Conn
read_at [] i = none
read_at (conn ∷ conns) zero = some conn
read_at (conn ∷ conns) (suc i) = read_at conns i

-- One round of the loop, on the connection that the array has at the index now; `fails` tells whether
-- the write at an index gives an error.
unfoldable pub send_at : (ℕ → Bool) → Bytes → ℕ → Sending → Sending
send_at fails full_message i s = elim (read_at s.peers.array i) [
  | none ↦ s
  | some conn ↦ elim (fails i) [
    | true ↦ record s { closed = s.closed ++ conn ∷ []; peers = remove_conn conn s.peers }
    | false ↦ record s { sent = s.sent ++ (conn, full_message) ∷ [] }
  ]
]

-- The loop over the indices below the length that the slice had when the loop began.
unfoldable pub send_from : (ℕ → Bool) → Bytes → ℕ → ℕ → Sending → Sending
send_from fails full_message zero i s = s
send_from fails full_message (suc rounds) i s =
    send_from fails full_message rounds (i + 1) (send_at fails full_message i s)

-- `HandleSendingMessages(ConnectedPeers, protocolID, message)`
unfoldable pub handle_sending_messages : (ℕ → Bool) → ℕ → Bytes → Peers → Sending
handle_sending_messages fails protocol_id message peers =
    send_from fails (frame protocol_id message) peers.len 0
      (record { sent = []; closed = []; peers = peers })

-- The goroutine of `StartClient` on one message of `BlockchainToP2P`: its first byte is the protocol's.
unfoldable pub forward_message : (ℕ → Bool) → Bytes → Peers → Sending
forward_message fails [] peers = record { sent = []; closed = []; peers = peers }
forward_message fails (protocol_id ∷ content) peers =
    handle_sending_messages fails protocol_id content peers

-- The two goroutines of `StartClient` on one line of the input.
unfoldable pub send_chat : (ℕ → Bool) → Bytes → Peers → Sending
send_chat fails l peers = handle_sending_messages fails 0x00 (trim_space l) peers
