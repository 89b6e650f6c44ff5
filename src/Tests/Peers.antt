-- ===== src/Tests/Peers.antt =====
-- Peers that are connected, that fail, and that send.
use simple_blockchain_client.Peers.Skip.{handle_sending_messages_skips}
use simple_blockchain_client.Peers.Broadcast.{to_each}
use simple_blockchain_client.Peers.Middle.{last_of, Absent, slice_of}
use simple_blockchain_client.Text.{codes, Bytes}
use simple_blockchain_client.Peers.Registry.{remove_conn_refines, without_first, IsSlice}
use simple_blockchain_client.Peers.{
  index_of, frame, remove_conn, visible, handle_sending_messages, Peers,
}
use simple_blockchain_client.Prelude.{
  refl, length, nat_eq, ◌≡◌, ◌==◌, arith, Bool, ◌∷◌, [], ℕ, false,
}

abbrev three_peers : Peers
three_peers = record { array = 5 ∷ 7 ∷ 9 ∷ 9 ∷ []; len = 3 }

three_peers-IsSlice : IsSlice three_peers
three_peers-IsSlice = record { within = omega arith }

remove_conn_refines_example :
    (visible (remove_conn 7 three_peers) ≡ without_first 7 (5 ∷ 7 ∷ 9 ∷ []))
    × IsSlice (remove_conn 7 three_peers)
    × (length (remove_conn 7 three_peers).array ≡ 4)
remove_conn_refines_example = remove_conn_refines 7 three_peers three_peers-IsSlice

abbrev greeting : Bytes
greeting = codes "hi"

abbrev never : ℕ → Bool
never k = false

abbrev at_one : ℕ → Bool
at_one k = k == 1

handle_sending_messages_skips_example :
    let result =
      handle_sending_messages at_one 1 greeting (slice_of (5 ∷ 7 ∷ 9 ∷ 11 ∷ []) (11 ∷ [])) in
    (result.sent ≡ to_each (frame 1 greeting) (5 ∷ 11 ∷ 11 ∷ []))
    × (result.closed ≡ 7 ∷ [])
    × (visible result.peers ≡ 5 ∷ 9 ∷ 11 ∷ [])
unfolding last_of
handle_sending_messages_skips_example =
    handle_sending_messages_skips at_one 1 greeting (5 ∷ []) 7 9 (11 ∷ []) (11 ∷ [])
      (unfold Absent index_of in refl) (λ k. refl)
