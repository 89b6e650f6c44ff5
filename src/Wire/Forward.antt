-- ===== src/Wire/Forward.antt =====
-- A message on its way from one node's processor to another's.
use simple_blockchain_client.Wire.Line.{concat}
use simple_blockchain_client.Peers.Broadcast.{handle_sending_messages_to_all, to_each}
use simple_blockchain_client.Peers.Registry.{IsSlice}
use simple_blockchain_client.Wire.Deliver.{
  refactor_handle_incoming_messages_delivers, reads_of, Arrival,
}
use simple_blockchain_client.Peers.{visible, Conn, Peers, frame, forward_message}
use simple_blockchain_client.Wire.{refactor_handle_incoming_messages, end_of_file}
use simple_blockchain_client.Prelude.{sym, ap, ◌∙◌, ◌++◌, ◌≡◌, ◌<◌, Bool, ◌∷◌, [], ℕ, false}

-- A message that the processor puts into `BlockchainToP2P` is written once to each of the peers as one
-- frame, where no write fails; a node to which the frame arrives, in any number of reads but in none
-- with another frame, hands the same message to its own processor. The message holds no line feed, and
-- begins and ends with an ASCII byte that is not white space; the slice of the peers lies within its array.
pub forward_message_arrives :
    (fails : ℕ → Bool) (a : Arrival) (peers : Peers) (remote : Conn) (others : Peers)
    → IsSlice peers
    → ((k : ℕ) → k < peers.len → fails k ≡ false)
    → let message = a.protocol_id ∷ a.message in
      (forward_message fails message peers ≡ record {
        sent = to_each (concat a.parts ++ (a.last ++ 10 ∷ [])) (visible peers);
        closed = [];
        peers = peers;
      })
      × ((refactor_handle_incoming_messages remote
            (reads_of (a ∷ []) (end_of_file ∷ []))
            others).messages
          ≡ message ∷ [])
unfolding forward_message frame
forward_message_arrives fails a peers remote others v fine = (
  handle_sending_messages_to_all fails a.protocol_id a.message peers v fine
      ∙ ap (λ m. record { sent = to_each m (visible peers); closed = []; peers = peers })
          (sym a.whole),
  ap (λ r. r.messages) (refactor_handle_incoming_messages_delivers remote (a ∷ []) others).0,
)
