-- ===== src/Wire/Deliver.antt =====
-- Frames that arrive one after another, each in reads of its own.
use simple_blockchain_client.Text.Lines.{trim_space-line, IsSolidText}
use simple_blockchain_client.Wire.Rounds.{refactor_handle_incoming_messages-line}
use simple_blockchain_client.Text.Parts.{trim_space, Lacks}
use simple_blockchain_client.Wire.Line.{read_string-in_reads, in_reads, concat}
use simple_blockchain_client.Wire.{
  read_string, handle_incoming, read_error, end_of_file, deliver, refactor_handle_incoming_messages,
  bytes, ConnRead,
}
use simple_blockchain_client.Text.{Bytes}
use simple_blockchain_client.Peers.{remove_conn, Peers, Conn, frame}
use simple_blockchain_client.Prelude.{refl, ap, ◌∙◌, All, ◌≡◌, ◌++◌, List, ◌∷◌, [], ℕ, true}

-- How a frame arrives: in any number of reads, of which the last ends with its line feed. The protocol
-- byte and the last byte of the message are neither white space nor part of a longer character.
pub record Arrival : Type 0 where
  pub protocol_id : ℕ
  pub message : Bytes
  pub parts : List Bytes
  pub last : Bytes
  pub whole : concat parts ++ (last ++ 10 ∷ []) ≡ frame protocol_id message
  pub parts_lack : All (Lacks 10) parts
  pub last_lacks : Lacks 10 last
  pub solid : IsSolidText (protocol_id ∷ message)

abbrev pub reads_of : List Arrival → List ConnRead → List ConnRead
reads_of [] reads = reads
reads_of (a ∷ arrivals) reads =
    in_reads a.parts (bytes (a.last ++ 10 ∷ []) ∷ reads_of arrivals reads)

abbrev pub messages_of : List Arrival → List Bytes
messages_of [] = []
messages_of (a ∷ arrivals) = (a.protocol_id ∷ a.message) ∷ messages_of arrivals

refactor_handle_incoming_messages-arrival :
    (conn : Conn) (a : Arrival) (reads : List ConnRead) (peers : Peers)
    → refactor_handle_incoming_messages conn
        (in_reads a.parts (bytes (a.last ++ 10 ∷ []) ∷ reads))
        peers
      ≡ deliver (a.protocol_id ∷ a.message) (refactor_handle_incoming_messages conn reads peers)
unfolding frame
refactor_handle_incoming_messages-arrival conn a reads peers =
    refactor_handle_incoming_messages-line conn
      (in_reads a.parts (bytes (a.last ++ 10 ∷ []) ∷ reads)) peers
      (concat a.parts ++ (a.last ++ 10 ∷ [])) reads
      (read_string-in_reads a.parts a.last [] [] reads a.parts_lack a.last_lacks)
    ∙ ap (λ l. deliver l (refactor_handle_incoming_messages conn reads peers))
        (ap trim_space a.whole ∙ trim_space-line (a.protocol_id ∷ a.message) a.solid)

-- The frames of `HandleSendingMessages` that arrive, each in any number of reads but none in one read
-- with another, are handed to the blockchain as they were sent, protocol byte and message, in their
-- order; if the connection is then closed, its peer is taken out of the peers, and if a read then gives
-- another error, the peers stay as they are. The handler ends in both cases. No message holds a line
-- feed, and each frame begins and ends with an ASCII byte that is not white space.
pub refactor_handle_incoming_messages_delivers :
    (conn : Conn) (arrivals : List Arrival) (peers : Peers)
    → (refactor_handle_incoming_messages conn (reads_of arrivals (end_of_file ∷ [])) peers
        ≡ record { messages = messages_of arrivals; peers = remove_conn conn peers; ended = true })
      × (refactor_handle_incoming_messages conn (reads_of arrivals (read_error ∷ [])) peers
          ≡ record { messages = messages_of arrivals; peers = peers; ended = true })
unfolding frame
refactor_handle_incoming_messages_delivers conn [] peers =
    unfold refactor_handle_incoming_messages handle_incoming read_string in (refl, refl)
refactor_handle_incoming_messages_delivers conn (a ∷ arrivals) peers =
    let (closed, broken) = refactor_handle_incoming_messages_delivers conn arrivals peers in
    (
      refactor_handle_incoming_messages-arrival conn a (reads_of arrivals (end_of_file ∷ [])) peers
          ∙ ap (deliver (a.protocol_id ∷ a.message)) closed,
      refactor_handle_incoming_messages-arrival conn a (reads_of arrivals (read_error ∷ [])) peers
          ∙ ap (deliver (a.protocol_id ∷ a.message)) broken,
    )
