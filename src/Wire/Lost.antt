-- ===== src/Wire/Lost.antt =====
-- What a read gives behind a line feed: the next round makes a new reader, without it.
use simple_blockchain_client.Wire.Rounds.{refactor_handle_incoming_messages-line}
use simple_blockchain_client.Wire.Line.{read_string-in_reads, concat, in_reads}
use simple_blockchain_client.Text.Parts.{Lacks}
use simple_blockchain_client.Wire.{bytes, refactor_handle_incoming_messages, ConnRead}
use simple_blockchain_client.Text.{Bytes}
use simple_blockchain_client.Peers.{Peers, Conn}
use simple_blockchain_client.Prelude.{sym, ◌∙◌, ◌≡◌, ◌++◌, All, List, ◌∷◌, []}

-- Whatever a read gives behind the line feed of a line is lost: the handler delivers the same messages,
-- leaves the same peers and ends the same way as without it, even where it is another whole frame. No
-- earlier read of the line holds a line feed.
pub refactor_handle_incoming_messages_loses :
    (conn : Conn) (parts : List Bytes) (last after : Bytes) (reads : List ConnRead) (peers : Peers)
    → All (Lacks 10) parts
    → Lacks 10 last
    → refactor_handle_incoming_messages conn
        (in_reads parts (bytes (last ++ 10 ∷ after) ∷ reads))
        peers
      ≡ refactor_handle_incoming_messages conn
          (in_reads parts (bytes (last ++ 10 ∷ []) ∷ reads))
          peers
refactor_handle_incoming_messages_loses conn parts last after reads peers hp hl =
    let round = λ (more : Bytes).
      refactor_handle_incoming_messages-line conn
        (in_reads parts (bytes (last ++ 10 ∷ more) ∷ reads)) peers
        (concat parts ++ (last ++ 10 ∷ [])) reads
        (read_string-in_reads parts last more [] reads hp hl) in
    round after ∙ sym (round [])
