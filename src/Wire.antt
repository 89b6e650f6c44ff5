-- ===== src/Wire.antt =====
-- The reading side of a connection: `RefactorHandleIncomingMessages` of p2p/server.go, with the
-- `bufio.Reader` it makes for each message. What the reads of the connection give is an explicit
-- sequence; a read that gives bytes gives no error.
pub mod Line
pub mod Rounds
pub mod Deliver
pub mod Lost
pub mod Forward
use simple_blockchain_client.Text.Parts.{trim_space}
use simple_blockchain_client.Text.{Bytes}
use simple_blockchain_client.Peers.{remove_conn, Peers, Conn}
use simple_blockchain_client.Prelude.{
  nat_eq, ◌==◌, length, if◌then◌else◌, Bool, ◌++◌, Option, List, ◌∷◌, [], zero, suc, ℕ, none, some,
  true, false,
}

-- What one `Read` of the connection gives.
pub data ConnRead : Type 0 where
  bytes : Bytes → ConnRead
  end_of_file : ConnRead
  read_error : ConnRead

-- The text up to the first line feed, with it; what stands behind is not part of the result.
unfoldable pub line_of : Bytes → Option Bytes
line_of [] = none
line_of (c ∷ s) =
    let rest : Option Bytes = elim (line_of s) [ none ↦ none | some l ↦ some (c ∷ l) ] in
    if c == 10 then some (10 ∷ []) else rest

-- What `ReadString('\n')` of a new reader gives: a line, or an error, or nothing yet, where the
-- connection has no more to read.
pub data ReadString : Type 0 where
  line : Bytes → List ConnRead → ReadString
  eof : ReadString
  broken : ReadString
  waiting : ReadString

-- `bufio.NewReader(conn).ReadString('\n')`, `buffered` being what the reader holds. It returns as soon
-- as the buffer holds a line feed; the reader, and the rest of its buffer, is then dropped.
unfoldable pub read_string : Bytes → List ConnRead → ReadString
read_string buffered [] = waiting
read_string buffered (end_of_file ∷ reads) = eof
read_string buffered (read_error ∷ reads) = broken
read_string buffered (bytes s ∷ reads) =
    let longer = read_string (buffered ++ s) reads in
    elim (line_of s) [ none ↦ longer | some l ↦ line (buffered ++ l) reads ]

-- What the handler has done: the messages it sent to `P2PToBlockchain`, the peers it leaves, and whether
-- it has closed the connection and ended.
pub record Incoming : Type 0 where
  pub messages : List Bytes
  pub peers : Peers
  pub ended : Bool

abbrev pub deliver : Bytes → Incoming → Incoming
deliver message rest = record rest { messages = message ∷ rest.messages }

-- The loop of `RefactorHandleIncomingMessages(conn)`, a round on each line.
unfoldable pub handle_incoming : ℕ → Conn → List ConnRead → Peers → Incoming
handle_incoming zero conn reads peers = record { messages = []; peers = peers; ended = false }
handle_incoming (suc fuel) conn reads peers = elim (read_string [] reads) [
  | line message rest ↦ deliver (trim_space message) (handle_incoming fuel conn rest peers)
  | eof ↦ record { messages = []; peers = remove_conn conn peers; ended = true }
  | broken ↦ record { messages = []; peers = peers; ended = true }
  | waiting ↦ record { messages = []; peers = peers; ended = false }
]

-- A round takes a read at least, so that one more round than there are reads is enough.
unfoldable pub refactor_handle_incoming_messages : Conn → List ConnRead → Peers → Incoming
refactor_handle_incoming_messages conn reads peers =
    handle_incoming (suc (length reads)) conn reads peers
