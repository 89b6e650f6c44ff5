-- ===== src/Mediator.antt =====
-- mediator/mediator.go: the channels between the goroutines, and how StartBlockchainProcessor and
-- StartBlockCreator of blockchain/blockchain.go wait on them. A channel is the list of the messages in it.
-- The two channels of RPC are made, but nothing reads or writes them.
pub mod Sends
pub mod Bounds
pub mod Taken
pub mod Stuck
pub mod Progress
use simple_blockchain_client.Mempool.{Queue}
use simple_blockchain_client.Text.{Bytes}
use simple_blockchain_client.Platform.{Json, Crypto, LevelDb}
use simple_blockchain_client.Chain.{
  create_block, process_message, Node, Sent, p2p_to_blockchain, blockchain_to_p2p,
}
use simple_blockchain_client.Prelude.{
  ◌++◌, length, ◌≡◌, ltb, if◌then◌else◌, Option, List, ◌∷◌, [], zero, suc, ℕ, none, some, true,
  false,
}

pub record Mediator : Type 0 where
  pub rpc_to_blockchain : List Bytes
  pub blockchain_to_rpc : List Bytes
  pub p2p_to_blockchain : List Bytes
  pub blockchain_to_p2p : List Bytes

-- What `GetMediatorInstance` makes the first time; it gives the same channels ever after.
unfoldable pub new_mediator : Mediator
new_mediator = record {
  rpc_to_blockchain = [];
  blockchain_to_rpc = [];
  p2p_to_blockchain = [];
  blockchain_to_p2p = [];
}

abbrev pub capacity : ℕ
capacity = 100

-- A send; `none` where it blocks, since the channel is full.
unfoldable pub send : Bytes → List Bytes → Option (List Bytes)
send message channel =
    if ltb (length channel) capacity then some (channel ++ message ∷ []) else none

unfoldable pub put_message : Sent → Mediator → Option Mediator
put_message (p2p_to_blockchain message) m = elim (send message m.p2p_to_blockchain) [
  | none ↦ none
  | some channel ↦ some (record m { p2p_to_blockchain = channel })
]
put_message (blockchain_to_p2p message) m = elim (send message m.blockchain_to_p2p) [
  | none ↦ none
  | some channel ↦ some (record m { blockchain_to_p2p = channel })
]

module _ ⦃L : LevelDb⦄ ⦃C : Crypto⦄ ⦃J : Json⦄ where
  -- The node, the channels, and what the processor and the creator have still to send.
  pub record System : Type 0 where
    pub node : Node
    pub mediator : Mediator
    pub processor : List Sent
    pub creator : List Sent

  -- The steps of the goroutines: a peer's handler or an RPC method sends a message; the processor takes
  -- one and processes it, or sends what that gave; the creator ticks, or sends its block; the client
  -- takes a message for the peers.
  pub data Step (s : System) : System → Type 0 where
    submit :
        (message : Bytes) (m : Mediator)
        → put_message (p2p_to_blockchain message) s.mediator ≡ some m
        → Step s (record s { mediator = m })
    take_message :
        (message : Bytes) (rest : List Bytes)
        → s.processor ≡ []
        → s.mediator.p2p_to_blockchain ≡ message ∷ rest
        → Step s (record s {
          node = (process_message message s.node).1;
          mediator = record s.mediator { p2p_to_blockchain = rest };
          processor = (process_message message s.node).0;
        })
    processor_sends :
        (message : Sent) (rest : List Sent) (m : Mediator)
        → s.processor ≡ message ∷ rest
        → put_message message s.mediator ≡ some m
        → Step s (record s { mediator = m; processor = rest })
    tick :
        (now : ℕ) (node_account : Bytes) (order : Queue → List Bytes)
        → s.creator ≡ []
        → Step s (record s {
          node = (create_block now node_account order s.node).1;
          creator = (create_block now node_account order s.node).0;
        })
    creator_sends :
        (message : Sent) (rest : List Sent) (m : Mediator)
        → s.creator ≡ message ∷ rest
        → put_message message s.mediator ≡ some m
        → Step s (record s { mediator = m; creator = rest })
    forward :
        (message : Bytes) (rest : List Bytes)
        → s.mediator.blockchain_to_p2p ≡ message ∷ rest
        → Step s (record s { mediator = record s.mediator { blockchain_to_p2p = rest } })

  pub data Steps (s : System) : System → Type 0 where
    here : Steps s s
    after : {t u : System} → Steps s t → Step t u → Steps s u
