-- ===== src/Chain/Again.antt =====
-- A block that arrives when the node has accepted it already, or has accepted one that is as late.
use simple_blockchain_client.Chain.Kept.{execute_transactions-LastKept}
use simple_blockchain_client.Chain.Links.{Run, Run-timestamp, LastKept-last, accept_block-db}
use simple_blockchain_client.Chain.{
  process_message, handle_block, handle_validated, accept_block, Node,
}
use simple_blockchain_client.Transaction.{execute_transactions}
use simple_blockchain_client.Block.Store.{write_block-Stored, Stored}
use simple_blockchain_client.Block.Validate.{
  validate_received_block_sound, validate_received_block-stale,
}
use simple_blockchain_client.Block.{
  validate_received_block, store_block, block_batch, reward_to_miner, last_block_left,
}
use simple_blockchain_client.Exec.{ok}
use simple_blockchain_client.Types.{Block}
use simple_blockchain_client.Text.{Bytes}
use simple_blockchain_client.Platform.{Json, Crypto, LevelDb}
use simple_blockchain_client.Prelude.{ap, ◌∙◌, refl, arith, ◌≤◌, ◌≡◌, ◌∷◌, [], some}

module _ ⦃L : LevelDb⦄ ⦃C : Crypto⦄ ⦃J : Json⦄ where
  open L use {Db, write}
  open J use {unmarshal_block, block_again}

  block_message :
      (content : Bytes) (n : Node) → process_message (0x02 ∷ content) n ≡ handle_block content n
  unfolding process_message
  block_message content n = refl

  -- The block was read from a message, passed the checks, and was written after the reward.
  pub record IsAccepted (content : Bytes) (b : Block) (n : Node) : Type 0 where
    pub checked : Db
    pub stored : Db
    pub read : unmarshal_block content ≡ some b
    pub passed : validate_received_block b n.db ≡ (ok tt, checked)
    pub written : write (block_batch b) (reward_to_miner b.miner checked).1 ≡ some stored

  -- After the reward, the storage and the transactions, the block is the last one.
  accepted-last :
      (content : Bytes) (b : Block) (n : Node)
      → IsAccepted content b n
      → last_block_left (process_message (0x02 ∷ content) n).1.db ≡ b
  unfolding handle_block handle_validated
  accepted-last content b n a =
      let named = (validate_received_block_sound b n.db a.passed).0.hash in
      let last : Stored b (reward_to_miner b.miner a.checked).1 a.stored =
        write_block-Stored b _ (block_again content a.read) named a.written in
      let m : Node = record { db = a.checked; mempool = n.mempool } in
      let store : (store_block b (reward_to_miner b.miner a.checked).1).1 ≡ a.stored =
        unfold store_block in rw (a.written, store_block) refl in
      let run : (accept_block b m).1.db ≡ (execute_transactions b.transaction a.stored).1 =
        accept_block-db b m ∙ ap (λ s. (execute_transactions b.transaction s).1) store in
      rw (block_message content n, a.read, a.passed, handle_block, handle_validated)
        (ap last_block_left run
          ∙ (LastKept-last a.stored _ (execute_transactions-LastKept b.transaction a.stored)
              ∙ last.last))

  refused :
      (content : Bytes) (b : Block) (n : Node)
      → unmarshal_block content ≡ some b
      → b.timestamp ≤ (last_block_left n.db).timestamp
      → process_message (0x02 ∷ content) n ≡ ([], n)
  unfolding handle_block handle_validated
  refused content b n read late =
      rw
        (
          block_message content n,
          read,
          validate_received_block-stale b n.db late,
          handle_block,
          handle_validated,
        )
        refl

  -- Once the processor has accepted a block from a message and stored it, then, whatever messages it
  -- handles after that, and if the node makes no block itself meanwhile, a message of this block again,
  -- or of any block that is not later than it, sends nothing and leaves the node, its database and its
  -- mempool, as it is.
  pub process_message_again :
      (content : Bytes) (b : Block) (n : Node) {n' : Node}
      → IsAccepted content b n
      → Run (process_message (0x02 ∷ content) n).1 n'
      → (content' : Bytes) (b' : Block) → unmarshal_block content' ≡ some b'
      → b'.timestamp ≤ b.timestamp
      → process_message (0x02 ∷ content') n' ≡ ([], n')
  process_message_again content b n {n'} a run content' b' read late =
      let last = ap (λ (x : Block). x.timestamp) (accepted-last content b n a) in
      let grown = Run-timestamp run in refused content' b' n' read (omega arith)
