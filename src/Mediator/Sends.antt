-- ===== src/Mediator/Sends.antt =====
-- How many messages the processor and the creator have to send after a step.
use simple_blockchain_client.Block.{
  validate_received_block, reward_to_miner, store_block, create_new_block,
}
use simple_blockchain_client.Exec.{Result-cases, Outcome-cases, Result}
use simple_blockchain_client.Types.{Transaction, Block}
use simple_blockchain_client.Mempool.{sync_future_to_pending, Mempool, Queue}
use simple_blockchain_client.Text.{Bytes}
use simple_blockchain_client.Platform.{Json, Crypto, LevelDb}
use simple_blockchain_client.Chain.{
  transactions_per_block, total_transactions, process_transaction, handle_block, accept_block, Node,
  publish_block, process_message, handle_validated, handle_transaction, create_from, create_block,
}
use simple_blockchain_client.Prelude.{
  refl, ◌≡◌, nat_eq, ◌==◌, ltb, inr, inl, arith, Option-cases, Bool-cases, ◌≤◌, length, List, ◌∷◌,
  [], ℕ,
}

module _ ⦃L : LevelDb⦄ ⦃C : Crypto⦄ ⦃J : Json⦄ where
  handle_validated_sends :
      (b : Block) (o : Result (Unit {0}) × L.Db) (mp : Mempool)
      → length (handle_validated b o mp).0 ≤ 1
  unfolding handle_validated accept_block
  handle_validated_sends b o mp = elim (Outcome-cases o) [
    | inr (e, d, h) ↦ rw h (omega arith)
    | inl (u, d, h) ↦ rw h (elim (Result-cases (store_block b (reward_to_miner b.miner d).1).0) [
      | inl (u, stored) ↦ ground arith
      | inr (e, stored) ↦ ground arith
    ])
  ]

  handle_transaction_sends :
      (content : Bytes) (n : Node) → length (handle_transaction content n).0 ≤ 1
  unfolding handle_transaction
  handle_transaction_sends content n = elim (Result-cases (process_transaction content n).0) [
    | inl (json, e) ↦ ground arith
    | inr (why, e) ↦ ground arith
  ]

  handle_block_sends : (content : Bytes) (n : Node) → length (handle_block content n).0 ≤ 1
  handle_block_sends content n = elim (Option-cases (J.unmarshal_block content)) [
    | inl e ↦ unfold handle_block in ground arith
    | inr (b, e) ↦
        let same : handle_block content n
            ≡ handle_validated b (validate_received_block b n.db) n.mempool =
          unfold handle_block in rw (e, handle_block) refl in
        rw same (handle_validated_sends b (validate_received_block b n.db) n.mempool)
  ]

  -- Processing a message gives one message to send at most.
  pub process_message_sends :
      (message : Bytes) (n : Node) → length (process_message message n).0 ≤ 1
  unfolding process_message
  process_message_sends [] n = omega arith
  process_message_sends (message_type ∷ content) n = ground (
    arith,
    handle_transaction_sends content n,
    handle_block_sends content n,
    Bool-cases (message_type == 0x01),
    Bool-cases (message_type == 0x02),
  )

  publish_block_sends : (b : Block) (n : Node) → length (publish_block b n).0 ≤ 1
  unfolding publish_block
  publish_block_sends b n = elim (Result-cases (store_block b n.db).0) [
    | inl (u, stored) ↦ ground arith
    | inr (e, stored) ↦ ground arith
  ]

  create_from_sends :
      (now : ℕ) (node_account : Bytes) (block_txs : List Transaction) (n : Node)
      → length (create_from now node_account block_txs n).0 ≤ 1
  unfolding create_from
  create_from_sends now node_account [] n = omega arith
  create_from_sends now node_account (tx ∷ block_txs) n =
      elim (Option-cases (create_new_block now node_account (tx ∷ block_txs) n.db)) [
        | inl e ↦ ground arith
        | inr (b, e) ↦
            let same : create_from now node_account (tx ∷ block_txs) n ≡ publish_block b n =
              rw (e, create_from) refl in
            rw same (publish_block_sends b n)
      ]

  pub create_block_sends :
      (now : ℕ) (node_account : Bytes) (order : Queue → List Bytes) (n : Node)
      → length (create_block now node_account order n).0 ≤ 1
  unfolding create_block
  create_block_sends now node_account order n =
      elim (Bool-cases (
        ltb (total_transactions (sync_future_to_pending n.mempool).pending)
          transactions_per_block)) [
            | inl few ↦ rw few (omega arith)
            | inr enough ↦ rw enough (create_from_sends now node_account _ _)
          ]
