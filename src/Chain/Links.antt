-- ===== src/Chain/Links.antt =====
-- How the last block changes with the messages that the processor handles.
use simple_blockchain_client.Block.Store.{store_block-cases}
use simple_blockchain_client.Mempool.{Mempool}
use simple_blockchain_client.Transaction.{execute_transactions}
use simple_blockchain_client.Chain.Kept.{
  validate_received_block-LastKept, execute_transactions-LastKept, check_raw_transaction-LastKept,
  reward_to_miner-LastKept, LastKept-trans, LastKept,
}
use simple_blockchain_client.Text.{Bytes}
use simple_blockchain_client.Exec.{Outcome-cases, Result}
use simple_blockchain_client.Block.Validate.{validate_received_block_sound, IsNext}
use simple_blockchain_client.Chain.{
  ok, err, check_raw_transaction, Mempool, execute_transactions, Transaction, process_transaction,
  handle_validated, Result, Bytes, process_message, keep_transaction, handle_transaction,
  handle_block, accept_block, Node,
}
use simple_blockchain_client.Block.{
  validate_received_block, block_batch, reward_to_miner, block_hash, store_block, get_last_block,
  last_block_left,
}
use simple_blockchain_client.Types.{Transaction, Block}
use simple_blockchain_client.Platform.{Json, LevelDb, Crypto}
use simple_blockchain_client.Prelude.{
  ap, ◌∙◌, sym, subst, nat_eq, refl, ◌==◌, inr, Bool-cases, ◌⊎◌, inl, arith, Option-cases, ◌≤◌, ◌≡◌,
  ◌<◌, ◌∷◌, [], some,
}

module _ ⦃C : Crypto⦄ where
  -- A block that follows another: later, with its hash as the parent's, and with its own hash.
  pub record Follows (last next : Block) : Type 0 where
    pub later : last.timestamp < next.timestamp
    pub parent : next.parent_hash ≡ last.hash
    pub hash : next.hash ≡ block_hash next

module _ ⦃L : LevelDb⦄ ⦃C : Crypto⦄ ⦃J : Json⦄ where
  open L use {Db, get, write}
  open J use {unmarshal_block, marshal_block, block_again, unmarshal_raw_transaction}

  -- The last block stays, or gives way to one that follows it.
  abbrev pub Extends : Db → Db → Type 0
  Extends d d' =
      (last_block_left d' ≡ last_block_left d) ⊎ Follows (last_block_left d) (last_block_left d')

  pub LastKept-last : (d d' : Db) → LastKept d d' → last_block_left d' ≡ last_block_left d
  unfolding last_block_left get_last_block
  LastKept-last d d' kept = rw kept

  pub accept_block-db :
      (b : Block) (n : Node)
      → (accept_block b n).1.db
        ≡ (execute_transactions b.transaction (store_block b (reward_to_miner b.miner n.db).1).1).1
  unfolding accept_block store_block
  accept_block-db b n =
      elim (Option-cases (write (block_batch b) (reward_to_miner b.miner n.db).1)) [
        | inl refused ↦ rw (refused, accept_block, store_block) (rw (refused, store_block))
        | inr (d', written) ↦ rw (written, accept_block, store_block) (rw (written, store_block))
      ]

  accept_block-Extends :
      (b : Block) (d : Db) (n : Node)
      → IsNext b d
      → unmarshal_block (marshal_block b) ≡ some b
      → LastKept d n.db
      → Extends d (accept_block b n).1.db
  accept_block-Extends b d n next again kept =
      let d₁ = (reward_to_miner b.miner n.db).1 in
      let d₂ = (store_block b d₁).1 in
      let d₃ = (execute_transactions b.transaction d₂).1 in
      let before = LastKept-trans d n.db d₁ kept (reward_to_miner-LastKept b.miner n.db) in
      let after = LastKept-last d₂ d₃ (execute_transactions-LastKept b.transaction d₂) in
      subst (Extends d) (sym (accept_block-db b n))
        (elim (store_block-cases b d₁ again next.hash).1 [
          | inl dropped ↦ inl (after ∙ (ap last_block_left dropped ∙ LastKept-last d d₁ before))
          | inr stored ↦ inr (
              subst (Follows (last_block_left d)) (sym (after ∙ stored.last))
                (record { later = next.later; parent = next.parent; hash = next.hash }))
        ])

  handle_block-Extends : (content : Bytes) (n : Node) → Extends n.db (handle_block content n).1.db
  unfolding handle_block handle_validated
  handle_block-Extends content n = elim (Option-cases (unmarshal_block content)) [
    | inl bad ↦ rw (bad, handle_block) (inl refl)
    | inr (b, read) ↦ elim (Outcome-cases (validate_received_block b n.db)) [
      | inl (u, d, passed) ↦
          let kept =
            subst (λ o. LastKept n.db o.1) passed (validate_received_block-LastKept b n.db) in
          rw (read, passed, handle_block, handle_validated)
            (accept_block-Extends b n.db (record { db = d; mempool = n.mempool })
              (validate_received_block_sound b n.db passed).0 (block_again content read) kept)
      | inr (e, d, refused) ↦
          let kept =
            subst (λ o. LastKept n.db o.1) refused (validate_received_block-LastKept b n.db) in
          rw (read, refused, handle_block, handle_validated) (inl (LastKept-last n.db d kept))
    ]
  ]

  keep_transaction-db :
      (checked : Result (Transaction × Bytes) × Db) (mp : Mempool)
      → (keep_transaction checked mp).1.db ≡ checked.1
  unfolding keep_transaction
  keep_transaction-db (err e, d) mp = refl
  keep_transaction-db (ok (tx, json), d) mp = refl

  handle_transaction-Extends :
      (content : Bytes) (n : Node) → Extends n.db (handle_transaction content n).1.db
  unfolding handle_transaction process_transaction
  handle_transaction-Extends content n = elim (Option-cases (unmarshal_raw_transaction content)) [
    | inl bad ↦ rw (bad, handle_transaction, process_transaction) (inl refl)
    | inr (raw, read) ↦
        rw
          (
            read,
            handle_transaction,
            process_transaction,
            keep_transaction-db (check_raw_transaction raw n.db) n.mempool,
          )
          (inl (
            LastKept-last n.db (check_raw_transaction raw n.db).1
              (check_raw_transaction-LastKept raw n.db)))
  ]

  -- Whatever message the processor handles, the last block stays, or gives way to a later one that
  -- names its hash as the parent's and carries the hash of its own header.
  pub process_message-Extends :
      (message : Bytes) (n : Node) → Extends n.db (process_message message n).1.db
  unfolding process_message
  process_message-Extends [] n = inl refl
  process_message-Extends (message_type ∷ content) n = elim (Bool-cases (message_type == 0x01)) [
    | inl tx ↦ rw tx (handle_transaction-Extends content n)
    | inr other ↦ elim (Bool-cases (message_type == 0x02)) [
      | inl block ↦ rw (other, block) (handle_block-Extends content n)
      | inr neither ↦ rw (other, neither) (inl refl)
    ]
  ]

  -- The states that any messages, in any order, lead to.
  pub data Run : Node → Node → Type 0 where
    stay : {n : Node} → Run n n
    receive : {n n' : Node} (message : Bytes) → Run (process_message message n).1 n' → Run n n'

  Extends-timestamp :
      (d d' : Db) → Extends d d' → (last_block_left d).timestamp ≤ (last_block_left d').timestamp
  Extends-timestamp d d' (inl same) = rw same (omega arith)
  Extends-timestamp d d' (inr follows) = let later = follows.later in omega arith

  -- However many messages the processor handles, the time of the last block never goes back.
  pub Run-timestamp :
      {n n' : Node}
      → Run n n'
      → (last_block_left n.db).timestamp ≤ (last_block_left n'.db).timestamp
  Run-timestamp stay = omega arith
  Run-timestamp (receive {n} {n'} message run) =
      let one =
        Extends-timestamp n.db (process_message message n).1.db
          (process_message-Extends message n) in
      let rest = Run-timestamp run in omega arith
