-- ===== src/Chain.antt =====
-- blockchain/blockchain.go, blockchain/account_manager.go and ProcessTransaction of
-- blockchain/transaction.go: the genesis block, the address of the node, and the two loops over the
-- state of the node, one message and one tick at a time.
pub mod Steady
pub mod Kept
pub mod Supply
pub mod Tick
pub mod Links
pub mod Again
pub mod Queues
pub mod Start
use simple_blockchain_client.Account.Address.{create_account}
use simple_blockchain_client.Transaction.{
  create_transaction, check_signature, validate_transaction_fields, execute_transactions,
}
use simple_blockchain_client.Int.{pos}
use simple_blockchain_client.Block.{
  block_batch, create_new_block, validate_received_block, store_block, reward_to_miner, block_hash,
}
use simple_blockchain_client.Account.{
  check_account_state, store_account_for_genesis_miner, account_key,
}
use simple_blockchain_client.Exec.{
  pure, write_failed, commit, unmarshal_failed, ok, lift, ◌>>◌, err, Result, Exec,
}
use simple_blockchain_client.Types.{value_string, Transaction, RawTransaction, Block}
use simple_blockchain_client.Text.{codes, Bytes}
use simple_blockchain_client.Platform.{failed, not_found, found, Read, Batch, Json, LevelDb, Crypto}
use simple_blockchain_client.Mempool.{
  clean_mempool_after_receive_block, add_transaction, extract_transactions_for_block,
  sync_future_to_pending, Mempool, Queue,
}
use simple_blockchain_client.Prelude.{
  nat_eq, ltb, ◌==◌, if◌then◌else◌, Bool, ◌+◌, Option, List, length, ◌∷◌, [], ℕ, none, some, true,
  false,
}

-- A message that a loop puts into a channel.
pub data Sent : Type 0 where
  blockchain_to_p2p p2p_to_blockchain : Bytes → Sent

-- `constants.TransactionsPerBlock`
abbrev pub transactions_per_block : ℕ
transactions_per_block = 5

-- The sum over the accounts that the creator compares with it.
unfoldable pub total_transactions : Queue → ℕ
total_transactions [] = 0
total_transactions ((account, account_txs) ∷ queue) = length account_txs + total_transactions queue

module _ ⦃C : Crypto⦄ where
  unfoldable pub genesis_block : Block
  genesis_block =
      let b : Block = record {
        number = 1;
        hash = [];
        parent_hash = codes "0x0";
        timestamp = 0;
        merkle_root = codes "0x0";
        transaction = [];
        miner = codes "0xde589C867174C349d00e9b582867aF5c13A74679";
      } in
      record b { hash = block_hash b }

module _ ⦃L : LevelDb⦄ ⦃C : Crypto⦄ ⦃J : Json⦄ where
  open L use {Db, get, write}
  open J use {marshal_account, marshal_block}

  -- `err == nil && len(lastBlockData) > 0`
  unfoldable pub has_block : Read → Bool
  has_block (found []) = false
  has_block (found (c ∷ s)) = true
  has_block not_found = false
  has_block failed = false

  -- `InitGenesisBlock`
  unfoldable pub store_genesis_block : Exec Db Unit
  store_genesis_block = do
    store_account_for_genesis_miner genesis_block.miner (pos 10000)
    commit (write (block_batch genesis_block)) write_failed

  unfoldable pub init_genesis_block : Exec Db Unit
  unfolding has_block
  init_genesis_block d =
      if has_block (get d (codes "lastblock")) then (ok tt, d) else store_genesis_block d

  -- The batch of a new account of the node.
  unfoldable pub node_batch : Bytes → Batch
  node_batch address =
      (codes "nodeAccount", address)
      ∷ (account_key address, marshal_account (record { balance = pos 0; nonce = 0 }))
      ∷ []

  unfoldable pub store_node_account : Result (Bytes × Bytes) → Exec Db Bytes
  store_node_account (err e) d = (err e, d)
  store_node_account (ok (private_key, address)) d = elim (write (node_batch address) d) [
    | none ↦ (err write_failed, d)
    | some d' ↦ (ok address, d')
  ]

  unfoldable pub load_or_create : Option (Bytes × Bytes) → Read → Exec Db Bytes
  load_or_create key_pair (found address) d = (ok address, d)
  load_or_create key_pair not_found d = store_node_account (create_account key_pair) d
  load_or_create key_pair failed d = store_node_account (create_account key_pair) d

  -- `InitializeNodeAccount`: the value of `NodeAccount`. Any error of the read makes a new account.
  unfoldable pub initialize_node_account : Option (Bytes × Bytes) → Exec Db Bytes
  unfolding load_or_create store_node_account
  initialize_node_account key_pair d = load_or_create key_pair (get d (codes "nodeAccount")) d

module _ ⦃L : LevelDb⦄ ⦃C : Crypto⦄ ⦃J : Json⦄ where
  open L use {Db}
  open J use {unmarshal_raw_transaction, unmarshal_block, marshal_block}

  pub record Node : Type 0 where
    pub db : Db
    pub mempool : Mempool

  -- The checks of `ProcessTransaction`, then the transaction and its JSON form.
  unfoldable pub check_raw_transaction : RawTransaction → Exec Db (Transaction × Bytes)
  check_raw_transaction raw = do
    lift (
        validate_transaction_fields raw.from raw.to (value_string raw.value) raw.signature
          raw.nonce)
    lift (check_signature raw.from raw.to raw.value raw.nonce raw.signature)
    check_account_state raw.from raw.to (value_string raw.value) raw.nonce
    pure (create_transaction raw.from raw.to raw.signature raw.value raw.nonce)

  -- The last step of `ProcessTransaction`: the mempool takes the transaction, or refuses it.
  unfoldable pub keep_transaction :
      Result (Transaction × Bytes) × Db → Mempool → Result Bytes × Node
  keep_transaction (err e, d) mp = (err e, record { db = d; mempool = mp })
  keep_transaction (ok (tx, json), d) mp =
      let (added, mp') = add_transaction tx d mp in
      (elim added [ err e ↦ err e | ok u ↦ ok json ], record { db = d; mempool = mp' })

  -- `ProcessTransaction`
  unfoldable pub process_transaction : Bytes → Node → Result Bytes × Node
  process_transaction message n = elim (unmarshal_raw_transaction message) [
    | none ↦ (err unmarshal_failed, n)
    | some raw ↦ keep_transaction (check_raw_transaction raw n.db) n.mempool
  ]

  -- The transaction message of `StartBlockchainProcessor`.
  unfoldable pub handle_transaction : Bytes → Node → List Sent × Node
  handle_transaction content n =
      let (processed, n') = process_transaction content n in
      (elim processed [ err e ↦ [] | ok json ↦ blockchain_to_p2p (0x01 ∷ json) ∷ [] ], n')

  -- A block that was validated: the reward, the storage, the transactions and the mempool, where an
  -- error of the reward or of a transaction is printed only.
  unfoldable pub accept_block : Block → Node → List Sent × Node
  accept_block b n =
      let (rewarded, d₁) = reward_to_miner b.miner n.db in
      let (stored, d₂) = store_block b d₁ in
      let (executed, d₃) = execute_transactions b.transaction d₂ in
      elim stored [
        | err e ↦ ([], record n { db = d₂ })
        | ok u ↦ (
          p2p_to_blockchain (0x02 ∷ marshal_block b) ∷ [],
          record { db = d₃; mempool = clean_mempool_after_receive_block b.transaction n.mempool },
        )
      ]

  unfoldable pub handle_validated : Block → Result (Unit {0}) × Db → Mempool → List Sent × Node
  handle_validated b (err e, d) mp = ([], record { db = d; mempool = mp })
  handle_validated b (ok u, d) mp = accept_block b (record { db = d; mempool = mp })

  -- The block message of `StartBlockchainProcessor`.
  unfoldable pub handle_block : Bytes → Node → List Sent × Node
  handle_block content n = elim (unmarshal_block content) [
    | none ↦ ([], n)
    | some b ↦ handle_validated b (validate_received_block b n.db) n.mempool
  ]

  -- One message of `P2PToBlockchain`.
  unfoldable pub process_message : Bytes → Node → List Sent × Node
  process_message [] n = ([], n)
  process_message (message_type ∷ content) n =
      if message_type == 0x01
      then handle_transaction content n
      else if message_type == 0x02
      then handle_block content n
      else ([], n)

  -- A tick that has made a block.
  unfoldable pub publish_block : Block → Node → List Sent × Node
  publish_block b n =
      let (stored, d₁) = store_block b n.db in
      let (executed, d₂) = execute_transactions b.transaction d₁ in
      let (rewarded, d₃) = reward_to_miner b.miner d₂ in
      elim stored [
        | err e ↦ ([], record n { db = d₁ })
        | ok u ↦ (blockchain_to_p2p (0x02 ∷ marshal_block b) ∷ [], record n { db = d₃ })
      ]

  unfoldable pub create_from : ℕ → Bytes → List Transaction → Node → List Sent × Node
  create_from now node_account [] n = ([], n)
  create_from now node_account (tx ∷ block_txs) n =
      elim (create_new_block now node_account (tx ∷ block_txs) n.db) [
        | none ↦ ([], n)
        | some b ↦ publish_block b n
      ]

  -- One tick of `StartBlockCreator`; `order` lists the keys of a queue as the range does.
  unfoldable pub create_block : ℕ → Bytes → (Queue → List Bytes) → Node → List Sent × Node
  create_block now node_account order n =
      let mp₁ = sync_future_to_pending n.mempool in
      let (block_txs, mp₂) =
        extract_transactions_for_block transactions_per_block (order mp₁.pending) mp₁ in
      if ltb (total_transactions mp₁.pending) transactions_per_block
      then ([], record n { mempool = mp₁ })
      else create_from now node_account block_txs (record n { mempool = mp₂ })
