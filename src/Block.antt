-- ===== src/Block.antt =====
-- blockchain/block.go: creation, validation and storage of blocks, and the miner's reward. The last
-- block is stored under the key `lastblock`, and every block under its hash.
pub mod Validate
pub mod Create
pub mod Store
pub mod Reward
use simple_blockchain_client.Account.Address.{is_valid_address}
use simple_blockchain_client.Transaction.{process_transaction_from_block}
use simple_blockchain_client.Account.{update_account, get_account, account_exists, store_account}
use simple_blockchain_client.Merkle.{build_merkle_tree}
use simple_blockchain_client.Types.{succ_u64, Transaction, Block}
use simple_blockchain_client.Text.{trim_0x, codes, Bytes}
use simple_blockchain_client.Platform.{failed, not_found, found, Batch, Read, Json, LevelDb, Crypto}
use simple_blockchain_client.Int.{◌+ℤ◌, pos, ℤ}
use simple_blockchain_client.Exec.{
  merkle_mismatch, lift, invalid_miner, parent_mismatch, block_hash_mismatch, stale_timestamp,
  raise_if, missing_key, ◌>>◌, pure, err, ◌>>=◌, ok, Exec, Result,
}
use simple_blockchain_client.Prelude.{
  bytes_eq, nat_eq, ◌==◌, length, leb, if◌then◌else◌, Bool, ◌++◌, Option, List, ◌∷◌, [], ℕ, none,
  some, true, false,
}
use simple_blockchain_client.Text.Hex
use simple_blockchain_client.Text.Decimal

-- The text whose hash is the block's.
unfoldable pub block_hash_data : ℕ → Bytes → Bytes → Bytes → ℕ → Bytes
block_hash_data number parent_hash merkle_root miner timestamp =
    Decimal.format number ++ (parent_hash ++ (merkle_root ++ (miner ++ Decimal.format timestamp)))

-- The transactions' hashes without `0x`, as validation takes them.
unfoldable pub trimmed_hashes : List Transaction → List Bytes
trimmed_hashes [] = []
trimmed_hashes (tx ∷ transactions) = trim_0x tx.hash ∷ trimmed_hashes transactions

-- As creation takes them: each must have 64 characters.
unfoldable pub transaction_hashes : List Transaction → Option (List Bytes)
transaction_hashes [] = some []
transaction_hashes (tx ∷ transactions) =
    let rest = transaction_hashes transactions in
    if length (trim_0x tx.hash) == 64
    then elim rest [ none ↦ none | some hashes ↦ some (trim_0x tx.hash ∷ hashes) ]
    else none

abbrev pub result_option {ℓ} : {A : Type ℓ} → Result A → Option A
result_option (ok a) = some a
result_option (err e) = none

abbrev pub reward_amount : ℤ
reward_amount = pos 1000

module _ ⦃C : Crypto⦄ where
  open C use {keccak256}

  unfoldable pub block_hash : Block → Bytes
  block_hash b =
      Hex.encode
        (keccak256 (block_hash_data b.number b.parent_hash b.merkle_root b.miner b.timestamp))

  -- The block that follows another, with its hash.
  unfoldable pub next_block : ℕ → Bytes → List Transaction → Bytes → Block → Block
  unfolding block_hash
  next_block now node_account transactions merkle_root last_block =
      let new_block : Block = record {
        number = succ_u64 last_block.number;
        hash = [];
        parent_hash = last_block.hash;
        timestamp = now;
        merkle_root = merkle_root;
        transaction = transactions;
        miner = node_account;
      } in
      record new_block { hash = block_hash new_block }

module _ ⦃L : LevelDb⦄ where
  open L use {Db, get}

  last_value : Read → Result Bytes
  last_value (found v) = ok v
  last_value not_found = err missing_key
  last_value failed = err missing_key

  -- `leveldb.GetLastBlock`
  unfoldable pub get_last_block : Db → Result Bytes
  unfolding last_value
  get_last_block d = last_value (get d (codes "lastblock"))

module _ ⦃L : LevelDb⦄ ⦃J : Json⦄ where
  open L use {Db, write}
  open J use {marshal_block, unmarshal_block, block_left}

  left_of : Result Bytes → Block
  left_of (ok lastblock_json) = block_left lastblock_json
  left_of (err e) = block_left []

  -- The last block that validation goes on with: errors of the read are printed only.
  unfoldable pub last_block_left : Db → Block
  unfolding left_of
  last_block_left d = left_of (get_last_block d)

  -- `ValidateBlockWithPrevBlock`
  unfoldable pub validate_block_with_prev_block : Block → Exec Db Unit
  validate_block_with_prev_block new_block d =
      let last_block = last_block_left d in
      if leb new_block.timestamp last_block.timestamp
      then (err stale_timestamp, d)
      else if last_block.hash == new_block.parent_hash
      then (ok tt, d)
      else (err parent_mismatch, d)

  unfoldable pub block_batch : Block → Batch
  block_batch b = (b.hash, marshal_block b) ∷ (codes "lastblock", marshal_block b) ∷ []

  -- `StoreBlock`: the error of the write is not looked at.
  unfoldable pub store_block : Block → Exec Db Unit
  store_block b d = elim (write (block_batch b) d) [ none ↦ (ok tt, d) | some d' ↦ (ok tt, d') ]

  unfoldable pub parsed_last_block : Db → Option Block
  parsed_last_block d = elim (result_option (get_last_block d)) [
    | none ↦ none
    | some lastblock_json ↦ unmarshal_block lastblock_json
  ]

  unfoldable pub ensure_miner : Bytes → Bool → Exec Db Unit
  ensure_miner miner_address true = pure tt
  ensure_miner miner_address false = do store_account miner_address; pure tt

  -- `RewardToMiner`
  unfoldable pub reward_to_miner : Bytes → Exec Db Unit
  reward_to_miner miner_address = do
    raise_if (if is_valid_address miner_address then false else true) invalid_miner
    miner_exists ← account_exists miner_address
    ensure_miner miner_address miner_exists
    miner_account ← get_account miner_address
    update_account miner_address
        (record miner_account { balance = miner_account.balance +ℤ reward_amount })

module _ ⦃L : LevelDb⦄ ⦃C : Crypto⦄ ⦃J : Json⦄ where
  open L use {Db}

  -- The Merkle root of a new block.
  unfoldable pub merkle_root_of : List Transaction → Option Bytes
  merkle_root_of transactions = elim (transaction_hashes transactions) [
    | none ↦ none
    | some hashes ↦ result_option (build_merkle_tree hashes)
  ]

  -- `CreateNewBlock` at a time, for the address of this node; `none` is the nil block.
  unfoldable pub create_new_block : ℕ → Bytes → List Transaction → Db → Option Block
  create_new_block now node_account transactions d = elim (parsed_last_block d) [
    | none ↦ none
    | some last_block ↦ elim (merkle_root_of transactions) [
      | none ↦ none
      | some merkle_root ↦ some (next_block now node_account transactions merkle_root last_block)
    ]
  ]

  -- The last loop of `validateReceivedBlock`.
  unfoldable pub process_transactions_from_block : List Transaction → Exec Db Unit
  process_transactions_from_block [] = pure tt
  process_transactions_from_block (tx ∷ transactions) =
      let rest = process_transactions_from_block transactions in
      process_transaction_from_block tx >> rest

  -- `validateReceivedBlock`
  unfoldable pub validate_received_block : Block → Exec Db Unit
  validate_received_block b = do
    validate_block_with_prev_block b
    raise_if (if b.hash == block_hash b then false else true) block_hash_mismatch
    merkle_root ← lift (build_merkle_tree (trimmed_hashes b.transaction))
    raise_if (if b.merkle_root == merkle_root then false else true) merkle_mismatch
    process_transactions_from_block b.transaction
